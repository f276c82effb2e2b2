-- ===== src/Hpack/Static/Lookup.antt =====
-- The search of the static table: it ends, finds every field that is there, and what it finds has
-- the name that was asked for.
use Prim.Native.Nat.{Ordering}
use native.Mathlib.Nat.{zero-add}
use x.Base.{
  ℕ, zero, suc, ◌+◌, ◌-◌, ◌/◌, ◌<◌, ◌≤◌, ◌≡◌, inl, inr, refl, ap, sym, ◌∙◌, arith, Bool, true,
  false, ◌&&◌, List, [], ◌∷◌, Bytes, get_elem?, get_elem?-lt, leb→le, leb, ◌==◌, ==_iff,
  if◌then◌else◌, Option, none, some, Outcome, ok, raise, ◌>>=◌, Bool-cases,
}
use x.Hpack.Table.{TableEntry, equal}
use x.Hpack.Table.Lookup.{equal_iff}
use x.Hpack.Static.{
  entries, sorted_entries, SortedEntry, compare_bytes, compare_fields, sorted_at, Search, hit,
  window, branch, find_loop, find_ends, finish_find, static_find,
}

compare_bytes-eq : (xs ys : Bytes) → compare_bytes xs ys ≡ Ordering.eq → xs ≡ ys
unfolding compare_bytes
compare_bytes-eq [] [] h = refl
compare_bytes-eq [] (y ∷ ys) h = cc
compare_bytes-eq (x ∷ xs) [] h = cc
compare_bytes-eq (x ∷ xs) (y ∷ ys) h = ground (arith, compare_bytes-eq xs ys)

compare_fields-eq :
    (e d : TableEntry) → compare_fields e d ≡ Ordering.eq → (e.name ≡ d.name) × (e.value ≡ d.value)
unfolding compare_fields
compare_fields-eq e d h =
    ground (arith, compare_bytes-eq e.name d.name, compare_bytes-eq e.value d.value)

-- A test of every entry of a list that also sees the place of the entry.
all_from {ℓ} : {A : Type ℓ} → (ℕ → A → Bool) → ℕ → List A → Bool
all_from p i [] = true
all_from p i (x ∷ xs) = p i x && all_from p (suc i) xs

all_from_lem {ℓ} :
    {A : Type ℓ} (p : ℕ → A → Bool) (i : ℕ) (xs : List A) (j : ℕ) (x : A)
    → all_from p i xs ≡ true
    → get_elem? xs j ≡ some x
    → p (i + j) x ≡ true
unfolding all_from
all_from_lem p i [] j x h g = cc
all_from_lem p i (y ∷ ys) zero x h g = ground arith
all_from_lem p i (y ∷ ys) (suc j) x h g = ground (arith, all_from_lem p (suc i) ys j x)

-- The entry that the sorted table has in place `m` stands in the table at its index.
is_at : TableEntry → Option TableEntry → Bool
is_at d none = false
is_at d (some x) = equal x.name d.name && equal x.value d.value

is_hit : ℕ → Outcome (Option (ℕ × Bool)) → Bool
is_hit i (raise f) = false
is_hit i (ok none) = false
is_hit i (ok (some (n, matches))) = n == i && matches

sorted_agrees : all_from (λ m s. is_at s.field (get_elem? entries s.index)) 0 sorted_entries ≡ true
unfolding all_from is_at entries sorted_entries equal
sorted_agrees = refl

entries_found : (flag : Bool) → all_from (λ i x. is_hit i (static_find x flag)) 0 entries ≡ true
unfolding all_from is_hit entries static_find
entries_found true = refl
entries_found false = refl

is_hit_lem : (i : ℕ) (r : Outcome (Option (ℕ × Bool))) → is_hit i r ≡ true → r ≡ ok (some (i, true))
unfolding is_hit
is_hit_lem i (raise f) h = cc
is_hit_lem i (ok none) h = cc
is_hit_lem i (ok (some (n, matches))) h = ground (arith, ==_iff n i)

-- Every field of the table is found at its own place.
pub static_find-entries :
    (flag : Bool) (i : ℕ) (x : TableEntry)
    → get_elem? entries i ≡ some x
    → static_find x flag ≡ ok (some (i, true))
static_find-entries flag i x g = is_hit_lem i (static_find x flag) (
    rw zero-add at
      (all_from_lem (λ i x. is_hit i (static_find x flag)) 0 entries i x (entries_found flag) g))

-- The field of the table in place `i` has the name of `e`, and the value too if `exact`.
pub record IsField (e : TableEntry) (i : ℕ) (exact : Bool) : Type 0 where
  pub field : TableEntry
  pub field_at : get_elem? entries i ≡ some field
  pub same_name : field.name ≡ e.name
  pub same_value : exact ≡ true → field.value ≡ e.value

sorted_at_lem :
    (m : ℕ)
    → m < 61
    → (s : SortedEntry) × (sorted_at m ≡ ok s) × (get_elem? sorted_entries m ≡ some s)
unfolding sorted_at
sorted_at_lem m h =
    let (s, g) = get_elem?-lt sorted_entries m (unfold sorted_entries in h) in (s, rw g, g)

is_at_lem :
    (d : TableEntry) (o : Option TableEntry)
    → is_at d o ≡ true
    → (x : TableEntry) × (o ≡ some x) × (x.name ≡ d.name) × (x.value ≡ d.value)
unfolding is_at
is_at_lem d none h = cc
is_at_lem d (some x) h =
    (x, refl, ground (arith, equal_iff x.name d.name), ground (arith, equal_iff x.value d.value))

-- What stands in place `m` of the sorted table stands in the table at its index.
sorted-IsField :
    (m : ℕ) (s : SortedEntry)
    → get_elem? sorted_entries m ≡ some s
    → (x : TableEntry) × (get_elem? entries s.index ≡ some x)
      × (x.name ≡ s.field.name)
      × (x.value ≡ s.field.value)
sorted-IsField m s g = is_at_lem s.field _ (
    all_from_lem (λ m s. is_at s.field (get_elem? entries s.index)) 0 sorted_entries m s
      sorted_agrees g)

abbrev IsGood : TableEntry → Outcome Search → Type 0
IsGood e (raise f) = ⊥
IsGood e (ok (hit i)) = IsField e i true
IsGood e (ok (window l r)) = (l < 61) × (r < 61)

branch-IsGood :
    (e : TableEntry) (m : ℕ) (s : SortedEntry) (o : Ordering) (left right : Outcome Search)
    → get_elem? sorted_entries m ≡ some s
    → compare_fields e s.field ≡ o
    → IsGood e left
    → IsGood e right
    → IsGood e (branch s o left right)
unfolding branch
branch-IsGood e m s Ordering.lt left right g c gl gr = gl
branch-IsGood e m s Ordering.gt left right g c gl gr = gr
branch-IsGood e m s Ordering.eq left right g c gl gr =
    let (x, at_index, names, values) = sorted-IsField m s g in
    let (n, v) = compare_fields-eq e s.field c in
    record {
      field = x;
      field_at = at_index;
      same_name = names ∙ sym n;
      same_value = λ _. values ∙ sym v;
    }

find_loop-IsGood :
    (fuel : ℕ) (e : TableEntry) (l r : ℕ)
    → l ≤ r
    → r < 61
    → r - l < fuel
    → IsGood e (find_loop fuel e l r)
unfolding find_loop
find_loop-IsGood zero e l r lr hr h = absurd (omega arith)
find_loop-IsGood (suc fuel) e l r lr hr h = elim (Bool-cases (leb 2 (r - l))) [
  | inl wide ↦
      let (s, found, g) = sorted_at_lem ((l + r) / 2) (omega arith) in
      rw (wide, found)
        (branch-IsGood e ((l + r) / 2) s (compare_fields e s.field) _ _ g refl
          (find_loop-IsGood fuel e l ((l + r) / 2) (omega arith) (omega arith)
            (omega (arith, leb→le _ _ wide)))
          (find_loop-IsGood fuel e ((l + r) / 2) r (omega arith) (omega arith)
            (omega (arith, leb→le _ _ wide))))
  | inr narrow ↦ rw narrow (omega arith, omega arith)
]

-- What `static_find` answers: nothing, or a place whose field has the name; the value too if the
-- flag comes back true though it was false before.
pub data Answer (e : TableEntry) (flag : Bool) : Option (ℕ × Bool) → Type 0 where
  absent : Answer e flag none
  exact : (i : ℕ) → IsField e i true → Answer e flag (some (i, true))
  name_only : (i : ℕ) → IsField e i false → Answer e flag (some (i, flag))

module _ (e : TableEntry) (m : ℕ) (s : SortedEntry) (g : get_elem? sorted_entries m ≡ some s) where
  IsField-exact :
      equal e.name s.field.name ≡ true → equal e.value s.field.value ≡ true → IsField e s.index true
  IsField-exact n v =
      let (x, at_x, names, values) = sorted-IsField m s g in
      record {
        field = x;
        field_at = at_x;
        same_name = names ∙ sym ((equal_iff e.name s.field.name).0 n);
        same_value = λ _. values ∙ sym ((equal_iff e.value s.field.value).0 v);
      }

  IsField-name : equal e.name s.field.name ≡ true → IsField e s.index false
  IsField-name n =
      let (x, at_x, names, values) = sorted-IsField m s g in
      record {
        field = x;
        field_at = at_x;
        same_name = names ∙ sym ((equal_iff e.name s.field.name).0 n);
        same_value = λ h. cc;
      }

  -- The answer where the name is found at this end.
  Answer-named :
      (flag : Bool)
      → equal e.name s.field.name ≡ true
      → Answer e flag (some (s.index, if equal e.value s.field.value then true else flag))
  Answer-named flag n = elim (Bool-cases (equal e.value s.field.value)) [
    | inl v ↦ rw v (exact s.index (IsField-exact n v))
    | inr v ↦ rw v (name_only s.index (IsField-name n))
  ]

find_ends-Answer :
    (e : TableEntry) (flag : Bool) (l r : ℕ) (left right : SortedEntry)
    → get_elem? sorted_entries l ≡ some left
    → get_elem? sorted_entries r ≡ some right
    → Answer e flag (find_ends e flag left right)
unfolding find_ends
find_ends-Answer e flag l r left right gl gr = elim (Bool-cases (equal e.name left.field.name)) [
  | inl nl ↦ elim (Bool-cases (equal e.value left.field.value)) [
    | inl vl ↦ rw (nl, vl) (exact left.index (IsField-exact e l left gl nl vl))
    | inr vl ↦ elim (Bool-cases (equal e.name right.field.name)) [
      | inl nr ↦ rw (nl, vl, nr) (Answer-named e r right gr flag nr)
      | inr nr ↦ rw (nl, vl, nr) (name_only left.index (IsField-name e l left gl nl))
    ]
  ]
  | inr nl ↦ elim (Bool-cases (equal e.name right.field.name)) [
    | inl nr ↦ rw (nl, nr) (Answer-named e r right gr flag nr)
    | inr nr ↦ rw (nl, nr) absent
  ]
]

finish_find-Answer :
    (e : TableEntry) (flag : Bool) (s : Search)
    → IsGood e (ok s)
    → (o : Option (ℕ × Bool)) × (finish_find e flag s ≡ ok o) × Answer e flag o
unfolding finish_find
finish_find-Answer e flag (hit i) f = (some (i, true), refl, exact i f)
finish_find-Answer e flag (window l r) (hl, hr) =
    let (left, found_left, gl) = sorted_at_lem l hl in
    let (right, found_right, gr) = sorted_at_lem r hr in
    (
      find_ends e flag left right,
      rw (found_left, found_right),
      find_ends-Answer e flag l r left right gl gr,
    )

IsGood-ok :
    (e : TableEntry) (r : Outcome Search) → IsGood e r → (s : Search) × (r ≡ ok s) × IsGood e (ok s)
IsGood-ok e (ok s) g = (s, refl, g)
IsGood-ok e (raise f) g = absurd g

-- The search of the static table always ends with an answer: that the name is not found, or a place
-- whose field has the name. The answer `true` means the value too, unless it is the flag's own.
pub static_find_total :
    (e : TableEntry) (flag : Bool)
    → (o : Option (ℕ × Bool)) × (static_find e flag ≡ ok o) × Answer e flag o
unfolding static_find
static_find_total e flag =
    let (s, found, g) =
      IsGood-ok e (find_loop 61 e 0 60)
        (find_loop-IsGood 61 e 0 60 (omega arith) (omega arith) (omega arith)) in
    let (o, answers, a) = finish_find-Answer e flag s g in
    (o, ap (λ r. r >>= finish_find e flag) found ∙ answers, a)
