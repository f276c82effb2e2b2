-- ===== src/Hpack/Table/Lookup.antt =====
-- `find` returns the first entry of a name, and says whether its value matches.
use mathlib.Core.Path.{subst}
use x.Base.{
  ℕ, zero, suc, ◌+◌, ◌<◌, ◌≡◌, ◌≢◌, ◌↔◌, ◌⊎◌, refl, sym, arith, Bool, true, false, List, [], ◌∷◌,
  Bytes, get_elem?, Option, none, some, Bool-cases, inl, inr,
}
use x.Hpack.Table.{TableEntry, DynamicTable, equal, find_from, find, at}

pub equal_iff : (xs ys : Bytes) → (equal xs ys ≡ true) ↔ (xs ≡ ys)
unfolding equal
equal_iff (x ∷ xs) (y ∷ ys) = ground (arith, equal_iff xs ys)
equal_iff _ _ = ground arith

-- What `find` reports of the list: an entry `j` places in, the first of that name.
pub record IsFirst (es : List TableEntry) (e : TableEntry) (j : ℕ) (matches : Bool) : Type 0 where
  pub entry : TableEntry
  pub entry_at : get_elem? es j ≡ some entry
  pub same_name : entry.name ≡ e.name
  pub same_value : (matches ≡ true) ↔ (e.value ≡ entry.value)
  pub first : (k : ℕ) (x : TableEntry) → k < j → get_elem? es k ≡ some x → x.name ≢ e.name

IsFirst-here :
    (x : TableEntry) (xs : List TableEntry) (e : TableEntry)
    → equal e.name x.name ≡ true
    → IsFirst (x ∷ xs) e 0 (equal e.value x.value)
IsFirst-here x xs e same = record {
  entry = x;
  entry_at = refl;
  same_name = sym ((equal_iff e.name x.name).0 same);
  same_value = equal_iff e.value x.value;
  first = λ k y h _. absurd (omega arith);
}

before :
    (x : TableEntry) (xs : List TableEntry) (e : TableEntry) (j : ℕ)
    → equal e.name x.name ≡ false
    → ((k : ℕ) (y : TableEntry) → k < j → get_elem? xs k ≡ some y → y.name ≢ e.name)
    → (k : ℕ) (y : TableEntry) → k < suc j
    → get_elem? (x ∷ xs) k ≡ some y
    → y.name ≢ e.name
before x xs e j other rest zero y h g = λ n. ground (arith, equal_iff e.name x.name)
before x xs e j other rest (suc k) y h g = rest k y (omega arith) g

IsFirst-there :
    (x : TableEntry) (xs : List TableEntry) (e : TableEntry) (j : ℕ) (matches : Bool)
    → equal e.name x.name ≡ false
    → IsFirst xs e j matches
    → IsFirst (x ∷ xs) e (suc j) matches
IsFirst-there x xs e j matches other f = record {
  entry = f.entry;
  entry_at = f.entry_at;
  same_name = f.same_name;
  same_value = f.same_value;
  first = before x xs e j other f.first;
}

find_from_lem :
    (i : ℕ) (es : List TableEntry) (e : TableEntry) (n : ℕ) (matches : Bool)
    → find_from i es e ≡ some (n, matches)
    → (j : ℕ) × (n ≡ i + j) × IsFirst es e j matches
unfolding find_from
find_from_lem i [] e n matches h = cc
find_from_lem i (x ∷ xs) e n matches h = elim (Bool-cases (equal e.name x.name)) [
  | inl same ↦
      let flag : equal e.value x.value ≡ matches = ground arith in
      (0, ground arith, subst (IsFirst (x ∷ xs) e 0) flag (IsFirst-here x xs e same))
  | inr other ↦
      let (j, at_j, f) = find_from_lem (i + 1) xs e n matches (rw other at h) in
      (suc j, omega arith, IsFirst-there x xs e j matches other f)
]

find_from-none :
    (i : ℕ) (es : List TableEntry) (e : TableEntry)
    → find_from i es e ≡ none
    → (k : ℕ) (x : TableEntry) → get_elem? es k ≡ some x
    → x.name ≢ e.name
unfolding find_from
find_from-none i [] e h k x g = cc
find_from-none i (y ∷ es) e h zero x g = λ n. ground (arith, equal_iff e.name y.name)
find_from-none i (y ∷ es) e h (suc k) x g = find_from-none (i + 1) es e (ground arith) k x g

-- What `find` answers: an index where the table has an entry of that name, the first there is, and
-- whether the value is that entry's; or that no entry has the name.
pub find_lem :
    (t : DynamicTable) (e : TableEntry)
    → ((i : ℕ) × (matches : Bool) × (find t e ≡ some (i, matches)) × IsFirst t.entries e i matches)
      ⊎ ((find t e ≡ none) × ((k : ℕ) (x : TableEntry) → at t k ≡ some x → x.name ≢ e.name))
unfolding find at
find_lem t e = answer (find_from 0 t.entries e) refl
  where
    answer :
        (r : Option (ℕ × Bool))
        → find_from 0 t.entries e ≡ r
        → ((i : ℕ) × (matches : Bool) × (find_from 0 t.entries e ≡ some (i, matches))
            × IsFirst t.entries e i matches)
          ⊎ ((find_from 0 t.entries e ≡ none)
              × ((k : ℕ) (x : TableEntry) → get_elem? t.entries k ≡ some x → x.name ≢ e.name))
    answer none h = inr (h, find_from-none 0 t.entries e h)
    answer (some (n, matches)) h =
        let (j, at_j, f) = find_from_lem 0 t.entries e n matches h in
        let same : j ≡ n = omega arith in
        inl (n, matches, h, subst (λ (k : ℕ). IsFirst t.entries e k matches) same f)
