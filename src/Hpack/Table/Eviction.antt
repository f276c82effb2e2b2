-- ===== src/Hpack/Table/Eviction.antt =====
-- The size that the table keeps is that of its entries, and eviction keeps the newest that fit.
use x.Base.{
  ℕ, zero, suc, ◌+◌, ◌-◌, ◌%◌, ◌^◌, ◌<◌, ◌≤◌, ◌≡◌, refl, ap, ◌∙◌, arith, List, [], ◌∷◌, length, ltb,
  if◌then◌else◌, some, ok, Bool-cases, ltb-ge, inl, inr,
}
use x.Hpack.Table.{
  TableEntry, DynamicTable, entry_size, back, pop_back, evict_last, evict_loop, evict, set_max_size,
  add, clear,
}

abbrev pub total : List TableEntry → ℕ
total [] = 0
total (e ∷ es) = entry_size e + total es

-- The size that is kept is the size of the entries, and no `size_t` overflows.
pub record IsValid (t : DynamicTable) : Type 0 where
  pub counted : t.size ≡ total t.entries
  pub bounded : total t.entries < 2 ^ 64

-- The newest entries that fit into `limit`, up to the first that does not.
unfoldable pub newest : ℕ → List TableEntry → List TableEntry
newest limit [] = []
newest limit (e ∷ es) =
    let older = newest (limit - entry_size e) es in
    if ltb limit (entry_size e) then [] else e ∷ older

newest-all : (limit : ℕ) (es : List TableEntry) → total es ≤ limit → newest limit es ≡ es
unfolding newest
newest-all limit [] h = refl
newest-all limit (e ∷ es) h = ground (arith, newest-all (limit - entry_size e) es)

newest-pop_back :
    (limit : ℕ) (e : TableEntry) (es : List TableEntry)
    → limit < total (e ∷ es)
    → newest limit (pop_back (e ∷ es)) ≡ newest limit (e ∷ es)
unfolding newest pop_back
newest-pop_back limit e [] h = ground arith
newest-pop_back limit e (d ∷ es) h = ground (arith, newest-pop_back (limit - entry_size e) d es)

total-pop_back :
    (e : TableEntry) (es : List TableEntry)
    → (l : TableEntry) × (back (e ∷ es) ≡ some l)
      × (total (pop_back (e ∷ es)) + entry_size l ≡ total (e ∷ es))
unfolding back pop_back
total-pop_back e [] = (e, refl, omega arith)
total-pop_back e (d ∷ es) = let (l, b, t) = total-pop_back d es in (l, b, omega (arith, t))

length-pop_back : (e : TableEntry) (es : List TableEntry) → length (pop_back (e ∷ es)) ≡ length es
unfolding pop_back
length-pop_back e [] = refl
length-pop_back e (d ∷ es) = ap suc (length-pop_back d es)

total-newest :
    (limit : ℕ) (es : List TableEntry)
    → (total (newest limit es) ≤ limit) × (total (newest limit es) ≤ total es)
unfolding newest
total-newest limit [] = omega arith
total-newest limit (e ∷ es) = ground (arith, total-newest (limit - entry_size e) es)

-- What `evict` leaves: the newest entries that fit, with their size.
abbrev pub kept : DynamicTable → DynamicTable
kept t = record t {
  size = total (newest t.max_size t.entries);
  entries = newest t.max_size t.entries;
}

evict_loop_lem :
    (fuel : ℕ) (m : ℕ) (es : List TableEntry)
    → total es < 2 ^ 64
    → length es < fuel
    → evict_loop fuel (record { max_size = m; size = total es; entries = es })
      ≡ ok (record { max_size = m; size = total (newest m es); entries = newest m es })
unfolding evict_loop evict_last
evict_loop_lem zero m es b h = absurd (omega arith)
evict_loop_lem (suc fuel) m [] b h =
    rw (ltb-ge m 0 (omega arith), evict_loop) (unfold newest in refl)
evict_loop_lem (suc fuel) m (e ∷ es) b h = elim (Bool-cases (ltb m (total (e ∷ es)))) [
  | inl big ↦
      let (l, is_back, sizes) = total-pop_back e es in
      ground (
        arith,
        newest-pop_back m e es,
        length-pop_back e es,
        evict_loop_lem fuel m (pop_back (e ∷ es)) (omega arith)
            (omega (arith, length-pop_back e es)),
      )
  | inr fits ↦ ground (arith, newest-all m (e ∷ es))
]

evict_lem : (t : DynamicTable) → IsValid t → evict t ≡ ok (kept t)
unfolding evict
evict_lem t v =
    ap (λ (n : ℕ). evict_loop (suc (length t.entries)) (record t { size = n })) v.counted
    ∙ evict_loop_lem (suc (length t.entries)) t.max_size t.entries v.bounded (omega arith)

kept-IsValid : (t : DynamicTable) → IsValid t → IsValid (kept t)
kept-IsValid t v = record {
  counted = refl;
  bounded = omega (arith, v.bounded, total-newest t.max_size t.entries);
}

-- What an operation of the table promises: the newest entries of `es` that fit below `limit`.
pub record Holds (t : DynamicTable) (limit : ℕ) (es : List TableEntry) : Type 0 where
  pub valid : IsValid t
  pub limit_is : t.max_size ≡ limit
  pub fits : t.size ≤ limit
  pub holds : t.entries ≡ newest limit es

evict-Holds : (t : DynamicTable) → IsValid t → Holds (kept t) t.max_size t.entries
evict-Holds t v = record {
  valid = kept-IsValid t v;
  limit_is = refl;
  fits = (total-newest t.max_size t.entries).0;
  holds = refl;
}

-- Adding a field to a valid table succeeds, if the sizes together stay below 2^64. The table then holds the newest entries that fit, the
-- new one first; it is valid, its limit is what it was, and its size is within the limit.
pub add_lem :
    (t : DynamicTable) (e : TableEntry)
    → IsValid t
    → total t.entries + entry_size e < 2 ^ 64
    → (u : DynamicTable) × (add t e ≡ ok u) × Holds u t.max_size (e ∷ t.entries)
unfolding add
add_lem t e v h =
    let next : DynamicTable = record t {
      size = (t.size + entry_size e) % 2 ^ 64;
      entries = e ∷ t.entries;
    } in
    let next_valid : IsValid next = record {
      counted = omega (arith, v.counted);
      bounded = omega arith;
    } in
    (kept next, evict_lem next next_valid, evict-Holds next next_valid)

-- Changing the limit of a valid table succeeds, and keeps the newest entries that fit below it.
pub set_max_size_lem :
    (t : DynamicTable) (limit : ℕ)
    → IsValid t
    → (u : DynamicTable) × (set_max_size t limit ≡ ok u) × Holds u limit t.entries
unfolding set_max_size
set_max_size_lem t limit v =
    let next : DynamicTable = record t { max_size = limit } in
    let next_valid : IsValid next = record { counted = v.counted; bounded = v.bounded } in
    (kept next, evict_lem next next_valid, evict-Holds next next_valid)

pub clear-IsValid : (t : DynamicTable) → IsValid (clear t)
unfolding clear
clear-IsValid t = record { counted = refl; bounded = omega arith }

-- A field larger than the limit empties the table.
pub newest_too_big :
    (limit : ℕ) (e : TableEntry) (es : List TableEntry)
    → limit < entry_size e
    → newest limit (e ∷ es) ≡ []
unfolding newest
newest_too_big limit e es h = ground arith
