-- ===== src/Hpack/RoundTrip/Header.antt =====
-- `generateHeader` as a whole, for a name that the dynamic table does not have, and what goes wrong
-- for one that it has.
use mathlib.Core.Path.{subst}
use x.Base.{
  ℕ, suc, ◌+◌, ◌-◌, ◌^◌, ◌<◌, ◌≤◌, ◌≡◌, refl, ap, ◌∙◌, arith, Bool, true, false, ◌&&◌, length, map,
  ltb, Option, none, some, ok, ◌>>=◌, get_elem?, get_elem?-beyond,
}
use x.Hpack.Table.{TableEntry, DynamicTable, entry_size, find, at}
use x.Hpack.Table.Eviction.{IsValid, total}
use x.Hpack.Static.{entries, static_length, static_find}
use x.Hpack.Static.Lookup.{Answer, absent, exact, name_only, static_find_total}
use x.Hpack.Parser.{Field, field_at, dynamic_ref}
use x.Hpack.Generator.{
  encode_header_indexed, Generator, to_lower, generate_header, generate_found, generate_dynamic,
}
use x.Hpack.RoundTrip.Headers.{Short}
use x.Hpack.RoundTrip.Field.{
  Sends, encode_header_literal-Sends, encode_header_indexed-Sends, encode_name_indexed-Sends,
}

-- The field that the tables are searched for.
abbrev pub lowered : Field → TableEntry
lowered f = record { name = map to_lower f.name; value = f.value }

-- Whether a field is still marked sensitive when it arrives, by what the static table answered.
abbrev pub arrives_sensitive : Option (ℕ × Bool) → Bool → Bool
arrives_sensitive none sensitive = sensitive
arrives_sensitive (some (i, true)) sensitive = false
arrives_sensitive (some (i, false)) sensitive = sensitive && ltb (i + 1) 15

entry_path : {x e : TableEntry} → x.name ≡ e.name → x.value ≡ e.value → x ≡ e
entry_path n v = λ i. record { name = n i; value = v i }

module _ (g : Generator) (e : TableEntry) (valid : IsValid g.table) (short : Short e)
    (room : total g.table.entries + entry_size e < 2 ^ 64)
    (absent_there : find g.table e ≡ none) where
  generate_found-Sends :
      (sensitive : Bool) (o : Option (ℕ × Bool))
      → Answer e false o
      → (g' : Generator) × (generate_found g e sensitive o ≡ ok g')
        × Sends g g' e (arrives_sensitive o sensitive)
  unfolding generate_found generate_dynamic
  generate_found-Sends sensitive none absent =
      rw absent_there (encode_header_literal-Sends g e valid short room sensitive)
  generate_found-Sends sensitive (some (i, true)) (exact j f) =
      subst
        (λ x.
          (g' : Generator) × (encode_header_indexed g (i + 1) true e sensitive ≡ ok g')
          × Sends g g' x false)
        (entry_path f.same_name (f.same_value refl))
        (encode_header_indexed-Sends g i f.field f.field_at valid e sensitive)
  generate_found-Sends sensitive (some (i, false)) (name_only j f) =
      subst
        (λ d.
          (g' : Generator) × (encode_header_indexed g (i + 1) false d sensitive ≡ ok g')
          × Sends g g' d (sensitive && ltb (i + 1) 15))
        (entry_path {x = record { name = f.field.name; value = e.value }} {e = e} f.same_name refl)
        (encode_name_indexed-Sends g i f.field f.field_at valid e.value short.1
          (omega (arith, room, ap length f.same_name)) sensitive)

-- A header field goes through encoder and decoder, if its strings are shorter than 2^31, the sizes
-- of the table and the field together stay below 2^64, the tables
-- at both ends are equal and valid, the dynamic one does not have its name, and the flag that the
-- encoder leaves unset was false. The encoder succeeds and appends bytes; from these the decoder
-- emits the name in lower case and the value as they were, and both ends have equal, valid tables.
-- It is marked sensitive by `arrives_sensitive`: not if the static table has the whole field, nor if
-- it has the name in its place 15 or later.
pub generate_header-Sends :
    (g : Generator) (f : Field)
    → IsValid g.table
    → Short (lowered f)
    → total g.table.entries + entry_size (lowered f) < 2 ^ 64
    → find g.table (lowered f) ≡ none
    → (o : Option (ℕ × Bool)) × (static_find (lowered f) false ≡ ok o)
      × (g' : Generator) × (generate_header false g f ≡ ok g')
      × Sends g g' (lowered f) (arrives_sensitive o f.sensitive)
unfolding generate_header
generate_header-Sends g f valid short room absent_there =
    let (o, found, a) = static_find_total (lowered f) false in
    let (g', made, sends) =
      generate_found-Sends g (lowered f) valid short room absent_there f.sensitive o a in
    (o, found, g', ap (λ r. r >>= generate_found g (lowered f) f.sensitive) found ∙ made, sends)

Answer-field :
    {e : TableEntry} {flag : Bool} {o : Option (ℕ × Bool)} {i : ℕ} {matches : Bool}
    → Answer e flag o
    → o ≡ some (i, matches)
    → (x : TableEntry) × (get_elem? entries i ≡ some x)
Answer-field absent h = cc
Answer-field (exact j f) h = (f.field, cc f.field_at)
Answer-field (name_only j f) h = (f.field, cc f.field_at)

at_end : (i : ℕ) → length entries ≤ i + static_length
unfolding entries
at_end i = omega arith

-- If the flag that the encoder leaves unset was true instead, and the static table has the name of a
-- field but not its value, then, whatever the dynamic table (valid) has, the field goes out as that
-- table's field: the decoder emits the table's value, not the one that was sent.
pub generate_header_unset_flag :
    (g : Generator) (f : Field) (i : ℕ)
    → IsValid g.table
    → static_find (lowered f) false ≡ ok (some (i, false))
    → static_find (lowered f) true ≡ ok (some (i, true))
    → (x : TableEntry) × (get_elem? entries i ≡ some x)
      × (g' : Generator) × (generate_header true g f ≡ ok g')
      × Sends g g' x false
unfolding generate_header generate_found
generate_header_unset_flag g f i valid off on =
    let (o, found, a) = static_find_total (lowered f) false in
    let same : o ≡ some (i, false) = cc in
    let (x, at_x) = Answer-field a same in
    let (g', made, sends) = encode_header_indexed-Sends g i x at_x valid (lowered f) f.sensitive in
    (x, at_x, g', ap (λ r. r >>= generate_found g (lowered f) f.sensitive) on ∙ made, sends)

-- An index that the encoder writes for place `i + 1` of the dynamic table is read as place `i`.
pub field_at_dynamic :
    (t : DynamicTable) (i : ℕ) (e : TableEntry)
    → at t i ≡ some e
    → field_at t (suc i + static_length) ≡ ok (dynamic_ref i e)
unfolding field_at
field_at_dynamic t i e h =
    let place : suc i + static_length ≡ suc (i + static_length) = omega arith in
    let back : i + static_length - static_length ≡ i = omega arith in
    rw place (
      rw (get_elem?-beyond entries (i + static_length) (at_end i), field_at)
        (rw back (rw h (rw back))))
