-- ===== src/Tests/Headers.antt =====
-- Runs of the header tables, the encoder and the decoder at concrete fields.
use x.Base.{
  ℕ, ◌≡◌, ◌≢◌, ◌⊎◌, refl, arith, Bool, true, false, [], ◌∷◌, ◌++◌, codes, Option, none, some, ok,
}
use x.Hpack.Table.{TableEntry, DynamicTable, add, set_max_size, find, at, equal}
use x.Hpack.Table.Eviction.{IsValid, Holds, add_lem, set_max_size_lem}
use x.Hpack.Table.Lookup.{IsFirst, find_lem}
use x.Hpack.Static.{static_find}
use x.Hpack.Integer.{encode_int, decode_int}
use x.Hpack.Integer.RoundTrip.{decode-encode_int}
use x.Hpack.Parser.{Field, parse_fields, parse}
use x.Hpack.Parser.Progress.{parse-rounds}
use x.Hpack.Generator.{Generator, generate_header}
use x.Hpack.RoundTrip.Field.{Sends}
use x.Hpack.RoundTrip.Header.{lowered, arrives_sensitive, generate_header-Sends}

abbrev first : TableEntry
first = record { name = codes "x-one"; value = codes "1" }

abbrev second : TableEntry
second = record { name = codes "x-two"; value = codes "22" }

-- Room for one of the two fields.
abbrev one_entry : DynamicTable
one_entry = record { max_size = 64; size = 38; entries = first ∷ [] }

one_entry-IsValid : IsValid one_entry
one_entry-IsValid = record { counted = refl; bounded = omega arith }

add_lem_example :
    (u : DynamicTable) × (add one_entry second ≡ ok u) × Holds u 64 (second ∷ first ∷ [])
add_lem_example = add_lem one_entry second one_entry-IsValid (omega arith)

set_max_size_lem_example :
    (u : DynamicTable) × (set_max_size one_entry 37 ≡ ok u) × Holds u 37 (first ∷ [])
set_max_size_lem_example = set_max_size_lem one_entry 37 one_entry-IsValid

find_lem_example :
    ((i : ℕ) × (matches : Bool) × (find one_entry second ≡ some (i, matches))
      × IsFirst (first ∷ []) second i matches)
    ⊎ ((find one_entry second ≡ none)
        × ((k : ℕ) (x : TableEntry) → at one_entry k ≡ some x → x.name ≢ second.name))
find_lem_example = find_lem one_entry second

abbrev post : TableEntry
post = record { name = codes ":method"; value = codes "POST" }

decode-encode_int_example : decode_int 5 (encode_int 1 5 1337 ++ (7 ∷ [])) ≡ ok (1337, 7 ∷ [])
decode-encode_int_example =
    decode-encode_int 1 5 1337 (7 ∷ []) (omega arith) (omega arith) (omega arith)

abbrev encoder : Generator
encoder = record { table = one_entry; header_block = [] }

abbrev header : Field
header = record { name = codes "X-Two"; value = codes "22"; sensitive = true }

header-absent : find one_entry (lowered header) ≡ none
unfolding find equal
header-absent = refl

generate_header-Sends_example :
    (o : Option (ℕ × Bool)) × (static_find (lowered header) false ≡ ok o)
    × (g : Generator) × (generate_header false encoder header ≡ ok g)
    × Sends encoder g (lowered header) (arrives_sensitive o true)
generate_header-Sends_example =
    generate_header-Sends encoder header one_entry-IsValid (omega arith, omega arith) (omega arith)
      header-absent

abbrev method : Field
method = record { name = codes ":method"; value = codes "PUT"; sensitive = false }

-- Two fields of the static table, `:method: GET` and `:path: /`.
parse-rounds_example :
    parse_fields 9 (record { max_size = 4096; table = one_entry; emitted = [] }) (130 ∷ 132 ∷ [])
    ≡ parse (record { max_size = 4096; table = one_entry; emitted = [] }) (130 ∷ 132 ∷ [])
parse-rounds_example =
    parse-rounds (record { max_size = 4096; table = one_entry; emitted = [] }) (130 ∷ 132 ∷ []) 7
