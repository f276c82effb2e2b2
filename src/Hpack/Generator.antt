-- ===== src/Hpack/Generator.antt =====
-- src/xzero/http/hpack/Generator.cc: the encoder of header blocks. Strings are never compressed:
-- every call of `encodeString` leaves that argument at its default.
-- `generate_header` takes one more argument, `flag`: what the local variable `nameValueMatch` holds
-- before the tables are searched. The source does not initialise it.
use x.Base.{
  ℕ, ◌+◌, Bool, ◌&&◌, List, [], ◌∷◌, ◌++◌, Bytes, map, length, ltb, leb, if◌then◌else◌, Option,
  none, some, Outcome, ok, ◌>>=◌,
}
use x.Hpack.Table.{TableEntry, DynamicTable, add, set_max_size, clear, find, entry_size}
use x.Hpack.Static.{static_find, static_length}
use x.Hpack.Integer.{encode_int}
use x.Hpack.Parser.{Field}

pub record Generator : Type 0 where
  pub table : DynamicTable
  pub header_block : Bytes

abbrev pub write : Generator → Bytes → Generator
write g bytes = record g { header_block = g.header_block ++ bytes }

unfoldable pub write_int : Generator → ℕ → ℕ → ℕ → Generator
write_int g suffix prefix_bits value = write g (encode_int suffix prefix_bits value)

unfoldable pub encode_string : Generator → Bytes → Generator
unfolding write_int
encode_string g value = write (write_int g 0 7 (length value)) value

-- `Generator::setMaxSize`, `clear` and `reset`.
unfoldable pub change_max_size : Generator → ℕ → Outcome Generator
unfolding set_max_size write_int
change_max_size g max_size = do
  t ← set_max_size g.table max_size
  ok (write_int (record g { table = t }) 1 5 max_size)

unfoldable pub clear_block : Generator → Generator
clear_block g = record g { header_block = [] }

unfoldable pub reset : Generator → Generator
unfolding clear write_int
reset g =
    let empty : Generator = record { table = clear g.table; header_block = [] } in
    write_int (write_int empty 1 5 0) 1 5 g.table.max_size

-- What both encoders do with the bytes in front of the value, by where the field may be kept.
unfoldable pub encode_header_indexed : Generator → ℕ → Bool → TableEntry → Bool → Outcome Generator
unfolding add write_int encode_string
encode_header_indexed g index name_value_match e sensitive =
    if name_value_match
    then ok (write_int g 1 7 index)
    else if sensitive
    then ok (encode_string (write_int g 1 4 index) e.value)
    else if ltb (entry_size e) g.table.max_size
    then (do
      t ← add g.table e
      ok (encode_string (write_int (record g { table = t }) 1 6 index) e.value))
    else ok (encode_string (write_int g 0 4 index) e.value)

unfoldable pub encode_header_literal : Generator → TableEntry → Bool → Outcome Generator
unfolding add encode_string
encode_header_literal g e sensitive =
    if sensitive
    then ok (encode_string (encode_string (write g (16 ∷ [])) e.name) e.value)
    else if ltb (entry_size e) g.table.max_size
    then (do
      t ← add g.table e
      ok (encode_string (encode_string (write (record g { table = t }) (64 ∷ [])) e.name) e.value))
    else ok (encode_string (encode_string (write g (0 ∷ [])) e.name) e.value)

-- `std::tolower` in the C locale.
abbrev pub to_lower : ℕ → ℕ
to_lower c = if leb b'A' c && leb c b'Z' then c + 32 else c

-- The search of the dynamic table, where the static one has not found the name. The index that is
-- encoded is the place in the table and the length of the static table, without the 1 that places
-- of the static table get.
unfoldable pub generate_dynamic :
    Generator → TableEntry → Bool → Option (ℕ × Bool) → Outcome Generator
unfolding encode_header_indexed encode_header_literal
generate_dynamic g e sensitive none = encode_header_literal g e sensitive
generate_dynamic g e sensitive (some (index, matches)) =
    encode_header_indexed g (index + static_length) matches e sensitive

unfoldable pub generate_found :
    Generator → TableEntry → Bool → Option (ℕ × Bool) → Outcome Generator
unfolding generate_dynamic find encode_header_indexed
generate_found g e sensitive none = generate_dynamic g e sensitive (find g.table e)
generate_found g e sensitive (some (index, matches)) =
    encode_header_indexed g (index + 1) matches e sensitive

unfoldable pub generate_header : Bool → Generator → Field → Outcome Generator
unfolding static_find generate_found
generate_header flag g field =
    let e : TableEntry = record { name = map to_lower field.name; value = field.value } in
    do found ← static_find e flag; generate_found g e field.sensitive found

-- `generateHeaders`; the flags are those of the calls.
unfoldable pub generate_headers : List (Bool × Field) → Generator → Outcome Generator
unfolding generate_header
generate_headers [] g = ok g
generate_headers ((flag, field) ∷ fields) g = do
  h ← generate_header flag g field
  generate_headers fields h
