-- ===== src/Hpack/Parser.antt =====
-- src/xzero/http/hpack/Parser.cc: the decoder of header blocks, with Huffman.cc's decoder, which is
-- not implemented and always throws.
-- `emitted` is what the emitter has been called with. A throw ends the block; what had been emitted
-- and added before it is not part of the result, since the connection is given up.
pub mod Progress
use x.Base.{
  ℕ, zero, suc, ◌+◌, ◌-◌, Bool, true, false, not, List, [], ◌∷◌, ◌++◌, Bytes, length, take, drop,
  bit_and, ltb, ◌==◌, if◌then◌else◌, none, some, Outcome, ok, raise, ◌>>=◌, compression_error,
  not_implemented, undefined,
}
use x.Hpack.Table.{TableEntry, DynamicTable, add, set_max_size, at}
use x.Hpack.Static
use x.Hpack.Static.{static_length}
use x.Hpack.Integer.{decode_int}
use x.Base.{get_elem?}

pub record Field : Type 0 where
  pub name : Bytes
  pub value : Bytes
  pub sensitive : Bool

pub record Parser : Type 0 where
  pub max_size : ℕ
  pub table : DynamicTable
  pub emitted : List Field

unfoldable pub emit_sensitive : Parser → Bytes → Bytes → Bool → Parser
emit_sensitive p name value sensitive = record p {
  emitted = p.emitted ++ record { name = name; value = value; sensitive = sensitive } ∷ [];
}

-- `Huffman::decode`.
unfoldable pub huffman_decode : Bytes → Outcome Bytes
huffman_decode bytes = raise not_implemented

-- `decodeString`. At the end of the block it reads the byte there, which is outside.
unfoldable pub decode_string : Bytes → Outcome (Bytes × Bytes)
unfolding decode_int huffman_decode
decode_string [] = raise undefined
decode_string (octet ∷ src) = do
  (slen, rest) ← decode_int 7 (octet ∷ src)
  if ltb (length rest) slen
      then raise compression_error
      else if bit_and octet 128 == 0
      then ok (take slen rest, drop slen rest)
      else (do output ← huffman_decode (take slen rest); ok (output, drop slen rest))

-- What `at` refers to: a field of the static table, or of the dynamic table in a place.
pub data FieldRef : Type 0 where
  static_ref : TableEntry → FieldRef
  dynamic_ref : ℕ → TableEntry → FieldRef

abbrev pub referred : FieldRef → TableEntry
referred (static_ref e) = e
referred (dynamic_ref i e) = e

unfoldable pub field_at : DynamicTable → ℕ → Outcome FieldRef
unfolding at Static.entries
field_at t zero = raise compression_error
field_at t (suc i) = elim (get_elem? Static.entries i) [
  | some e ↦ ok (static_ref e)
  | none ↦ elim (at t (i - static_length)) [
    | some e ↦ ok (dynamic_ref (i - static_length) e)
    | none ↦ raise compression_error
  ]
]

unfoldable pub indexed_header_field : Parser → Bytes → Outcome (Parser × Bytes)
unfolding decode_int field_at emit_sensitive
indexed_header_field p src = do
  (index, rest) ← decode_int 7 src
  field ← field_at p.table index
  ok (emit_sensitive p (referred field).name (referred field).value false, rest)

-- The name that is emitted after `add`: a field that `add` evicted is gone, and to read it is undefined.
unfoldable pub still_there : FieldRef → DynamicTable → Bool
still_there (static_ref e) t = true
still_there (dynamic_ref i e) t = ltb (i + 1) (length t.entries)

-- `dynamicTable_->add(name, value)` and `emit(name, value)`, with the name in the table.
unfoldable pub add_referred : Parser → FieldRef → Bytes → Bytes → Outcome (Parser × Bytes)
unfolding add still_there emit_sensitive
add_referred p field value rest = do
  t ← add p.table (record { name = (referred field).name; value = value })
  if still_there field t
      then ok (emit_sensitive (record p { table = t }) (referred field).name value false, rest)
      else raise undefined

-- The same with a name of the block.
unfoldable pub add_literal : Parser → Bytes → Bytes → Bytes → Outcome (Parser × Bytes)
unfolding add emit_sensitive
add_literal p name value rest = do
  t ← add p.table (record { name = name; value = value })
  ok (emit_sensitive (record p { table = t }) name value false, rest)

unfoldable pub incremental_indexed_field : Parser → Bytes → Outcome (Parser × Bytes)
unfolding decode_int field_at decode_string add_referred add_literal
incremental_indexed_field p src = do
  (index, rest) ← decode_int 6 src
  if index == 0
      then (do
        (name, rest') ← decode_string rest
        (value, rest'') ← decode_string rest'
        add_literal p name value rest'')
      else (do
        field ← field_at p.table index
        (value, rest') ← decode_string rest
        add_referred p field value rest')

unfoldable pub update_table_size : Parser → Bytes → Outcome (Parser × Bytes)
unfolding decode_int set_max_size
update_table_size p src = do
  (new_max_size, rest) ← decode_int 5 src
  if ltb p.max_size new_max_size
      then raise compression_error
      else (do t ← set_max_size p.table new_max_size; ok (record p { table = t }, rest))

-- `literalHeaderNoIndex` and `literalHeaderNeverIndex`, which differ in the flag that they emit.
unfoldable pub literal_header : Bool → Parser → Bytes → Outcome (Parser × Bytes)
unfolding decode_int field_at decode_string emit_sensitive
literal_header sensitive p src = do
  (index, rest) ← decode_int 4 src
  if index == 0
      then (do
        (name, rest') ← decode_string rest
        (value, rest'') ← decode_string rest'
        ok (emit_sensitive p name value sensitive, rest''))
      else (do
        field ← field_at p.table index
        (value, rest') ← decode_string rest
        ok (emit_sensitive p (referred field).name value sensitive, rest'))

unfoldable pub literal_header_no_index : Parser → Bytes → Outcome (Parser × Bytes)
unfolding literal_header
literal_header_no_index = literal_header false

unfoldable pub literal_header_never_index : Parser → Bytes → Outcome (Parser × Bytes)
unfolding literal_header
literal_header_never_index = literal_header true

-- The choice by the first byte.
unfoldable pub parse_field : ℕ → Parser → Bytes → Outcome (Parser × Bytes)
unfolding indexed_header_field incremental_indexed_field update_table_size literal_header_no_index
    literal_header_never_index
parse_field octet p src =
    if not (bit_and octet 128 == 0)
    then indexed_header_field p src
    else if not (bit_and octet 64 == 0)
    then incremental_indexed_field p src
    else if not (bit_and octet 32 == 0)
    then update_table_size p src
    else if not (bit_and octet 16 == 0)
    then literal_header_never_index p src
    else literal_header_no_index p src

-- `while (pos != end)`. A field takes a byte at least, so the length bounds the rounds.
unfoldable pub parse_fields : ℕ → Parser → Bytes → Outcome Parser
unfolding parse_field
parse_fields fuel p [] = ok p
parse_fields zero p (octet ∷ src) = raise undefined
parse_fields (suc fuel) p (octet ∷ src) = do
  (q, rest) ← parse_field octet p (octet ∷ src)
  parse_fields fuel q rest

unfoldable pub parse : Parser → Bytes → Outcome Parser
unfolding parse_fields
parse p block = parse_fields (length block) p block
