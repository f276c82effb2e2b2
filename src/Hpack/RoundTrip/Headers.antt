-- ===== src/Hpack/RoundTrip/Headers.antt =====
-- Each representation that the encoder writes, and what the decoder emits for it.
use x.Base.{
  ℕ, zero, suc, ◌+◌, ◌*◌, ◌^◌, ◌<◌, ◌≡◌, ◌∙◌, arith, Bool, true, false, ◌∷◌, ◌++◌, append_assoc,
  Bytes, length, ◌==◌, some, Outcome, ok, get_elem?,
}
use x.Hpack.Table.{TableEntry, DynamicTable, add}
use x.Hpack.Static.{entries}
use x.Hpack.Integer.{encode_int, decode_int}
use x.Hpack.Integer.RoundTrip.{decode-encode_int}
use x.Hpack.Parser.{
  Parser, parse_field, emit_sensitive, literal_header, literal_header_never_index,
  literal_header_no_index, incremental_indexed_field, indexed_header_field, add_literal,
  add_referred, still_there,
}
use x.Hpack.RoundTrip.Pieces.{
  encode_int_byte, string_bytes, decode_string_lem, field_at_static, entries-bound,
}
use x.Hpack.RoundTrip.Dispatch.{
  parse_field_indexed, parse_field_incremental, parse_field_never, parse_field_no_index,
}

-- What the decoder emits for a field, and the table that it then has.
abbrev pub emits : Parser → DynamicTable → TableEntry → Bool → Bytes → Outcome (Parser × Bytes)
emits p t e sensitive rest =
    ok (emit_sensitive (record p { table = t }) e.name e.value sensitive, rest)

-- The two strings of a literal with a new name, behind its first byte.
abbrev pub literal_bytes : TableEntry → Bytes
literal_bytes e = string_bytes e.name ++ string_bytes e.value

abbrev pub Short : TableEntry → Type 0
Short e = (length e.name < 2 ^ 31) × (length e.value < 2 ^ 31)

module _ (p : Parser) (e : TableEntry) (short : Short e) (rest : Bytes) where
  pub read_never : parse_field 16 p (16 ∷ (literal_bytes e ++ rest)) ≡ emits p p.table e true rest
  unfolding literal_header_never_index literal_header
  read_never =
      rw (parse_field_never 16 p (16 ∷ (literal_bytes e ++ rest)) (omega arith) (omega arith)) (
        rw (
          append_assoc (string_bytes e.name) (string_bytes e.value) rest,
          decode_string_lem e.name (string_bytes e.value ++ rest) short.0,
          decode_string_lem e.value rest short.1,
        ))

  pub read_no_index : parse_field 0 p (0 ∷ (literal_bytes e ++ rest)) ≡ emits p p.table e false rest
  unfolding literal_header_no_index literal_header
  read_no_index = rw (parse_field_no_index 0 p (0 ∷ (literal_bytes e ++ rest)) (omega arith)) (
      rw (
        append_assoc (string_bytes e.name) (string_bytes e.value) rest,
        decode_string_lem e.name (string_bytes e.value ++ rest) short.0,
        decode_string_lem e.value rest short.1,
      ))

  pub read_incremental :
      {t : DynamicTable}
      → add p.table e ≡ ok t
      → parse_field 64 p (64 ∷ (literal_bytes e ++ rest)) ≡ emits p t e false rest
  unfolding incremental_indexed_field add_literal
  read_incremental h =
      rw (parse_field_incremental 64 p (64 ∷ (literal_bytes e ++ rest)) (omega arith) (omega arith))
        (rw
          (
            append_assoc (string_bytes e.name) (string_bytes e.value) rest,
            decode_string_lem e.name (string_bytes e.value ++ rest) short.0,
            decode_string_lem e.value rest short.1,
          )
          (rw h))

nonzero : (i : ℕ) → (i + 1 == 0) ≡ false
nonzero i = ground arith

-- A field that starts with the index of a field of the static table.
module _ (p : Parser) (i : ℕ) (x : TableEntry) (is_x : get_elem? entries i ≡ some x)
    (rest : Bytes) where
  pub read_indexed :
      parse_field (128 + (i + 1)) p ((128 + (i + 1)) ∷ rest) ≡ emits p p.table x false rest
  unfolding indexed_header_field
  read_indexed =
      let bound = entries-bound i is_x in
      let index : decode_int 7 ((128 + (i + 1)) ∷ rest) ≡ ok (i + 1, rest) =
        rw (encode_int_byte 1 7 (i + 1) (omega arith) (omega arith)) at
          (decode-encode_int 1 7 (i + 1) rest (omega arith) (omega arith) (omega arith)) in
      rw
        (parse_field_indexed (128 + (i + 1)) p ((128 + (i + 1)) ∷ rest) (omega arith) (omega arith))
        (rw index (rw (field_at_static p.table i x is_x)))

-- A literal with a name of the static table, behind its first byte.
module _ (p : Parser) (i : ℕ) (x : TableEntry) (is_x : get_elem? entries i ≡ some x)
    (value rest : Bytes) (hv : length value < 2 ^ 31) where
  abbrev pub named : TableEntry
  named = record { name = x.name; value = value }

  read_literal_header :
      (suffix : ℕ) (sensitive : Bool)
      → literal_header sensitive p (encode_int suffix 4 (i + 1) ++ (string_bytes value ++ rest))
        ≡ emits p p.table named sensitive rest
  unfolding literal_header
  read_literal_header suffix sensitive =
      let bound = entries-bound i is_x in
      rw
        (decode-encode_int suffix 4 (i + 1) (string_bytes value ++ rest) (omega arith) (omega arith)
          (omega arith))
        (rw (nonzero i, field_at_static p.table i x is_x) (rw (decode_string_lem value rest hv)))

  pub read_name_short :
      (suffix : ℕ)
      → suffix < 2
      → i + 1 < 15
      → parse_field
          (suffix * 2 ^ 4 + (i + 1))
          p
          (encode_int suffix 4 (i + 1) ++ (string_bytes value ++ rest))
        ≡ emits p p.table named (suffix == 1) rest
  unfolding literal_header_never_index literal_header_no_index
  read_name_short zero hs small =
      parse_field_no_index (0 * 2 ^ 4 + (i + 1)) p _ (omega arith) ∙ read_literal_header 0 false
  read_name_short (suc zero) hs small =
      parse_field_never (1 * 2 ^ 4 + (i + 1)) p _ (omega arith) (omega arith)
      ∙ read_literal_header 1 true
  read_name_short (suc (suc s)) hs small = absurd (omega arith)

  pub read_name_long :
      (suffix : ℕ)
      → parse_field 15 p (encode_int suffix 4 (i + 1) ++ (string_bytes value ++ rest))
        ≡ emits p p.table named false rest
  unfolding literal_header_no_index
  read_name_long suffix =
      parse_field_no_index 15 p _ (omega arith) ∙ read_literal_header suffix false

  pub read_name_incremental :
      {t : DynamicTable}
      → add p.table named ≡ ok t
      → parse_field (64 + (i + 1)) p ((64 + (i + 1)) ∷ (string_bytes value ++ rest))
        ≡ emits p t named false rest
  unfolding incremental_indexed_field add_referred still_there
  read_name_incremental h =
      let bound = entries-bound i is_x in
      let index : decode_int 6 ((64 + (i + 1)) ∷ (string_bytes value ++ rest))
          ≡ ok (i + 1, string_bytes value ++ rest) =
        rw (encode_int_byte 1 6 (i + 1) (omega arith) (omega arith)) at (
          decode-encode_int 1 6 (i + 1) (string_bytes value ++ rest) (omega arith) (omega arith)
            (omega arith)) in
      rw (parse_field_incremental (64 + (i + 1)) p _ (omega arith) (omega arith)) (
        rw index (
          rw (nonzero i, field_at_static p.table i x is_x)
            (rw (decode_string_lem value rest hv) (rw h))))
