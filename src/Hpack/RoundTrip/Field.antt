-- ===== src/Hpack/RoundTrip/Field.antt =====
-- A header field through the encoder and the decoder, with equal tables at both ends.
use x.Base.{
  ℕ, suc, ◌+◌, ◌*◌, ◌^◌, ◌<◌, ◌≡◌, refl, ap, ◌∙◌, arith, Bool, true, false, ◌&&◌, List, [], ◌∷◌,
  ◌++◌, append_assoc, Bytes, length, ltb, ltb→lt, ltb-false→ge, ◌==◌, some, ok, Bool-cases, inl,
  inr, get_elem?,
}
use x.Hpack.Table.{TableEntry, DynamicTable, entry_size}
use x.Hpack.Table.Eviction.{IsValid, total, add_lem}
use x.Hpack.Static.{entries}
use x.Hpack.Integer.{encode_int}
use x.Hpack.Integer.RoundTrip.{encode_int_large}
use x.Hpack.Parser.{Field, Parser, emit_sensitive, parse_field, parse_fields}
use x.Hpack.Generator.{
  Generator, write, write_int, encode_string, encode_header_indexed, encode_header_literal,
}
use x.Hpack.RoundTrip.Pieces.{encode_int_byte, string_bytes, entries-bound}
use x.Hpack.RoundTrip.Headers.{
  literal_bytes, Short, read_never, read_no_index, read_incremental, read_indexed, read_name_short,
  read_name_long, read_name_incremental,
}

-- A decoder whose table is the encoder's, with any limit and any fields emitted before.
abbrev pub peer : ℕ → List Field → DynamicTable → Parser
peer limit out t = record { max_size = limit; table = t; emitted = out }

-- From `bytes` the decoder emits one field and has the table `t'`; then it goes on with the rest.
abbrev pub Decodes : DynamicTable → Bytes → TableEntry → Bool → DynamicTable → Type 0
Decodes t bytes e sensitive t' =
    (limit : ℕ) (out : List Field) (fuel : ℕ) (rest : Bytes)
    → parse_fields (suc fuel) (peer limit out t) (bytes ++ rest)
      ≡ parse_fields fuel (emit_sensitive (peer limit out t') e.name e.value sensitive) rest

-- The encoder has appended bytes from which the decoder takes this field, and the tables agree.
pub record Sends (g g' : Generator) (e : TableEntry) (sensitive : Bool) : Type 0 where
  pub bytes : Bytes
  pub appended : g'.header_block ≡ g.header_block ++ bytes
  pub decodes : Decodes g.table bytes e sensitive g'.table
  pub valid : IsValid g'.table

parse_fields_step :
    (octet fuel : ℕ) (p : Parser) (src : Bytes) {q : Parser} {rest : Bytes}
    → parse_field octet p (octet ∷ src) ≡ ok (q, rest)
    → parse_fields (suc fuel) p (octet ∷ src) ≡ parse_fields fuel q rest
unfolding parse_fields
parse_fields_step octet fuel p src h = rw h

and-true : (b : Bool) → (b && true) ≡ b
and-true true = refl
and-true false = refl

and-false : (b : Bool) → (b && false) ≡ false
and-false true = refl
and-false false = refl

-- The encoder after a literal with a new name, and after an index and a value.
abbrev with_literal : Generator → DynamicTable → ℕ → TableEntry → Generator
with_literal g t octet e =
    encode_string (encode_string (write (record g { table = t }) (octet ∷ [])) e.name) e.value

abbrev with_index : Generator → DynamicTable → ℕ → ℕ → ℕ → Bytes → Generator
with_index g t suffix prefix_bits index value =
    encode_string (write_int (record g { table = t }) suffix prefix_bits index) value

with_literal_appended :
    (g : Generator) (t : DynamicTable) (octet : ℕ) (e : TableEntry)
    → (with_literal g t octet e).header_block ≡ g.header_block ++ (octet ∷ literal_bytes e)
unfolding encode_string write_int
with_literal_appended g t octet e = simp append_assoc

with_index_appended :
    (g : Generator) (t : DynamicTable) (suffix prefix_bits index : ℕ) (value : Bytes)
    → (with_index g t suffix prefix_bits index value).header_block
      ≡ g.header_block ++ (encode_int suffix prefix_bits index ++ string_bytes value)
unfolding encode_string write_int
with_index_appended g t suffix prefix_bits index value = simp append_assoc

table_kept :
    (g : Generator) (t : DynamicTable) (octet suffix prefix_bits index : ℕ) (e : TableEntry)
    → ((with_literal g t octet e).table ≡ t)
      × ((with_index g t suffix prefix_bits index e.value).table ≡ t)
unfolding encode_string write_int
table_kept g t octet suffix prefix_bits index e = (refl, refl)

module _ (g : Generator) (e : TableEntry) (valid : IsValid g.table) (short : Short e)
    (room : total g.table.entries + entry_size e < 2 ^ 64) where
  -- A field that no table has goes out as a literal, and arrives as it was, sensitive or not.
  pub encode_header_literal-Sends :
      (sensitive : Bool)
      → (g' : Generator) × (encode_header_literal g e sensitive ≡ ok g') × Sends g g' e sensitive
  unfolding encode_header_literal encode_string write_int
  encode_header_literal-Sends true = (
    with_literal g g.table 16 e,
    refl,
    record {
      bytes = 16 ∷ literal_bytes e;
      appended = with_literal_appended g g.table 16 e;
      decodes = λ limit out fuel rest.
          parse_fields_step 16 fuel _ _ (read_never (peer limit out g.table) e short rest);
      valid = valid;
    },
  )
  encode_header_literal-Sends false = elim (Bool-cases (ltb (entry_size e) g.table.max_size)) [
    | inl fits ↦
        let (t, added, holds) = add_lem g.table e valid room in
        (
          with_literal g t 64 e,
          rw (fits, added),
          record {
            bytes = 64 ∷ literal_bytes e;
            appended = with_literal_appended g t 64 e;
            decodes = λ limit out fuel rest.
                parse_fields_step 64 fuel _ _
                  (read_incremental (peer limit out g.table) e short rest added);
            valid = holds.valid;
          },
        )
    | inr too_big ↦ (
      with_literal g g.table 0 e,
      rw too_big,
      record {
        bytes = 0 ∷ literal_bytes e;
        appended = with_literal_appended g g.table 0 e;
        decodes = λ limit out fuel rest.
            parse_fields_step 0 fuel _ _ (read_no_index (peer limit out g.table) e short rest);
        valid = valid;
      },
    )
  ]

module _ (g : Generator) (i : ℕ) (x : TableEntry) (is_x : get_elem? entries i ≡ some x)
    (valid : IsValid g.table) where
  -- A field of the static table goes out as its index, and arrives as that field, never sensitive.
  pub encode_header_indexed-Sends :
      (e : TableEntry) (sensitive : Bool)
      → (g' : Generator) × (encode_header_indexed g (i + 1) true e sensitive ≡ ok g')
        × Sends g g' x false
  unfolding encode_header_indexed write_int
  encode_header_indexed-Sends e sensitive =
      let bound = entries-bound i is_x in
      let byte : encode_int 1 7 (i + 1) ≡ (128 + (i + 1)) ∷ [] =
        encode_int_byte 1 7 (i + 1) (omega arith) (omega arith) in
      (
        write_int g 1 7 (i + 1),
        refl,
        record {
          bytes = (128 + (i + 1)) ∷ [];
          appended = ap (◌++◌ g.header_block) byte;
          decodes = λ limit out fuel rest.
              parse_fields_step (128 + (i + 1)) fuel _ _
                (read_indexed (peer limit out g.table) i x is_x rest);
          valid = valid;
        },
      )

  -- A field whose name alone is in the static table goes out as an index and a value, and arrives
  -- as it was, but sensitive only if it was sent so and its name is among the first fourteen.
  module _ (value : Bytes) (hv : length value < 2 ^ 31)
      (room : total g.table.entries + entry_size (record { name = x.name; value = value })
        < 2 ^ 64) where
    abbrev field : TableEntry
    field = record { name = x.name; value = value }

    Decodes-literal :
        (suffix : ℕ)
        → suffix < 2
        → Decodes g.table
            (encode_int suffix 4 (i + 1) ++ string_bytes value)
            field
            (suffix == 1 && ltb (i + 1) 15)
            g.table
    Decodes-literal suffix hs limit out fuel rest =
        rw (append_assoc (encode_int suffix 4 (i + 1)) (string_bytes value) rest)
          (elim (Bool-cases (ltb (i + 1) 15)) [
            | inl small ↦
                let byte =
                  encode_int_byte suffix 4 (i + 1) (ltb→lt _ _ small)
                    (omega (arith, ltb→lt _ _ small)) in
                rw (small, and-true)
                  (rw byte (
                    parse_fields_step (suffix * 2 ^ 4 + (i + 1)) fuel _ _ (
                      rw byte at (
                        read_name_short (peer limit out g.table) i x is_x value rest hv suffix hs
                          (ltb→lt _ _ small)))))
            | inr large ↦
                let bytes =
                  encode_int_large suffix 4 (i + 1) (ltb-false→ge _ _ large)
                    (omega (arith, entries-bound i is_x)) in
                rw (large, and-false)
                  (rw bytes (
                    parse_fields_step 15 fuel _ _ (
                      rw bytes at
                        (read_name_long (peer limit out g.table) i x is_x value rest hv suffix))))
          ])

    pub encode_name_indexed-Sends :
        (sensitive : Bool)
        → (g' : Generator) × (encode_header_indexed g (i + 1) false field sensitive ≡ ok g')
          × Sends g g' field (sensitive && ltb (i + 1) 15)
    unfolding encode_header_indexed encode_string write_int
    encode_name_indexed-Sends true = (
      with_index g g.table 1 4 (i + 1) value,
      refl,
      record {
        bytes = encode_int 1 4 (i + 1) ++ string_bytes value;
        appended = with_index_appended g g.table 1 4 (i + 1) value;
        decodes = Decodes-literal 1 (omega arith);
        valid = valid;
      },
    )
    encode_name_indexed-Sends false = elim (Bool-cases (ltb (entry_size field) g.table.max_size)) [
      | inl fits ↦
          let bound = entries-bound i is_x in
          let (t, added, holds) = add_lem g.table field valid room in
          let byte : encode_int 1 6 (i + 1) ≡ (64 + (i + 1)) ∷ [] =
            encode_int_byte 1 6 (i + 1) (omega arith) (omega arith) in
          (
            with_index g t 1 6 (i + 1) value,
            rw (fits, added),
            record {
              bytes = (64 + (i + 1)) ∷ string_bytes value;
              appended =
                  with_index_appended g t 1 6 (i + 1) value
                  ∙ ap (λ (b : Bytes). g.header_block ++ (b ++ string_bytes value)) byte;
              decodes = λ limit out fuel rest.
                  parse_fields_step (64 + (i + 1)) fuel _ _
                    (read_name_incremental (peer limit out g.table) i x is_x value rest hv added);
              valid = holds.valid;
            },
          )
      | inr too_big ↦ (
        with_index g g.table 0 4 (i + 1) value,
        rw too_big,
        record {
          bytes = encode_int 0 4 (i + 1) ++ string_bytes value;
          appended = with_index_appended g g.table 0 4 (i + 1) value;
          decodes = Decodes-literal 0 (omega arith);
          valid = valid;
        },
      )
    ]
