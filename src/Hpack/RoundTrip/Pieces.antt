-- ===== src/Hpack/RoundTrip/Pieces.antt =====
-- Strings, references to the static table, and the first bytes that the encoder writes.
use native.Mathlib.Numerals.{add-one}
use x.Base.{
  ℕ, ◌+◌, ◌-◌, ◌*◌, ◌^◌, ◌%◌, ◌<◌, ◌≡◌, ap, ◌∙◌, arith, [], ◌∷◌, ◌++◌, append_assoc, Bytes, length,
  length-append, take-length-append, drop-length-append, ltb, ltb-ge, ltb→lt, ltb-false→ge, some,
  ok, Bool-cases, inl, inr, bit_and, bit_or, get_elem?, get_elem?-bound,
}
use x.Base.Bits.{bit_and_top, high-bit_or}
use x.Wire.VarUInt.{groups}
use x.Hpack.Table.{TableEntry, DynamicTable}
use x.Hpack.Static.{entries, static_length}
use x.Hpack.Integer.{encode_int, decode_int}
use x.Hpack.Integer.RoundTrip.{encode_int_large, encode_int_small, decode-encode_int}
use x.Hpack.Parser.{decode_string, static_ref, field_at}

-- The byte of a short integer: the bits above the prefix, and the value.
pub encode_int_byte :
    (suffix n value : ℕ)
    → value < 2 ^ n - 1
    → suffix * 2 ^ n + value < 256
    → encode_int suffix n value ≡ (suffix * 2 ^ n + value) ∷ []
encode_int_byte suffix n value small fits =
    encode_int_small suffix n value small ∙ ap (λ (b : ℕ). b ∷ []) byte
  where
    byte : bit_or (suffix * 2 ^ n) (value % 256) % 256 ≡ suffix * 2 ^ n + value
    byte = ground (arith, high-bit_or n suffix value)

-- The length of a string that is not compressed leaves the top bit of its first byte clear.
length_byte : (n : ℕ) → n < 2 ^ 31 → (b : ℕ) × (t : Bytes) × (encode_int 0 7 n ≡ b ∷ t) × (b < 128)
length_byte n h = elim (Bool-cases (ltb n 127)) [
  | inl small ↦ (
    0 * 2 ^ 7 + n,
    [],
    encode_int_byte 0 7 n (ltb→lt _ _ small) (omega (arith, ltb→lt _ _ small)),
    omega (arith, ltb→lt _ _ small),
  )
  | inr large ↦ (
    127,
    groups 4 (n - 127),
    encode_int_large 0 7 n (omega (arith, ltb-false→ge _ _ large)) h,
    omega arith,
  )
]

-- `encode_string` and what may follow it.
abbrev pub string_bytes : Bytes → Bytes
string_bytes v = encode_int 0 7 (length v) ++ v

pub decode_string_lem :
    (v rest : Bytes) → length v < 2 ^ 31 → decode_string (string_bytes v ++ rest) ≡ ok (v, rest)
unfolding decode_string
decode_string_lem v rest h =
    let (b, t, e, small) = length_byte (length v) h in
    let whole : decode_int 7 (b ∷ (t ++ (v ++ rest))) ≡ ok (length v, v ++ rest) =
      rw e at (decode-encode_int 0 7 (length v) (v ++ rest) (omega arith) (omega arith) h) in
    let top_clear : bit_and b 128 ≡ 0 = omega (arith, bit_and_top b) in
    rw append_assoc (
      rw e (
        rw whole (
          rw (
            ltb-ge (length (v ++ rest)) (length v) (omega (arith, length-append v rest)),
            top_clear,
            take-length-append v rest,
            drop-length-append v rest,
          ))))

pub field_at_static :
    (t : DynamicTable) (i : ℕ) (e : TableEntry)
    → get_elem? entries i ≡ some e
    → field_at t (i + 1) ≡ ok (static_ref e)
unfolding field_at
field_at_static t i e h = rw add-one (rw h)

-- Places of the static table are below 61.
pub entries-bound : (i : ℕ) {x : TableEntry} → get_elem? entries i ≡ some x → i < static_length
unfolding entries
entries-bound i h = get_elem?-bound entries i h
