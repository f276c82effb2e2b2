-- ===== src/Utf.antt =====
-- src/xzero/UTF8.cc: code points as bytes.
-- `next_codepoint` returns the bytes after the code point, which the source leaves in `*cur`.
pub mod RoundTrip
pub mod Validity
use x.Base.{
  ℕ, zero, suc, ◌+◌, ◌*◌, ◌/◌, ◌%◌, ◌^◌, bit_and, bit_or, Bool, true, false, List, [], ◌∷◌, ◌++◌,
  Bytes, length, drop, ltb, ◌==◌, if◌then◌else◌, Option, none, some, Outcome, ok, raise,
  encoding_error,
}

unfoldable pub two_bytes : ℕ → Bytes → Outcome (ℕ × Bytes)
two_bytes b (b1 ∷ rest) = ok (bit_or (bit_and b 0x1f * 2 ^ 6) (bit_and b1 0x3f), rest)
two_bytes b _ = raise encoding_error

unfoldable pub three_bytes : ℕ → Bytes → Outcome (ℕ × Bytes)
three_bytes b (b1 ∷ b2 ∷ rest) =
    ok (bit_or (bit_or (bit_and b 0x0f * 2 ^ 12) (bit_and b1 0x3f * 2 ^ 6)) (bit_and b2 0x3f), rest)
three_bytes b _ = raise encoding_error

unfoldable pub four_bytes : ℕ → Bytes → Outcome (ℕ × Bytes)
four_bytes b (b1 ∷ b2 ∷ b3 ∷ rest) = ok (
  bit_or
      (bit_or (bit_or (bit_and b 0x07 * 2 ^ 18) (bit_and b1 0x3f * 2 ^ 12))
        (bit_and b2 0x3f * 2 ^ 6))
      (bit_and b3 0x3f),
  rest,
)
four_bytes b _ = raise encoding_error

-- The first shift is by 14 in the source.
unfoldable pub five_bytes : ℕ → Bytes → Outcome (ℕ × Bytes)
five_bytes b (b1 ∷ b2 ∷ b3 ∷ b4 ∷ rest) = ok (
  bit_or
      (bit_or
        (bit_or (bit_or (bit_and b 0x03 * 2 ^ 14) (bit_and b1 0x3f * 2 ^ 18))
          (bit_and b2 0x3f * 2 ^ 12))
        (bit_and b3 0x3f * 2 ^ 6))
      (bit_and b4 0x3f),
  rest,
)
five_bytes b _ = raise encoding_error

unfoldable pub six_bytes : ℕ → Bytes → Outcome (ℕ × Bytes)
six_bytes b (b1 ∷ b2 ∷ b3 ∷ b4 ∷ b5 ∷ rest) = ok (
  bit_or
      (bit_or
        (bit_or
          (bit_or (bit_or (bit_and b 0x01 * 2 ^ 30) (bit_and b1 0x3f * 2 ^ 24))
            (bit_and b2 0x3f * 2 ^ 18))
          (bit_and b3 0x3f * 2 ^ 12))
        (bit_and b4 0x3f * 2 ^ 6))
      (bit_and b5 0x3f),
  rest,
)
six_bytes b _ = raise encoding_error

unfoldable pub next_codepoint : Bytes → Outcome (ℕ × Bytes)
unfolding two_bytes three_bytes four_bytes five_bytes six_bytes
next_codepoint [] = ok (0, [])
next_codepoint (b ∷ rest) =
    if ltb b 0x80
    then ok (b, rest)
    else if bit_and b 0xe0 == 0xc0
    then two_bytes b rest
    else if bit_and b 0xf0 == 0xe0
    then three_bytes b rest
    else if bit_and b 0xf8 == 0xf0
    then four_bytes b rest
    else if bit_and b 0xfc == 0xf8
    then five_bytes b rest
    else if bit_and b 0xfe == 0xfc
    then six_bytes b rest
    else raise encoding_error

-- `0b10000000 | ((codepoint >> shift) & 0b00111111)`.
unfoldable pub continuation : ℕ → ℕ → ℕ
continuation codepoint shift = bit_or 0x80 (bit_and (codepoint / 2 ^ shift) 0x3f)

-- The bytes that `encodeCodepoint` appends. The third shift of the last case is by 11 in the source.
unfoldable pub encode_codepoint : ℕ → Bytes
unfolding continuation
encode_codepoint c =
    if ltb c 0x80
    then c ∷ []
    else if ltb c 0x800
    then bit_or 0xc0 (bit_and (c / 2 ^ 6) 0x1f) ∷ continuation c 0 ∷ []
    else if ltb c 0x10000
    then bit_or 0xe0 (bit_and (c / 2 ^ 12) 0x0f) ∷ continuation c 6 ∷ continuation c 0 ∷ []
    else if ltb c 0x200000
    then bit_or 0xf0 (bit_and (c / 2 ^ 18) 0x07)
      ∷ continuation c 12
      ∷ continuation c 6
      ∷ continuation c 0
      ∷ []
    else if ltb c 0x4000000
    then bit_or 0xf8 (bit_and (c / 2 ^ 24) 0x03)
      ∷ continuation c 18
      ∷ continuation c 12
      ∷ continuation c 6
      ∷ continuation c 0
      ∷ []
    else bit_or 0xfc (bit_and (c / 2 ^ 30) 0x01)
      ∷ continuation c 24
      ∷ continuation c 18
      ∷ continuation c 11
      ∷ continuation c 6
      ∷ continuation c 0
      ∷ []

-- How many bytes `isValidUTF8` wants after a byte of 0x80 or more, by the tests in their order.
unfoldable pub wanted : ℕ → Option ℕ
wanted b =
    if bit_and b 0xe0 == 0xc0
    then some 1
    else if bit_and b 0xf0 == 0xe0
    then some 2
    else if bit_and b 0xf8 == 0xf0
    then some 3
    else if bit_and b 0xfc == 0xf8
    then some 4
    else if bit_and b 0xfe == 0xfc
    then some 5
    else none

-- The loop of `isValidUTF8`, with fuel; `none` where it is used up. An ASCII byte ends it, and a byte
-- that no test takes leaves `cur` where it is.
unfoldable pub is_valid_utf8 : ℕ → Bytes → Option Bool
unfolding wanted
is_valid_utf8 zero str = none
is_valid_utf8 (suc fuel) [] = some true
is_valid_utf8 (suc fuel) (b ∷ rest) = elim (ltb b 0x80) [
  | true ↦ some true
  | false ↦ elim (wanted b) [
    | none ↦ is_valid_utf8 fuel (b ∷ rest)
    | some n ↦ elim (ltb (length rest) n) [
      | true ↦ some false
      | false ↦ is_valid_utf8 fuel (drop n rest)
    ]
  ]
]
