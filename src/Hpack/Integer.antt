-- ===== src/Hpack/Integer.antt =====
-- src/xzero/http/hpack/Generator.cc `encodeInt` and Parser.cc `decodeInt`: prefixed integers.
-- `encode_int` is the bytes written at `output`; `decode_int` returns the value and what is left.
pub mod RoundTrip
use mathlib.Core.Logic.{dite}
use mathlib.Core.WellFounded.{Acc}
use native.Mathlib.Decide.{dec_lt}
use x.Base.{
  ℕ, ◌+◌, ◌-◌, ◌*◌, ◌/◌, ◌%◌, ◌^◌, ◌<◌, bit_and, bit_or, arith, lt_wf, List, [], ◌∷◌, Bytes, ltb,
  leb, ◌==◌, true, false, ◌&&◌, if◌then◌else◌, Outcome, ok, raise, compression_error,
  internal_error, undefined,
}

pub shift_lt : (v : ℕ) → 127 < v → v / 128 < v
shift_lt v h = omega arith

-- `while (value > maskLSB(7))` and the byte behind it.
encode_tail : (v : ℕ) → Acc ◌<◌ v → Bytes
encode_tail v (Acc.intro _ smaller) =
    dite (dec_lt 127 v)
      (λ more. bit_or 128 (bit_and v 127) ∷ encode_tail (v / 128) (smaller _ (shift_lt v more)))
      (λ _. (v % 256) ∷ [])

-- `prefix_bits` is 1 to 8 (an assertion of the source).
unfoldable pub encode_int : ℕ → ℕ → ℕ → Bytes
unfolding encode_tail lt_wf dec_lt
encode_int suffix prefix_bits value =
    let max_value = 2 ^ prefix_bits - 1 in
    if ltb value max_value
    then (bit_or (suffix * 2 ^ prefix_bits) (value % 256) % 256) ∷ []
    else max_value ∷ encode_tail (value - max_value) (lt_wf.apply (value - max_value))

-- `(octet & 0b01111111) << shift` in an `int`, added to a `uint64_t`: undefined where a bit is
-- shifted out of the 32, and the sign is extended where the top bit is set.
unfoldable pub add_group : ℕ → ℕ → ℕ → Outcome ℕ
add_group output octet shift =
    let group = bit_and octet 127 * 2 ^ shift in
    if leb 32 shift
    then raise undefined
    else if leb (2 ^ 32) group
    then raise undefined
    else ok ((output + (if leb (2 ^ 31) group then group + (2 ^ 64 - 2 ^ 32) else group)) % 2 ^ 64)

-- `while (pos != end)`.
unfoldable pub decode_tail : Bytes → ℕ → ℕ → Outcome (ℕ × Bytes)
unfolding add_group
decode_tail [] output shift = raise compression_error
decode_tail (octet ∷ rest) output shift = elim (add_group output octet shift) [
  | raise f ↦ raise f
  | ok output' ↦ elim (bit_and octet 128 == 0) [
    | true ↦ ok (output', rest)
    | false ↦ decode_tail rest output' (shift + 7)
  ]
]

unfoldable pub decode_int : ℕ → Bytes → Outcome (ℕ × Bytes)
unfolding decode_tail
decode_int prefix_bits src =
    if leb 1 prefix_bits && leb prefix_bits 8
    then elim src [
      | [] ↦ raise compression_error
      | octet ∷ rest ↦
          let output = bit_and octet (2 ^ prefix_bits - 1) in
          if ltb output (2 ^ prefix_bits - 1) then ok (output, rest) else decode_tail rest output 0
    ]
    else raise internal_error
