-- ===== src/Hpack/Integer/RoundTrip.antt =====
-- Prefixed integers below 2^31 are read back as they were written.
use native.Mathlib.Nat.{pow-suc, mod-eq_of_lt, one-le-pow, pow-le-pow_right}
use mathlib.Core.WellFounded.{Acc}
use x.Base.{
  ℕ, zero, suc, ◌+◌, ◌-◌, ◌*◌, ◌/◌, ◌%◌, ◌^◌, ◌<◌, ◌≤◌, ◌≡◌, refl, ap, ◌∙◌, bit_and, bit_or, arith,
  lt_wf, [], ◌∷◌, ◌++◌, Bytes, ltb, ltb-ge, ltb→lt, ltb-false→ge, lt→ltb, leb, ◌&&◌, ok, Bool-cases,
  inl, inr, true,
}
use x.Base.Bits.{bit_and_ones, bit_and_top, top-bit_or, high-bit_or}
use x.Wire.VarUInt.{groups, lowest_group}
use x.Hpack.Integer.{encode_tail, encode_int, add_group, decode_tail, decode_int}

encode_tail-groups : (k v : ℕ) (w : Acc ◌<◌ v) → v < 128 ^ suc k → encode_tail v w ≡ groups k v
unfolding encode_tail groups
encode_tail-groups zero v (Acc.intro _ smaller) h = ground arith
encode_tail-groups (suc k) v (Acc.intro _ smaller) h = grind (
  arith,
  bit_and_ones 7 v,
  top-bit_or (v % 128),
  λ (w : Acc ◌<◌ (v / 128)). encode_tail-groups k (v / 128) w (omega (arith, pow-suc 128 (suc k))),
)

-- A group whose bits stay below bit 31 is added as it is.
add_group_lem :
    (output octet j : ℕ)
    → octet % 128 * 2 ^ (7 * j) < 2 ^ 31
    → j ≤ 4
    → output + octet % 128 * 2 ^ (7 * j) < 2 ^ 64
    → add_group output octet (7 * j) ≡ ok (output + octet % 128 * 2 ^ (7 * j))
unfolding add_group
add_group_lem output octet j h hj fits = ground (arith, bit_and_ones 7 octet)

-- One round of the loop on a byte that goes on.
decode_tail_more :
    (g output j : ℕ) (rest : Bytes)
    → g < 128
    → g * 2 ^ (7 * j) < 2 ^ 31
    → j ≤ 4
    → output + g * 2 ^ (7 * j) < 2 ^ 64
    → decode_tail ((g + 128) ∷ rest) output (7 * j)
      ≡ decode_tail rest (output + g * 2 ^ (7 * j)) (7 * (j + 1))
unfolding decode_tail
decode_tail_more g output j rest hg hs hj fits =
    ground (arith, add_group_lem output (g + 128) j, bit_and_top (g + 128))

decode_tail-groups :
    (k v output j : ℕ) (rest : Bytes)
    → v < 128 ^ suc k
    → j + k ≡ 4
    → v * 2 ^ (7 * j) < 2 ^ 31
    → output + v * 2 ^ (7 * j) < 2 ^ 64
    → decode_tail (groups k v ++ rest) output (7 * j) ≡ ok (output + v * 2 ^ (7 * j), rest)
unfolding groups decode_tail
decode_tail-groups zero v output j rest hv hj hs fits =
    ground (arith, add_group_lem output v j, bit_and_top v)
decode_tail-groups (suc k) v output j rest hv hj hs fits = ground (
  arith,
  lowest_group v j,
  add_group_lem output v j,
  bit_and_top v,
  decode_tail_more (v % 128) output j (groups k (v / 128) ++ rest),
  decode_tail-groups k (v / 128) (output + v % 128 * 2 ^ (7 * j)) (j + 1) rest
      (omega (arith, pow-suc 128 (suc k))),
)

-- The prefix of a byte that holds the value and the bits above it.
both : {n : ℕ} → 1 ≤ n → n ≤ 8 → (leb 1 n && leb n 8) ≡ true
both lo hi = ground arith

prefix_byte :
    (suffix n value : ℕ)
    → 1 ≤ n
    → n ≤ 8
    → value < 2 ^ n - 1
    → ((suffix * 2 ^ n + value) % 256 % 2 ^ n ≡ value) × (value < 256)
prefix_byte suffix zero value lo hi h = absurd (omega arith)
prefix_byte suffix (suc zero) value lo hi h = omega arith
prefix_byte suffix (suc (suc zero)) value lo hi h = omega arith
prefix_byte suffix (suc (suc (suc zero))) value lo hi h = omega arith
prefix_byte suffix (suc (suc (suc (suc zero)))) value lo hi h = omega arith
prefix_byte suffix (suc (suc (suc (suc (suc zero))))) value lo hi h = omega arith
prefix_byte suffix (suc (suc (suc (suc (suc (suc zero)))))) value lo hi h = omega arith
prefix_byte suffix (suc (suc (suc (suc (suc (suc (suc zero))))))) value lo hi h = omega arith
prefix_byte suffix (suc (suc (suc (suc (suc (suc (suc (suc zero)))))))) value lo hi h = omega arith
prefix_byte suffix (suc (suc (suc (suc (suc (suc (suc (suc (suc n))))))))) value lo hi h =
    absurd (omega arith)

decode_head :
    (suffix n value : ℕ) (rest : Bytes)
    → 1 ≤ n
    → n ≤ 8
    → value < 2 ^ n - 1
    → bit_and (bit_or (suffix * 2 ^ n) (value % 256) % 256) (2 ^ n - 1) ≡ value
decode_head suffix n value rest lo hi h =
    let (low, small) = prefix_byte suffix n value lo hi h in
    rw (mod-eq_of_lt small) (
      rw (high-bit_or n suffix value (omega arith))
        (bit_and_ones n ((suffix * 2 ^ n + value) % 256) ∙ low))

-- A value that does not fit the prefix: the first byte is the prefix, with nothing above it.
pub encode_int_large :
    (suffix n value : ℕ)
    → 2 ^ n - 1 ≤ value
    → value < 2 ^ 31
    → encode_int suffix n value ≡ (2 ^ n - 1) ∷ groups 4 (value - (2 ^ n - 1))
unfolding encode_int
encode_int_large suffix n value h small = rw (ltb-ge value (2 ^ n - 1) h) (
    ap (◌∷◌ (2 ^ n - 1)) (
      encode_tail-groups 4 (value - (2 ^ n - 1)) (lt_wf.apply (value - (2 ^ n - 1))) (omega arith)))

pub encode_int_small :
    (suffix n value : ℕ)
    → value < 2 ^ n - 1
    → encode_int suffix n value ≡ (bit_or (suffix * 2 ^ n) (value % 256) % 256) ∷ []
unfolding encode_int
encode_int_small suffix n value h = rw (lt→ltb value (2 ^ n - 1) h)

prefix_small : (n : ℕ) → n ≤ 8 → 2 ^ n ≤ 256
prefix_small n h = pow-le-pow_right {n = 2} (omega arith) h

ones_lem : (n : ℕ) → bit_and (2 ^ n - 1) (2 ^ n - 1) ≡ 2 ^ n - 1
ones_lem n = bit_and_ones n (2 ^ n - 1) ∙ mod-eq_of_lt (omega (arith, one-le-pow n 2))

-- With a prefix of one to eight bits, a value below 2^31 is read back from the bytes that `encodeInt` writes for it, whatever the bits
-- above the prefix are, and the rest of the block is left.
pub decode-encode_int :
    (suffix prefix_bits value : ℕ) (rest : Bytes)
    → 1 ≤ prefix_bits
    → prefix_bits ≤ 8
    → value < 2 ^ 31
    → decode_int prefix_bits (encode_int suffix prefix_bits value ++ rest) ≡ ok (value, rest)
unfolding decode_int
decode-encode_int suffix n value rest lo hi h = elim (Bool-cases (ltb value (2 ^ n - 1))) [
  | inl small ↦
      rw (encode_int_small suffix n value (ltb→lt _ _ small), both lo hi)
        (ground (arith, decode_head suffix n value rest lo hi))
  | inr large ↦
      rw
        (
          encode_int_large suffix n value (omega (arith, ltb-false→ge _ _ large)) h,
          both lo hi,
          ones_lem n,
        )
        (ground (
          arith,
          decode_tail-groups 4 (value - (2 ^ n - 1)) (2 ^ n - 1) 0 rest (omega arith) refl,
          prefix_small n,
        ))
]
