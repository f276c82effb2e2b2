-- ===== src/Utf/RoundTrip.antt =====
-- src/xzero/UTF8.cc: `nextCodepoint` after `encodeCodepoint`.
use x.Base.{
  ℕ, ◌+◌, ◌*◌, ◌/◌, ◌%◌, ◌^◌, ◌<◌, ◌≡◌, refl, ap, ◌∙◌, arith, bit_and, bit_or, ◌∷◌, ◌++◌, Bytes,
  ltb, ◌==◌, ==_iff, ok, inl, inr, Bool-cases, ltb→lt, lt→ltb,
}
use x.Base.Bits.{high-bit_or, bit_and_ones, every_below, every_below_lem}
use x.Utf.{two_bytes, three_bytes, four_bytes, next_codepoint, continuation, encode_codepoint}

-- The top three, four and five bits of a byte.
top_three : (b : ℕ) → b < 256 → bit_and b 0xe0 ≡ b / 32 * 32
unfolding every_below
top_three b h = (==_iff _ _).0 (every_below_lem 256 (λ i. bit_and i 0xe0 == i / 32 * 32) b refl h)

top_four : (b : ℕ) → b < 256 → bit_and b 0xf0 ≡ b / 16 * 16
unfolding every_below
top_four b h = (==_iff _ _).0 (every_below_lem 256 (λ i. bit_and i 0xf0 == i / 16 * 16) b refl h)

top_five : (b : ℕ) → b < 256 → bit_and b 0xf8 ≡ b / 8 * 8
unfolding every_below
top_five b h = (==_iff _ _).0 (every_below_lem 256 (λ i. bit_and i 0xf8 == i / 8 * 8) b refl h)

low_six : (x : ℕ) → bit_and x 0x3f ≡ x % 64
low_six x = bit_and_ones 6 x

continuation_lem : (c s : ℕ) → continuation c s ≡ 128 + c / 2 ^ s % 64
unfolding continuation
continuation_lem c s =
    ap (bit_or 0x80) (low_six (c / 2 ^ s)) ∙ high-bit_or 6 2 (c / 2 ^ s % 64) (omega arith)

low_continuation : (c s : ℕ) → bit_and (continuation c s) 0x3f ≡ c / 2 ^ s % 64
low_continuation c s = omega (arith, low_six (continuation c s), continuation_lem c s)

pub first_of_two : (x : ℕ) → bit_or 0xc0 (bit_and x 0x1f) ≡ 192 + x % 32
first_of_two x = ap (bit_or 0xc0) (bit_and_ones 5 x) ∙ high-bit_or 5 6 (x % 32) (omega arith)

pub first_of_three : (x : ℕ) → bit_or 0xe0 (bit_and x 0x0f) ≡ 224 + x % 16
first_of_three x = ap (bit_or 0xe0) (bit_and_ones 4 x) ∙ high-bit_or 4 14 (x % 16) (omega arith)

pub first_of_four : (x : ℕ) → bit_or 0xf0 (bit_and x 0x07) ≡ 240 + x % 8
first_of_four x = ap (bit_or 0xf0) (bit_and_ones 3 x) ∙ high-bit_or 3 30 (x % 8) (omega arith)

join_three :
    (h m l : ℕ)
    → m < 64
    → l < 64
    → bit_or (bit_or (h * 2 ^ 12) (m * 2 ^ 6)) l ≡ h * 4096 + m * 64 + l
join_three h m l hm hl =
    let high : bit_or (h * 2 ^ 12) (m * 2 ^ 6) ≡ h * 2 ^ 12 + m * 2 ^ 6 =
      high-bit_or 12 h (m * 2 ^ 6) (omega arith) in
    let shifted : h * 2 ^ 12 + m * 2 ^ 6 ≡ (h * 64 + m) * 2 ^ 6 = omega arith in
    omega (arith, ap (λ (x : ℕ). bit_or x l) (high ∙ shifted), high-bit_or 6 (h * 64 + m) l hl)

join_four :
    (h n m l : ℕ)
    → n < 64
    → m < 64
    → l < 64
    → bit_or (bit_or (bit_or (h * 2 ^ 18) (n * 2 ^ 12)) (m * 2 ^ 6)) l
      ≡ h * 262144 + n * 4096 + m * 64 + l
join_four h n m l hn hm hl =
    let high : bit_or (h * 2 ^ 18) (n * 2 ^ 12) ≡ h * 2 ^ 18 + n * 2 ^ 12 =
      high-bit_or 18 h (n * 2 ^ 12) (omega arith) in
    let shifted : h * 2 ^ 18 + n * 2 ^ 12 ≡ (h * 64 + n) * 2 ^ 12 = omega arith in
    omega (
      arith,
      ap (λ (x : ℕ). bit_or (bit_or x (m * 2 ^ 6)) l) (high ∙ shifted),
      join_three (h * 64 + n) m l hm hl,
    )

read_two :
    (c b : ℕ) (rest : Bytes)
    → c < 2048
    → b ≡ 192 + c / 2 ^ 6 % 32
    → next_codepoint (b ∷ continuation c 0 ∷ rest) ≡ ok (c, rest)
unfolding next_codepoint two_bytes
read_two c b rest h e = ground (
  arith,
  top_three b,
  bit_and_ones 5 b,
  low_continuation c 0,
  high-bit_or 6 (b % 32) (c / 2 ^ 0 % 64),
)

read_three :
    (c b : ℕ) (rest : Bytes)
    → c < 65536
    → b ≡ 224 + c / 2 ^ 12 % 16
    → next_codepoint (b ∷ continuation c 6 ∷ continuation c 0 ∷ rest) ≡ ok (c, rest)
unfolding next_codepoint three_bytes
read_three c b rest h e = ground (
  arith,
  top_three b,
  top_four b,
  bit_and_ones 4 b,
  low_continuation c 6,
  low_continuation c 0,
  join_three (b % 16) (c / 2 ^ 6 % 64) (c / 2 ^ 0 % 64),
)

read_four :
    (c b : ℕ) (rest : Bytes)
    → c < 2097152
    → b ≡ 240 + c / 2 ^ 18 % 8
    → next_codepoint (b ∷ continuation c 12 ∷ continuation c 6 ∷ continuation c 0 ∷ rest)
      ≡ ok (c, rest)
unfolding next_codepoint four_bytes
read_four c b rest h e = ground (
  arith,
  top_three b,
  top_four b,
  top_five b,
  bit_and_ones 3 b,
  low_continuation c 12,
  low_continuation c 6,
  low_continuation c 0,
  join_four (b % 8) (c / 2 ^ 12 % 64) (c / 2 ^ 6 % 64) (c / 2 ^ 0 % 64),
)

read_one : (c : ℕ) (rest : Bytes) → c < 128 → next_codepoint (c ∷ rest) ≡ ok (c, rest)
unfolding next_codepoint
read_one c rest h = rw (lt→ltb c 128 h)

-- A code point below 2^21, and with it every code point of Unicode, is read back from its bytes,
-- whatever follows them.
pub next_codepoint-encode_codepoint :
    (c : ℕ) (rest : Bytes) → c < 2 ^ 21 → next_codepoint (encode_codepoint c ++ rest) ≡ ok (c, rest)
unfolding encode_codepoint
next_codepoint-encode_codepoint c rest h = elim (Bool-cases (ltb c 0x80)) [
  | inl one ↦ rw one (read_one c rest (ltb→lt c 0x80 one))
  | inr more ↦ rw more (elim (Bool-cases (ltb c 0x800)) [
    | inl two ↦ rw two (read_two c _ rest (ltb→lt c 0x800 two) (first_of_two (c / 2 ^ 6)))
    | inr more' ↦ rw more' (elim (Bool-cases (ltb c 0x10000)) [
      | inl three ↦
          rw three (read_three c _ rest (ltb→lt c 0x10000 three) (first_of_three (c / 2 ^ 12)))
      | inr more'' ↦
          rw (more'', lt→ltb c 0x200000 (omega arith))
            (read_four c _ rest h (first_of_four (c / 2 ^ 18)))
    ])
  ])
]
