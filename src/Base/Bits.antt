-- ===== src/Base/Bits.antt =====
-- Laws of the bit operations that the wire formats use: masks, disjoint `|`, and complement.
use Prim.Native.Nat.{
  ℕ, zero, suc, ◌+◌, ◌-◌, ◌*◌, ◌/◌, ◌%◌, ◌^◌, ◌≤◌, ◌<◌, min, max, bit_and, bit_or, bit_xor, digits,
  differ, bit_and-bitwise, bit_or-bitwise, bit_xor-bitwise,
}
use mathlib.Core.Path.{◌≡◌, refl, ap, ◌∙◌}
use mathlib.Core.Bool.{Bool, true, ◌&&◌}
use native.Mathlib.Nat.{pow-suc, one-le-pow, add-mul-mod_self_right, mod-eq_of_lt, div-add-mod}
use native.Mathlib.Omega.{arith}
use x.Base.Tests.{◌==◌, ==_iff}

-- Two counts of rounds, both enough for the first number, give the same digits.
module _ (z : ℕ → ℕ) (f : ℕ → ℕ → ℕ) where
  digits_enough : (k l x y : ℕ) → x ≤ k → x ≤ l → digits z f k x y ≡ digits z f l x y
  digits_enough zero zero x y hk hl = refl
  digits_enough (suc k) zero zero y hk hl = refl
  digits_enough zero (suc l) zero y hk hl = refl
  digits_enough (suc k) (suc l) zero y hk hl = refl
  digits_enough zero l (suc x) y hk hl = absurd (omega arith)
  digits_enough k zero (suc x) y hk hl = absurd (omega arith)
  digits_enough (suc k) (suc l) (suc x) y hk hl =
      let half = digits_enough k l (suc x / 2) (y / 2) (omega arith) (omega arith) in
      ap (λ (t : ℕ). t * 2 + f (suc x % 2) (y % 2)) half

zero-bit_or : (b : ℕ) → bit_or 0 b ≡ b
zero-bit_or b = bit_or-bitwise 0 b

zero-bit_and : (b : ℕ) → bit_and 0 b ≡ 0
zero-bit_and b = bit_and-bitwise 0 b

zero-bit_xor : (b : ℕ) → bit_xor 0 b ≡ b
zero-bit_xor b = bit_xor-bitwise 0 b

bit_or_digit : (v w : ℕ) → bit_or v w ≡ bit_or (v / 2) (w / 2) * 2 + max (v % 2) (w % 2)
bit_or_digit zero b = omega (arith, zero-bit_or b, zero-bit_or (b / 2))
bit_or_digit (suc a) b = omega (
  arith,
  bit_or-bitwise (suc a) b,
  bit_or-bitwise (suc a / 2) (b / 2),
  digits_enough (λ b. b) max a (suc a / 2) (suc a / 2) (b / 2) (omega arith) (omega arith),
)

bit_and_digit : (v w : ℕ) → bit_and v w ≡ bit_and (v / 2) (w / 2) * 2 + min (v % 2) (w % 2)
bit_and_digit zero b = omega (arith, zero-bit_and b, zero-bit_and (b / 2))
bit_and_digit (suc a) b = omega (
  arith,
  bit_and-bitwise (suc a) b,
  bit_and-bitwise (suc a / 2) (b / 2),
  digits_enough (λ b. 0) min a (suc a / 2) (suc a / 2) (b / 2) (omega arith) (omega arith),
)

bit_xor_digit : (v w : ℕ) → bit_xor v w ≡ bit_xor (v / 2) (w / 2) * 2 + differ (v % 2) (w % 2)
bit_xor_digit zero b = ground (arith, zero-bit_xor b, zero-bit_xor (b / 2))
bit_xor_digit (suc a) b = ground (
  arith,
  bit_xor-bitwise (suc a) b,
  bit_xor-bitwise (suc a / 2) (b / 2),
  digits_enough (λ b. b) differ a (suc a / 2) (suc a / 2) (b / 2) (omega arith) (omega arith),
)

double_shift : (q k : ℕ) → q * 2 ^ suc k ≡ 2 * (q * 2 ^ k)
double_shift q k = omega (arith, ap (λ (t : ℕ). q * t) (pow-suc 2 k))

-- `r | (q << k)` is a sum where `r` fits below bit `k`.
pub bit_or_disjoint : (k r q : ℕ) → r < 2 ^ k → bit_or r (q * 2 ^ k) ≡ r + q * 2 ^ k
bit_or_disjoint zero r q h = ground (arith, zero-bit_or q)
bit_or_disjoint (suc k) r q h = ground (
  arith,
  bit_or_digit r (q * 2 ^ suc k),
  double_shift q k,
  bit_or_disjoint k (r / 2) q (omega (arith, pow-suc 2 k)),
)

bit_or-zero_upto : (n a : ℕ) → a ≤ n → bit_or a 0 ≡ a
bit_or-zero_upto n zero h = refl
bit_or-zero_upto zero (suc a) h = absurd (omega arith)
bit_or-zero_upto (suc n) (suc a) h =
    omega (arith, bit_or_digit (suc a) 0, bit_or-zero_upto n (suc a / 2) (omega arith))

-- The same with the high part in front.
pub high-bit_or : (k q r : ℕ) → r < 2 ^ k → bit_or (q * 2 ^ k) r ≡ q * 2 ^ k + r
high-bit_or zero q zero h = ground (arith, bit_or-zero_upto q q (omega arith))
high-bit_or zero q (suc r) h = absurd (omega arith)
high-bit_or (suc k) q r h = ground (
  arith,
  bit_or_digit (q * 2 ^ suc k) r,
  double_shift q k,
  high-bit_or k q (r / 2) (omega (arith, pow-suc 2 k)),
)

bit_and-zero_upto : (n a : ℕ) → a ≤ n → bit_and a 0 ≡ 0
bit_and-zero_upto n zero h = refl
bit_and-zero_upto zero (suc a) h = absurd (omega arith)
bit_and-zero_upto (suc n) (suc a) h =
    omega (arith, bit_and_digit (suc a) 0, bit_and-zero_upto n (suc a / 2) (omega arith))

half_ones : (k : ℕ) → (2 ^ suc k - 1) / 2 ≡ 2 ^ k - 1
half_ones k = omega (arith, pow-suc 2 k)

mod_double : (a m : ℕ) → 0 < m → a % (2 * m) ≡ a / 2 % m * 2 + a % 2
mod_double a m h =
    ap (λ (t : ℕ). t % (2 * m)) split
    ∙ add-mul-mod_self_right low (a / 2 / m) (2 * m)
    ∙ mod-eq_of_lt (omega arith)
  where
    low : ℕ
    low = a / 2 % m * 2 + a % 2

    split : a ≡ low + a / 2 / m * (2 * m)
    split = omega (arith, div-add-mod (a / 2) m)

-- `a & (2^k - 1)` is the remainder by `2^k`.
pub bit_and_ones : (k a : ℕ) → bit_and a (2 ^ k - 1) ≡ a % 2 ^ k
bit_and_ones zero a = omega (arith, bit_and-zero_upto a a (omega arith))
bit_and_ones (suc k) a = ground (
  arith,
  bit_and_digit a (2 ^ suc k - 1),
  pow-suc 2 k,
  one-le-pow k 2,
  half_ones k,
  mod_double a (2 ^ k),
  bit_and_ones k (a / 2),
)

differ-one : (d : ℕ) → d < 2 → differ d 1 ≡ 1 - d
differ-one zero h = refl
differ-one (suc zero) h = refl
differ-one (suc (suc d)) h = absurd (omega arith)

differ-zero : (d : ℕ) → differ d 0 ≡ d
differ-zero zero = refl
differ-zero (suc d) = refl

-- `a ^ (2^k - 1)` is the complement in `k` bits.
pub bit_xor_ones : (k a : ℕ) → a < 2 ^ k → bit_xor a (2 ^ k - 1) ≡ 2 ^ k - 1 - a
bit_xor_ones zero zero h = refl
bit_xor_ones zero (suc a) h = absurd (omega arith)
bit_xor_ones (suc k) a h = ground (
  arith,
  bit_xor_digit a (2 ^ suc k - 1),
  pow-suc 2 k,
  one-le-pow k 2,
  half_ones k,
  differ-one (a % 2) (omega arith),
  bit_xor_ones k (a / 2) (omega (arith, pow-suc 2 k)),
)

bit_xor-zero_upto : (n a : ℕ) → a ≤ n → bit_xor a 0 ≡ a
bit_xor-zero_upto n zero h = refl
bit_xor-zero_upto zero (suc a) h = absurd (omega arith)
bit_xor-zero_upto (suc n) (suc a) h = omega (
  arith,
  bit_xor_digit (suc a) 0,
  differ-zero (suc a % 2),
  bit_xor-zero_upto n (suc a / 2) (omega arith),
)

pub bit_xor-zero : (a : ℕ) → bit_xor a 0 ≡ a
bit_xor-zero a = bit_xor-zero_upto a a (omega arith)

-- A property of small numbers, checked at each.
unfoldable pub every_below : ℕ → (ℕ → Bool) → Bool
every_below zero p = true
every_below (suc n) p = p n && every_below n p

pub every_below_lem : (n : ℕ) (p : ℕ → Bool) (i : ℕ) → every_below n p ≡ true → i < n → p i ≡ true
unfolding every_below
every_below_lem zero p i e h = absurd (omega arith)
every_below_lem (suc n) p i e h = ground (arith, every_below_lem n p i)

-- The top bit of a byte.
pub bit_and_top : (b : ℕ) → b < 256 → bit_and b 0x80 ≡ b / 128 * 128
unfolding every_below
bit_and_top b h =
    (==_iff _ _).0 (every_below_lem 256 (λ i. bit_and i 0x80 == i / 128 * 128) b refl h)

pub bit_or_top : (b : ℕ) → b < 128 → bit_or b 0x80 ≡ b + 128
unfolding every_below
bit_or_top b h = (==_iff _ _).0 (every_below_lem 128 (λ i. bit_or i 0x80 == i + 128) b refl h)

pub top-bit_or : (g : ℕ) → g < 128 → bit_or 128 g ≡ g + 128
unfolding every_below
top-bit_or g h = (==_iff _ _).0 (every_below_lem 128 (λ i. bit_or 128 i == i + 128) g refl h)

pub bit_and_sixty_four : (b : ℕ) → b < 256 → bit_and b 64 ≡ b / 64 % 2 * 64
unfolding every_below
bit_and_sixty_four b h =
    (==_iff _ _).0 (every_below_lem 256 (λ i. bit_and i 64 == i / 64 % 2 * 64) b refl h)

pub bit_and_thirty_two : (b : ℕ) → b < 256 → bit_and b 32 ≡ b / 32 % 2 * 32
unfolding every_below
bit_and_thirty_two b h =
    (==_iff _ _).0 (every_below_lem 256 (λ i. bit_and i 32 == i / 32 % 2 * 32) b refl h)

pub bit_and_sixteen : (b : ℕ) → b < 256 → bit_and b 16 ≡ b / 16 % 2 * 16
unfolding every_below
bit_and_sixteen b h =
    (==_iff _ _).0 (every_below_lem 256 (λ i. bit_and i 16 == i / 16 % 2 * 16) b refl h)
