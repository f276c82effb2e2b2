-- ===== src/Utf/Validity.antt =====
-- src/xzero/UTF8.cc `isValidUTF8`: where its loop ends.
use x.Base.{
  ℕ, zero, suc, ◌+◌, ◌-◌, ◌/◌, ◌%◌, ◌^◌, ◌<◌, ◌≤◌, ◌≡◌, refl, arith, Bool, true, false, List, [],
  ◌∷◌, ◌++◌, Bytes, length, drop, All, ap, ◌∙◌, lt→ltb, ltb, ◌==◌, ==_iff, Option, none, some, inl,
  inr, Bool-cases, ltb-ge,
}
use x.Base.Bits.{every_below, every_below_lem}
use x.Utf.{wanted, is_valid_utf8, continuation, encode_codepoint}
use x.Utf.RoundTrip.{first_of_two, first_of_three, first_of_four}

-- Whether `wanted` has no answer for a byte from 0x80 on.
is_none : Option ℕ → Bool
is_none none = true
is_none (some n) = false

is_none_lem : (o : Option ℕ) → is_none o ≡ true → o ≡ none
unfolding is_none
is_none_lem none h = refl
is_none_lem (some n) h = cc

unwanted : (b : ℕ) → b < 64 → wanted (128 + b) ≡ none
unfolding every_below wanted is_none
unwanted b h = is_none_lem _ (every_below_lem 64 (λ i. is_none (wanted (128 + i))) b refl h)

-- The loop never ends at a continuation byte that no lead byte came before: no number of rounds is
-- enough for a string that begins with a byte from 0x80 to 0xBF.
pub is_valid_utf8-stuck :
    (fuel b : ℕ) (rest : Bytes) → 128 ≤ b → b < 192 → is_valid_utf8 fuel (b ∷ rest) ≡ none
unfolding is_valid_utf8
is_valid_utf8-stuck zero b rest lo hi = refl
is_valid_utf8-stuck (suc fuel) b rest lo hi =
    let split : b ≡ 128 + (b - 128) = omega arith in
    let unknown : wanted b ≡ none = ap wanted split ∙ unwanted (b - 128) (omega arith) in
    rw (ltb-ge b 128 lo, is_valid_utf8) (rw unknown (is_valid_utf8-stuck fuel b rest lo hi))

wants : Option ℕ → ℕ → Bool
wants none k = false
wants (some n) k = n == k

wants_lem : (o : Option ℕ) (k : ℕ) → wants o k ≡ true → o ≡ some k
unfolding wants
wants_lem none k h = cc
wants_lem (some n) k h = ap some ((==_iff n k).0 h)

wanted_one : (x : ℕ) → x < 32 → wanted (192 + x) ≡ some 1
unfolding every_below wanted wants
wanted_one x h = wants_lem _ 1 (every_below_lem 32 (λ i. wants (wanted (192 + i)) 1) x refl h)

wanted_two : (x : ℕ) → x < 16 → wanted (224 + x) ≡ some 2
unfolding every_below wanted wants
wanted_two x h = wants_lem _ 2 (every_below_lem 16 (λ i. wants (wanted (224 + i)) 2) x refl h)

wanted_three : (x : ℕ) → x < 8 → wanted (240 + x) ≡ some 3
unfolding every_below wanted wants
wanted_three x h = wants_lem _ 3 (every_below_lem 8 (λ i. wants (wanted (240 + i)) 3) x refl h)

-- The loop goes past a lead byte and the bytes that it wants.
goes_on :
    (fuel b n : ℕ) (rest : Bytes)
    → 128 ≤ b
    → wanted b ≡ some n
    → n ≤ length rest
    → is_valid_utf8 (suc fuel) (b ∷ rest) ≡ is_valid_utf8 fuel (drop n rest)
unfolding is_valid_utf8
goes_on fuel b n rest lo w h =
    rw (ltb-ge b 128 lo, is_valid_utf8) (rw (w, ltb-ge (length rest) n h))

lead_goes_on :
    (fuel b base x n : ℕ) (rest : Bytes)
    → 128 ≤ base
    → b ≡ base + x
    → wanted (base + x) ≡ some n
    → n ≤ length rest
    → is_valid_utf8 (suc fuel) (b ∷ rest) ≡ is_valid_utf8 fuel (drop n rest)
lead_goes_on fuel b base x n rest lo e w h = goes_on fuel b n rest (omega arith) (ap wanted e ∙ w) h

abbrev pub encoded : List ℕ → Bytes
encoded [] = []
encoded (c ∷ cs) = encode_codepoint c ++ encoded cs

-- The bytes of any code points below 2^21 are valid: one round for each code point and one more are
-- enough for the loop to end with that answer.
pub is_valid_utf8-encoded :
    (cs : List ℕ)
    → All (λ c. c < 2 ^ 21) cs
    → is_valid_utf8 (suc (length cs)) (encoded cs) ≡ some true
unfolding is_valid_utf8 encode_codepoint
is_valid_utf8-encoded [] h = refl
is_valid_utf8-encoded (c ∷ cs) (h, hs) = elim (Bool-cases (ltb c 0x80)) [
  | inl one ↦ rw (one, is_valid_utf8) (rw one)
  | inr more ↦ rw more (elim (Bool-cases (ltb c 0x800)) [
    | inl two ↦ rw two (
        lead_goes_on (suc (length cs)) _ 192 (c / 2 ^ 6 % 32) 1 (continuation c 0 ∷ encoded cs)
          (omega arith) (first_of_two (c / 2 ^ 6)) (wanted_one (c / 2 ^ 6 % 32) (omega arith))
          (omega arith)
        ∙ is_valid_utf8-encoded cs hs)
    | inr more' ↦ rw more' (elim (Bool-cases (ltb c 0x10000)) [
      | inl three ↦ rw three (
          lead_goes_on (suc (length cs)) _ 224 (c / 2 ^ 12 % 16) 2
            (continuation c 6 ∷ continuation c 0 ∷ encoded cs) (omega arith)
            (first_of_three (c / 2 ^ 12)) (wanted_two (c / 2 ^ 12 % 16) (omega arith)) (omega arith)
          ∙ is_valid_utf8-encoded cs hs)
      | inr more'' ↦
          rw (more'', lt→ltb c 0x200000 (omega arith))
            (lead_goes_on (suc (length cs)) _ 240 (c / 2 ^ 18 % 8) 3
                (continuation c 12 ∷ continuation c 6 ∷ continuation c 0 ∷ encoded cs) (omega arith)
                (first_of_four (c / 2 ^ 18)) (wanted_three (c / 2 ^ 18 % 8) (omega arith))
                (omega arith)
              ∙ is_valid_utf8-encoded cs hs)
    ])
  ])
]
