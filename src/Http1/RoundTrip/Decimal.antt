-- ===== src/Http1/RoundTrip/Decimal.antt =====
-- src/xzero/Buffer.h: `toInt` of what `push_back` prints.
use x.Base.{
  ℕ, zero, suc, ◌+◌, ◌-◌, ◌*◌, ◌/◌, ◌%◌, ◌^◌, ◌<◌, ◌≡◌, refl, sym, ap, ◌∙◌, arith, true, false, [],
  ◌∷◌, ◌++◌, append_assoc, append-nil, Bytes, ltb, some, ◌==◌, All-append, All-map, ok, Bool-cases,
  inl, inr, ltb→lt, lt→ltb,
}
use x.Http1.Chars.{is_digit, is_text, to_int_digits, to_int}
use x.Http1.Numeral.{digit, numeral_loop, decimal}
use x.Http1.RoundTrip.Leads.{Are}
use x.Http1.RoundTrip.Header.{IsValue, is_start}

-- The numbers that have `fuel` and one digits.
abbrev pub cap : ℕ → ℕ → ℕ
cap base zero = base
cap base (suc fuel) = base * cap base fuel

digit-IsDigit : (d : ℕ) → d < 10 → is_digit (digit d) ≡ true
unfolding is_digit digit
digit-IsDigit d h = ground arith

digit-value : (d : ℕ) → d < 10 → digit d - b'0' ≡ d
unfolding digit
digit-value d h = ground arith

numeral-Are : (fuel n : ℕ) → Are is_digit (numeral_loop 10 fuel n)
unfolding numeral_loop
numeral-Are zero n = (digit-IsDigit (n % 10) (omega arith), tt)
numeral-Are (suc fuel) n = elim (Bool-cases (ltb n 10)) [
  | inl e ↦ rw e (digit-IsDigit n (ltb→lt n 10 e), tt)
  | inr e ↦ rw e (
      All-append _ (numeral_loop 10 fuel (n / 10)) _ (numeral-Are fuel (n / 10))
        (digit-IsDigit (n % 10) (omega arith), tt))
]

-- One more digit.
to_int_digits-digit :
    (v d : ℕ) (rest : Bytes)
    → d < 10
    → v * 10 + d < 2 ^ 31
    → to_int_digits v (digit d ∷ rest) ≡ to_int_digits (v * 10 + d) rest
unfolding to_int_digits
to_int_digits-digit v d rest h k =
    let t : ltb (v * 10 + d) (2 ^ 31) ≡ true = lt→ltb _ _ k in
    rw (digit-IsDigit d h, digit-value d h, t, to_int_digits)
      (ap (λ k. to_int_digits (v * 10 + k) rest) (digit-value d h))

to_int_digits-numeral :
    (fuel n : ℕ) (rest : Bytes)
    → n < cap 10 fuel
    → n < 2 ^ 31
    → to_int_digits 0 (numeral_loop 10 fuel n ++ rest) ≡ to_int_digits n rest
unfolding numeral_loop
to_int_digits-numeral zero n rest c h =
    let e : n % 10 ≡ n = omega arith in
    let f : 0 * 10 + n ≡ n = omega arith in
    rw e (to_int_digits-digit 0 n rest c (omega arith) ∙ ap (λ v. to_int_digits v rest) f)
to_int_digits-numeral (suc fuel) n rest c h = elim (Bool-cases (ltb n 10)) [
  | inl e ↦
      let f : 0 * 10 + n ≡ n = omega arith in
      rw e (
        to_int_digits-digit 0 n rest (ltb→lt n 10 e) (omega arith)
        ∙ ap (λ v. to_int_digits v rest) f)
  | inr e ↦
      let d = n % 10 in
      let f : n / 10 * 10 + d ≡ n = omega arith in
      rw (e, append_assoc (numeral_loop 10 fuel (n / 10)) (digit d ∷ []) rest)
        (to_int_digits-numeral fuel (n / 10) (digit d ∷ rest) (omega arith) (omega arith)
          ∙ to_int_digits-digit (n / 10) d rest (omega arith) (omega arith)
          ∙ ap (λ v. to_int_digits v rest) f)
]

-- A number is written with a digit at least.
numeral-cons : (fuel n : ℕ) → (c : ℕ) × (cs : Bytes) × (numeral_loop 10 fuel n ≡ c ∷ cs)
unfolding numeral_loop
numeral-cons zero n = (digit (n % 10), [], refl)
numeral-cons (suc fuel) n = elim (Bool-cases (ltb n 10)) [
  | inl e ↦ (digit n, [], rw e refl)
  | inr e ↦
      let (c, cs, f) = numeral-cons fuel (n / 10) in (c, cs ++ digit (n % 10) ∷ [], rw (e, f) refl)
]

digit-is_start : (c : ℕ) → is_digit c ≡ true → is_start c ≡ true
unfolding is_text is_digit
digit-is_start c h = ground arith

digit-is_text : (c : ℕ) → is_digit c ≡ true → is_text c ≡ true
unfolding is_text is_digit
digit-is_text c h = ground arith

digits-IsValue : (bs : Bytes) → Are is_digit bs → (c : ℕ) (cs : Bytes) → bs ≡ c ∷ cs → IsValue bs
digits-IsValue [] h c cs e = cc
digits-IsValue (b ∷ bs) (h, hs) c cs e = (digit-is_start b h, All-map bs digit-is_text hs)

pub decimal-IsValue : (n : ℕ) → IsValue (decimal n)
unfolding decimal
decimal-IsValue n = let (c, cs, e) = numeral-cons 64 n in digits-IsValue _ (numeral-Are 64 n) c cs e

to_int-empty : (n : ℕ) → to_int_digits 0 [] ≡ ok n → to_int [] ≡ ok (some n)
unfolding to_int to_int_digits
to_int-empty n e = ground arith

to_int_digits-end : (n : ℕ) → to_int_digits n [] ≡ ok n
unfolding to_int_digits
to_int_digits-end n = refl

-- There is no sign in front of digits.
to_int-unsigned :
    (bs : Bytes) (n : ℕ) → Are is_digit bs → to_int_digits 0 bs ≡ ok n → to_int bs ≡ ok (some n)
unfolding to_int is_digit
to_int-unsigned [] n h e = to_int-empty n e
to_int-unsigned (b ∷ bs) n (h, hs) e =
    let m : (b == b'-') ≡ false = ground arith in
    let p : (b == b'+') ≡ false = ground arith in rw (m, p, e) refl

pub to_int-decimal : (n : ℕ) → n < 2 ^ 31 → to_int (decimal n) ≡ ok (some n)
unfolding decimal
to_int-decimal n h = to_int-unsigned (numeral_loop 10 64 n) n (numeral-Are 64 n) (
    ap (to_int_digits 0) (sym (append-nil (numeral_loop 10 64 n)))
    ∙ to_int_digits-numeral 64 n [] (omega arith) h
    ∙ to_int_digits-end n)
