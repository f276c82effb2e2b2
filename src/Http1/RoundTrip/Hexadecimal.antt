-- ===== src/Http1/RoundTrip/Hexadecimal.antt =====
-- src/xzero/http/http1: the size of a chunk, as it is written and read.
use x.Base.{
  ℕ, zero, suc, ◌+◌, ◌*◌, ◌/◌, ◌%◌, ◌^◌, ◌<◌, ◌≡◌, ap, arith, true, [], ◌∷◌, ◌++◌, append_assoc,
  Bytes, ltb, some, Bool-cases, inl, inr, if◌then◌else◌, ltb→lt,
}
use x.Http1.Chars.{is_xdigit, hex_into}
use x.Http1.State.{Parser, content_chunk_size}
use x.Http1.Numeral.{digit, numeral_loop}
use x.Http1.Parser.Step.{goes}
use x.Http1.Parser.Content.{chunk_size_round}
use x.Http1.Parser.Loop.{round}
use x.Http1.RoundTrip.Leads.{Reaches, ◌then◌, advance-Reaches, counted, advance, then_advance}
use x.Http1.RoundTrip.Decimal.{cap}

-- A parser in the middle of a size, of which `n` is read.
abbrev pub at_size : Parser → ℕ → Parser
at_size p n = record p { state = content_chunk_size; content_length = some n }

pub digit-IsXdigit : (d : ℕ) → d < 16 → is_xdigit (digit d) ≡ true
unfolding is_xdigit digit
digit-IsXdigit d h = ground arith

digit-round :
    (p : Parser) (v d : ℕ)
    → d < 16
    → v * 16 + d < 2 ^ 62
    → chunk_size_round (at_size p v) (digit d) ≡ goes 1 (at_size p (v * 16 + d)) []
unfolding chunk_size_round hex_into digit
digit-round p v d h k = ground arith

digit-Reaches :
    (p : Parser) (v d : ℕ) (rest : Bytes)
    → d < 16
    → v * 16 + d < 2 ^ 62
    → Reaches (at_size p v) (digit d ∷ rest) [] (at_size p (v * 16 + d)) rest
unfolding round
digit-Reaches p v d rest h k =
    advance-Reaches 1 (λ n. (n + 1) % 2 ^ 64)
      (λ n. ap (then_advance (advance 0) (digit d ∷ rest)) (digit-round (counted n p) v d h k))

pub numeral-Reaches :
    (p : Parser) (fuel n : ℕ) (rest : Bytes)
    → n < cap 16 fuel
    → n < 2 ^ 62
    → Reaches (at_size p 0) (numeral_loop 16 fuel n ++ rest) [] (at_size p n) rest
unfolding numeral_loop
numeral-Reaches p zero n rest c h =
    let e : n % 16 ≡ n = omega arith in
    let f : 0 * 16 + n ≡ n = omega arith in
    let r : Reaches (at_size p 0) (digit n ∷ rest) [] (at_size p (0 * 16 + n)) rest =
      digit-Reaches p 0 n rest c (omega arith) in
    rw e (rw f at r)
numeral-Reaches p (suc fuel) n rest c h = elim (Bool-cases (ltb n 16)) [
  | inl e ↦
      let f : 0 * 16 + n ≡ n = omega arith in
      let r : Reaches (at_size p 0) (digit n ∷ rest) [] (at_size p (0 * 16 + n)) rest =
        digit-Reaches p 0 n rest (ltb→lt n 16 e) (omega arith) in
      rw e (rw f at r)
  | inr e ↦
      let d = n % 16 in
      let f : n / 16 * 16 + d ≡ n = omega arith in
      let r : Reaches (at_size p (n / 16)) (digit d ∷ rest) [] (at_size p (n / 16 * 16 + d)) rest =
        digit-Reaches p (n / 16) d rest (omega arith) (omega arith) in
      rw (e, append_assoc (numeral_loop 16 fuel (n / 16)) (digit d ∷ []) rest)
        (numeral-Reaches p fuel (n / 16) (digit d ∷ rest) (omega arith) (omega arith)
          then (rw f at r))
]

-- The bytes begin with a digit of a size.
abbrev pub StartsHex : Bytes → Type 0
StartsHex [] = ⊥
StartsHex (b ∷ bs) = is_xdigit b ≡ true

pub numeral-StartsHex : (fuel n : ℕ) (rest : Bytes) → StartsHex (numeral_loop 16 fuel n ++ rest)
unfolding numeral_loop
numeral-StartsHex zero n rest = digit-IsXdigit (n % 16) (omega arith)
numeral-StartsHex (suc fuel) n rest = elim (Bool-cases (ltb n 16)) [
  | inl e ↦ rw e (digit-IsXdigit n (ltb→lt n 16 e))
  | inr e ↦
      rw (e, append_assoc (numeral_loop 16 fuel (n / 16)) (digit (n % 16) ∷ []) rest)
        (numeral-StartsHex fuel (n / 16) (digit (n % 16) ∷ rest))
]
