-- ===== src/Http1/Parser/Bulk.antt =====
-- src/xzero/http/http1/Parser.cc: the rounds that take content, as much of it as the fragment has.
use x.Base.{
  ℕ, suc, ◌+◌, ◌-◌, ◌<◌, ◌≡◌, refl, ap, arith, [], ◌∷◌, ◌++◌, Bytes, length, take, drop, min, true,
  false, some, ltb, leb, Bool-cases, inl, inr, length-append,
}
use x.Http1.State.{Parser, State, body, message_end, message_begin}
use x.Http1.Parser.Step.{Round, goes, stops}
use x.Http1.Parser.Content.{content_left_round, chunk_body_round, length_of}
use x.Http1.Parser.Loop.{Result, stopped, after, received, proceed}
use x.Http1.Parser.Observe.{observe, bytewise-parts, observe-after, after-after}

-- A round on `ys`, after one that took all of `xs`, and the one round that takes both.
pub data Continues (xs : Bytes) : Round → Round → Type 0 where
  goes_on :
      {n : ℕ} {p q : Parser} {part : Bytes}
      → received (length xs + n) q ≡ received n p
      → Continues xs (goes n p (body part ∷ [])) (goes (length xs + n) q (body (xs ++ part) ∷ []))
  stops_then :
      {n : ℕ} {p q : Parser} {part : Bytes}
      → received (length xs + n) q ≡ received n p
      → Continues xs
          (stops n p (body part ∷ message_end ∷ []))
          (stops (length xs + n) q (body (xs ++ part) ∷ message_end ∷ []))

pub drop-beyond : (n : ℕ) (xs ys : Bytes) → drop (length xs + n) (xs ++ ys) ≡ drop n ys
drop-beyond n [] ys = let e : 0 + n ≡ n = omega arith in rw e refl
drop-beyond n (x ∷ xs) ys =
    let e : suc (length xs) + n ≡ suc (length xs + n) = omega arith in rw e (drop-beyond n xs ys)

take-beyond : (n : ℕ) (xs ys : Bytes) → take (length xs + n) (xs ++ ys) ≡ xs ++ take n ys
take-beyond n [] ys = let e : 0 + n ≡ n = omega arith in rw e refl
take-beyond n (x ∷ xs) ys =
    let e : suc (length xs) + n ≡ suc (length xs + n) = omega arith in
    rw e (ap (◌∷◌ x) (take-beyond n xs ys))

pub Continues-proceed :
    (next : Parser → Bytes → Result) (xs ys : Bytes) {r r' : Round}
    → Continues xs r r'
    → observe (proceed next (xs ++ ys) r') ≡ observe (after (body xs ∷ []) (proceed next ys r))
Continues-proceed next xs ys (goes_on {n} {p} {q} {part} e) =
    rw
      (
        e,
        drop-beyond n xs ys,
        after-after (body xs ∷ []) (body part ∷ []) (next (received n p) (drop n ys)),
      )
      (observe-after _ _ _ _ (bytewise-parts xs part []) refl)
Continues-proceed next xs ys (stops_then {n} {p} {q} {part} e) =
    rw (e, drop-beyond n xs ys)
      (ap (stopped (received n p) (drop n ys)) (bytewise-parts xs part (message_end ∷ [])))

-- The parser after a round that took all of `xs`, with more to come.
abbrev pub passed : Parser → ℕ → Bytes → Parser
passed p left xs = received (length xs) (record p { content_length = some (left - length xs) })

take_self : (xs : Bytes) → take (length xs) xs ≡ xs
take_self [] = refl
take_self (x ∷ xs) = ap (◌∷◌ x) (take_self xs)

pub content_left-all :
    (left : ℕ) (p : Parser) (xs : Bytes)
    → length xs < left
    → content_left_round (some left) p xs
      ≡ goes (length xs) (record p { content_length = some (left - length xs) }) (body xs ∷ [])
unfolding content_left_round
content_left-all left p xs h =
    let m : min left (length xs) ≡ length xs = omega arith in
    let b : leb left (length xs) ≡ false = ground arith in rw (m, b, take_self xs) refl

passed_twice :
    (p : Parser) (left n : ℕ) (xs : Bytes) (s : State)
    → received
        (length xs + n)
        (record p { content_length = some (left - (length xs + n)); state = s })
      ≡ received n
          (record (passed p left xs) { content_length = some (left - length xs - n); state = s })
passed_twice p left n xs s = ground arith

pub content_left-Continues :
    (left : ℕ) (p : Parser) (xs ys : Bytes)
    → length xs < left
    → Continues xs
        (content_left_round (some (left - length xs)) (passed p left xs) ys)
        (content_left_round (some left) p (xs ++ ys))
unfolding content_left_round
content_left-Continues left p xs ys h =
    let n = min (left - length xs) (length ys) in
    let m : min left (length xs + length ys) ≡ length xs + n = omega arith in
    let b : leb left (length xs + length ys) ≡ leb (left - length xs) (length ys) = ground arith in
    rw (length-append xs ys, m, b, take-beyond n xs ys)
      (elim (Bool-cases (leb (left - length xs) (length ys))) [
        | inl e ↦ rw e (stops_then (passed_twice p left n xs message_begin))
        | inr e ↦ rw e (goes_on (passed_twice p left n xs p.state))
      ])

pub chunk_body-all :
    (p : Parser) (b : ℕ) (xs : Bytes)
    → length xs < length_of p.content_length
    → chunk_body_round p b xs
      ≡ goes
          (length xs)
          (record p { content_length = some (length_of p.content_length - length xs) })
          (body xs ∷ [])
unfolding chunk_body_round
chunk_body-all p b xs h =
    let left = length_of p.content_length in
    let m : min left (length xs) ≡ length xs = omega arith in
    let t : ltb 0 left ≡ true = ground arith in rw (m, t, take_self xs) refl

pub chunk_body-Continues :
    (p : Parser) (b c : ℕ) (xs ys : Bytes)
    → length xs < length_of p.content_length
    → Continues xs
        (chunk_body_round (passed p (length_of p.content_length) xs) c ys)
        (chunk_body_round p b (xs ++ ys))
unfolding chunk_body_round
chunk_body-Continues p b c xs ys h =
    let left = length_of p.content_length in
    let n = min (left - length xs) (length ys) in
    let m : min left (length xs + length ys) ≡ length xs + n = omega arith in
    let t : ltb 0 left ≡ true = ground arith in
    let u : ltb 0 (left - length xs) ≡ true = ground arith in
    rw (length-append xs ys, m, t, u, take-beyond n xs ys)
      (goes_on (passed_twice p left n xs p.state))
