-- ===== src/Http1/Parser/Splits.antt =====
-- src/xzero/http/http1/Parser.cc: a round at the end of a fragment, and where more follows.
use x.Base.{
  ℕ, zero, suc, ◌+◌, ◌-◌, ◌<◌, ◌≤◌, ◌≡◌, refl, ap, arith, [], ◌∷◌, ◌++◌, Bytes, length, take, min,
  Option, none, some, true, ltb, leb, Bool-cases, inl, inr, length-append, leb→le,
}
use x.Http1.State.{Parser, State, body, message_begin, content, content_endless, content_chunk_body}
use x.Http1.Parser.Step.{Round, goes}
use x.Http1.Parser.Content.{
  content_endless_round, content_left_round, content_round, chunk_body_round, length_of,
}
use x.Http1.Parser.Loop.{round, received}
use x.Http1.Parser.Bulk.{
  Continues, goes_on, content_left-all, content_left-Continues, chunk_body-all,
  chunk_body-Continues,
}

-- A round `r` on all of `xs`, and what `whole` says where bytes follow `xs`: the same, or that the
-- round took all of `xs` and goes on with those bytes in the same state.
pub data Splits (s : State) (xs : Bytes) (r : Round) (whole : Bytes → Round) : Type 0 where
  plain : ((ys : Bytes) → whole ys ≡ r) → Splits s xs r whole
  bulk :
      (q : Parser)
      → q.state ≡ s
      → r ≡ goes (length xs) q (body xs ∷ [])
      → ((c : ℕ) (ys : Bytes)
          → Continues xs (round s (received (length xs) q) c (c ∷ ys)) (whole (c ∷ ys)))
      → Splits s xs r whole

take-append-le : (n : ℕ) (xs ys : Bytes) → n ≤ length xs → take n (xs ++ ys) ≡ take n xs
take-append-le zero xs ys h = refl
take-append-le (suc n) [] ys h = absurd (omega arith)
take-append-le (suc n) (x ∷ xs) ys h = ap (◌∷◌ x) (take-append-le n xs ys (omega arith))

content_left-Splits :
    (left : Option ℕ) (p : Parser) (xs : Bytes)
    → p.state ≡ content
    → Splits content xs (content_left_round left p xs) (λ ys. content_left_round left p (xs ++ ys))
unfolding content_left_round round content_round
content_left-Splits none p xs e = plain (λ ys. refl)
content_left-Splits (some left) p xs e = elim (Bool-cases (leb left (length xs))) [
  | inl enough ↦ plain λ ys.
      let le = leb→le left (length xs) enough in
      let m : min left (length xs + length ys) ≡ left = omega arith in
      let n : min left (length xs) ≡ left = omega arith in
      let b : leb left (length xs + length ys) ≡ true = ground arith in
      rw (length-append xs ys, m, n, b, enough, take-append-le left xs ys le) refl
  | inr short ↦
      let h : length xs < left = ground arith in
      bulk (record p { content_length = some (left - length xs) }) e (content_left-all left p xs h)
        λ c ys. content_left-Continues left p xs (c ∷ ys) h
]

chunk_body-Splits :
    (p : Parser) (b : ℕ) (xs : Bytes)
    → p.state ≡ content_chunk_body
    → Splits content_chunk_body xs (chunk_body_round p b xs) (λ ys. chunk_body_round p b (xs ++ ys))
unfolding chunk_body_round round
chunk_body-Splits p b xs e =
    let left = length_of p.content_length in
    elim (Bool-cases (ltb 0 left)) [
      | inr none_left ↦ plain (λ ys. rw none_left refl)
      | inl some_left ↦ elim (Bool-cases (leb left (length xs))) [
        | inl enough ↦ plain λ ys.
            let le = leb→le left (length xs) enough in
            let m : min left (length xs + length ys) ≡ left = omega arith in
            let n : min left (length xs) ≡ left = omega arith in
            rw (length-append xs ys, m, n, some_left, take-append-le left xs ys le) refl
        | inr short ↦
            let h : length xs < left = ground arith in
            bulk (record p { content_length = some (left - length xs) }) e (chunk_body-all p b xs h)
              λ c ys. chunk_body-Continues p b c xs (c ∷ ys) h
      ]
    ]

content_endless-Splits :
    (p : Parser) (xs : Bytes)
    → p.state ≡ content_endless
    → Splits content_endless xs
        (content_endless_round p xs)
        (λ ys. content_endless_round p (xs ++ ys))
unfolding content_endless_round round
content_endless-Splits p xs e =
    bulk p e refl λ c ys. rw (length-append xs (c ∷ ys)) (goes_on (ground arith))

pub round-Splits :
    (s : State) (p : Parser) (b : ℕ) (rest : Bytes)
    → p.state ≡ s
    → Splits s (b ∷ rest) (round s p b (b ∷ rest)) (λ ys. round s p b ((b ∷ rest) ++ ys))
unfolding round content_round
round-Splits content p b rest e = content_left-Splits p.content_length p (b ∷ rest) e
round-Splits content_endless p b rest e = content_endless-Splits p (b ∷ rest) e
round-Splits content_chunk_body p b rest e = chunk_body-Splits p b (b ∷ rest) e
round-Splits message_begin p b rest e = plain (λ ys. refl)
round-Splits _ p b rest e = plain (λ ys. refl)
