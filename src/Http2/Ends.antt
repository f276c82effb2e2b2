-- ===== src/Http2/Ends.antt =====
-- src/xzero/http/http2/Parser.cc: how `parseFragment` comes to its end.
use x.Base.{
  ℕ, zero, suc, ◌+◌, ◌≤◌, ◌<◌, ◌≡◌, refl, sym, ap, ◌∙◌, arith, Bool-cases, inl, inr, ltb, Bytes,
  length, drop, Outcome, ok, raise, ◌>>=◌,
}
use x.Http2.{read24}
use x.Http2.State.{Parser, framing}
use x.Http2.Parser.{parse_frame, parse_frames, parse_fragment}
use x.Http2.Words.{parse_frames-end, parse_frames-more, parse_fragment-framing}

then_eq {ℓ κ} :
    {A : Type ℓ} {B : Type κ} (r : Outcome A) {f g : A → Outcome B}
    → ((a : A) → f a ≡ g a)
    → (r >>= f) ≡ (r >>= g)
then_eq (ok a) h = h a
then_eq (raise e) h = refl

module _ (chunk : Bytes) where
  -- A round more makes no difference.
  parse_frames-suc :
      (fuel : ℕ) (p : Parser) (offset : ℕ)
      → length chunk ≤ offset + fuel
      → parse_frames fuel p chunk offset ≡ parse_frames (suc fuel) p chunk offset
  parse_frames-suc zero p offset h =
      parse_frames-end zero p chunk offset (omega (arith, h))
      ∙ sym (parse_frames-end 1 p chunk offset (omega (arith, h)))
  parse_frames-suc (suc fuel) p offset h = elim (Bool-cases (ltb (offset + 9) (length chunk))) [
    | inr past ↦
        parse_frames-end (suc fuel) p chunk offset (ground (arith, past))
        ∙ sym (parse_frames-end (suc (suc fuel)) p chunk offset (ground (arith, past)))
    | inl before ↦
        (let lt : offset + 9 < length chunk = ground (arith, before) in
          parse_frames-more fuel p chunk offset lt
          ∙ then_eq (read24 (drop offset chunk)) (λ size.
            then_eq (parse_frame p (drop offset chunk))
              (λ q. parse_frames-suc fuel q (offset + (size + 9)) (omega (arith, h))))
          ∙ sym (parse_frames-more (suc fuel) p chunk offset lt))
  ]

  parse_frames-enough :
      (more : ℕ) (p : Parser) (offset : ℕ)
      → parse_frames (more + length chunk) p chunk offset
        ≡ parse_frames (length chunk) p chunk offset
  parse_frames-enough zero p offset = ap (λ (n : ℕ). parse_frames n p chunk offset) (omega arith)
  parse_frames-enough (suc more) p offset =
      ap (λ (n : ℕ). parse_frames n p chunk offset) (omega arith)
      ∙ sym (parse_frames-suc (more + length chunk) p offset (omega arith))
      ∙ parse_frames-enough more p offset

-- After the preface `parseFragment` does as many rounds as the chunk has bytes, if it needs them, and
-- comes to its end by itself within these: with any number of rounds more the result is the same.
pub parse_fragment-enough :
    (p : Parser) (chunk : Bytes) (more : ℕ)
    → p.state ≡ framing
    → parse_frames (more + length chunk) p chunk 0 ≡ parse_fragment p chunk
parse_fragment-enough p chunk more at =
    parse_frames-enough chunk more p 0 ∙ sym (parse_fragment-framing p chunk at)
