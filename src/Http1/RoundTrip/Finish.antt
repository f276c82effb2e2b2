-- ===== src/Http1/RoundTrip/Finish.antt =====
-- src/xzero/http/http1/Parser.cc: to the end of a message.
use x.Base.{
  ℕ, suc, ◌+◌, ◌*◌, ◌≡◌, ap, ◌∙◌, arith, List, ◌∷◌, ◌++◌, Bytes, length, drop, Option, none, some,
}
use x.Http1.State.{Parser, Event}
use x.Http1.Parser.Step.{stops}
use x.Http1.Parser.Loop.{
  round, received, after, run, proceed, parse_fragment, Result, used, stopped, thrown, failed,
  stuck,
}
use x.Http1.Parser.Progress.{IsValid, rank_bound}
use x.Http1.Parser.Ends.{run-eq-run, parse_fragment-Enough}
use x.Http1.RoundTrip.Leads.{counted, Reaches}

-- What a call told the listener up to the end of a message, and what it left of the fragment.
abbrev pub told : Result → Option (Bytes × List Event)
told (used p es) = none
told (stopped p left es) = some (left, es)
told (thrown p es) = none
told (failed f) = none
told stuck = none

told-after :
    (es fs : List Event) (left : Bytes) (r : Result)
    → told r ≡ some (left, fs)
    → told (after es r) ≡ some (left, es ++ fs)
told-after es fs left (used p gs) h = cc
told-after es fs left (stopped p rest gs) h = ground arith
told-after es fs left (thrown p gs) h = cc
told-after es fs left (failed f) h = cc
told-after es fs left stuck h = cc

-- To parse `src` at `p` ends a message in front of `left`.
pub record Finishes (p : Parser) (src : Bytes) (es : List Event) (left : Bytes) : Type 0 where
  pub ends :
      (n : ℕ) → IsValid (counted n p) → told (parse_fragment (counted n p) src) ≡ some (left, es)

infixr 6 ◌finally◌
pub ◌finally◌ :
    {p q : Parser} {src left rest : Bytes} {es fs : List Event}
    → Reaches p src es q left
    → Finishes q left fs rest
    → Finishes p src (es ++ fs) rest
◌finally◌ {p} {q} {src} {left} {rest} {es} {fs} h k = record {
  ends = λ n v.
      let (m, leads) = h.leads n in
      let (w, e) = leads v in
      rw e (told-after es fs rest (parse_fragment (counted m q) left) (k.ends m w));
}

pub stops-Finishes :
    (p q : Parser) (b k : ℕ) (src left : Bytes) (es : List Event)
    → ((n : ℕ) → round p.state (counted n p) b (b ∷ src) ≡ stops k (counted n q) es)
    → drop k (b ∷ src) ≡ left
    → Finishes p (b ∷ src) es left
unfolding parse_fragment run
stops-Finishes p q b k src left es e d = record {
  ends = λ n v.
      let fuel = 4 * suc (length src) + 4 in
      let at = counted n p in
      let one : parse_fragment at (b ∷ src)
          ≡ stopped (received k (counted n q)) (drop k (b ∷ src)) es =
        run-eq-run fuel (suc fuel) at (b ∷ src) v (parse_fragment-Enough at (b ∷ src))
          (omega (arith, rank_bound p.state))
        ∙ ap (proceed (run fuel) (b ∷ src)) (e n) in
      ap told one ∙ ap (λ r. some (r, es)) d;
}
