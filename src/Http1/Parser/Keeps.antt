-- ===== src/Http1/Parser/Keeps.antt =====
-- src/xzero/http/http1/Parser.cc: what the rounds of `parseFragment` never change.
use x.Base.{List, ℕ, zero, suc, ◌≡◌, arith, Bytes, [], ◌∷◌, Option, none, some, true, drop, ◌∙◌}
use x.Http1.State.{content_begin, message_begin, Parser, State, Event, content}
use x.Http1.Parser.Step.{Round, goes, stops, throws, fails}
use x.Http1.Parser.Headers.{note_header}
use x.Http1.Parser.Content.{content_left_round}
use x.Http1.Parser.Loop.{
  round, proceed, Result, used, stopped, thrown, failed, stuck, after, finish, after_loop, received,
  run,
}

-- The mode, and that the content is chunked.
pub record Keeps (p q : Parser) : Type 0 where
  pub mode : q.mode ≡ p.mode
  pub chunked : p.chunked ≡ true → q.chunked ≡ true

pub Keeps-trans : {p q r : Parser} → Keeps p q → Keeps q r → Keeps p r
Keeps-trans h k = record { mode = k.mode ∙ h.mode; chunked = λ e. k.chunked (h.chunked e) }

abbrev pub RoundKeeps : Parser → Round → Type 0
RoundKeeps p (goes n q es) = Keeps p q
RoundKeeps p (stops n q es) = Keeps p q
RoundKeeps p (throws n q) = Keeps p q
RoundKeeps p (fails f) = Unit

content_left-Keeps :
    (left : Option ℕ) (p : Parser) (src : Bytes) → RoundKeeps p (content_left_round left p src)
unfolding content_left_round
content_left-Keeps none p src = ground arith
content_left-Keeps (some left) p src = ground arith

pub round-Keeps : (s : State) (p : Parser) (b : ℕ) (src : Bytes) → RoundKeeps p (round s p b src)
unfolding round note_header
round-Keeps content p b src = content_left-Keeps p.content_length p src
round-Keeps _ p b src = ground arith

-- The parser that a call leaves.
abbrev pub ResultKeeps : Parser → Result → Type 0
ResultKeeps p (used q es) = Keeps p q
ResultKeeps p (stopped q left es) = Keeps p q
ResultKeeps p (thrown q es) = Keeps p q
ResultKeeps p (failed f) = Unit
ResultKeeps p stuck = Unit

after-ResultKeeps :
    {p q : Parser} (es : List Event) (r : Result)
    → Keeps p q
    → ResultKeeps q r
    → ResultKeeps p (after es r)
after-ResultKeeps es (used q fs) h k = Keeps-trans h k
after-ResultKeeps es (stopped q left fs) h k = Keeps-trans h k
after-ResultKeeps es (thrown q fs) h k = Keeps-trans h k
after-ResultKeeps es (failed f) h k = tt
after-ResultKeeps es stuck h k = tt

finish-Keeps : (s : State) (p : Parser) → ResultKeeps p (finish s p)
unfolding finish
finish-Keeps content_begin p = ground arith
finish-Keeps message_begin p = ground arith
finish-Keeps _ p = ground arith

proceed-Keeps :
    (next : Parser → Bytes → Result) (p : Parser) (src : Bytes) (r : Round)
    → RoundKeeps p r
    → ((q : Parser) (left : Bytes) → ResultKeeps q (next q left))
    → ResultKeeps p (proceed next src r)
proceed-Keeps next p src (goes n q es) k h =
    after-ResultKeeps es _ (record { mode = k.mode; chunked = k.chunked })
      (h (received n q) (drop n src))
proceed-Keeps next p src (stops n q es) k h = record { mode = k.mode; chunked = k.chunked }
proceed-Keeps next p src (throws n q) k h = record { mode = k.mode; chunked = k.chunked }
proceed-Keeps next p src (fails f) k h = tt

pub run-Keeps : (fuel : ℕ) (p : Parser) (src : Bytes) → ResultKeeps p (run fuel p src)
unfolding run after_loop
run-Keeps zero p src = tt
run-Keeps (suc fuel) p [] = finish-Keeps p.state p
run-Keeps (suc fuel) p (b ∷ rest) =
    proceed-Keeps (run fuel) p (b ∷ rest) _ (round-Keeps p.state p b (b ∷ rest)) (run-Keeps fuel)
