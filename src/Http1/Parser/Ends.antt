-- ===== src/Http1/Parser/Ends.antt =====
-- src/xzero/http/http1/Parser.cc: the loop of `parseFragment` ends.
use x.Base.{
  not, ◌&&◌, ap, Bool-cases, inl, inr, List, ℕ, zero, suc, ◌+◌, ◌*◌, ◌≤◌, ◌<◌, ◌≡◌, refl, arith,
  Bytes, [], ◌∷◌, length, drop, length-drop,
}
use x.Http1.State.{Mode, new_parser, Parser, State, Event, message_begin, content_begin}
use x.Http1.Parser.Step.{Round, goes, stops, throws, fails}
use x.Http1.Parser.Loop.{
  finish, is_negative, is_message, proceed, Result, used, stopped, thrown, failed, stuck, after,
  after_loop, received, run, parse_fragment,
}
use x.Http1.Parser.Progress.{
  rank, rank_bound, IsValid, become-IsValid, Progress, round-Progress, received-IsValid,
}

abbrev pub Enough : ℕ → Parser → Bytes → Type 0
Enough fuel p src = 4 * length src + rank p.state < fuel

-- What holds of every parser and rest of the bytes from which less is left to do.
abbrev Below : State → Bytes → (Parser → Bytes → Type 0) → Type 0
Below s src P =
    (q : Parser) (left : Bytes)
    → IsValid q
    → 4 * length left + rank q.state < 4 * length src + rank s
    → P q left

-- The loop came to an end, with less to take, and a parser that is valid again.
abbrev pub Ends : Bytes → Result → Type 0
Ends src (used q es) = IsValid q
Ends src (stopped q left es) = IsValid q × (length left ≤ length src)
Ends src (thrown q es) = IsValid q
Ends src (failed f) = Unit
Ends src stuck = ⊥

after-Ends :
    (src left : Bytes) (es : List Event) (r : Result)
    → length left ≤ length src
    → Ends left r
    → Ends src (after es r)
after-Ends src left es (used q fs) h v = v
after-Ends src left es (stopped q rest fs) h (v, k) = (v, omega arith)
after-Ends src left es (thrown q fs) h v = v
after-Ends src left es (failed f) h v = tt
after-Ends src left es stuck h v = v

finish-Ends : (s : State) (p : Parser) → IsValid p → Ends [] (finish s p)
unfolding finish
finish-Ends content_begin p v =
    elim (Bool-cases (is_negative p.content_length && not p.chunked && not (is_message p.mode))) [
      | inl over ↦ rw over (become-IsValid message_begin (omega arith) v, omega arith)
      | inr more ↦ rw more v
    ]
finish-Ends message_begin p v = v
finish-Ends _ p v = v

after_loop-Ends : (p : Parser) → IsValid p → Ends [] (after_loop p)
unfolding after_loop
after_loop-Ends p v = finish-Ends p.state p v

module _ (s : State) (src : Bytes) (next : Parser → Bytes → Result) where
  proceed-eq :
      (next' : Parser → Bytes → Result) (r : Round)
      → Progress s src r
      → Below s src (λ q left. next q left ≡ next' q left)
      → proceed next src r ≡ proceed next' src r
  proceed-eq next' (goes n q es) (v, less, bound) h =
      ap (after es)
        (h (received n q) (drop n src) (received-IsValid n q v) (omega (arith, length-drop n src)))
  proceed-eq next' (stops n q es) g h = refl
  proceed-eq next' (throws n q) g h = refl
  proceed-eq next' (fails f) g h = refl

  proceed-Ends :
      (r : Round)
      → Progress s src r
      → Below s src (λ q left. Ends left (next q left))
      → Ends src (proceed next src r)
  proceed-Ends (goes n q es) (v, less, bound) h =
      after-Ends src (drop n src) es _ (omega (arith, length-drop n src))
        (h (received n q) (drop n src) (received-IsValid n q v) (omega (arith, length-drop n src)))
  proceed-Ends (stops n q es) (v, bound) h =
      (received-IsValid n q v, omega (arith, length-drop n src))
  proceed-Ends (throws n q) v h = received-IsValid n q v
  proceed-Ends (fails f) g h = tt

-- All fuel that is enough gives the same result.
pub run-eq-run :
    (fuel fuel' : ℕ) (p : Parser) (src : Bytes)
    → IsValid p
    → Enough fuel p src
    → Enough fuel' p src
    → run fuel p src ≡ run fuel' p src
unfolding run
run-eq-run zero fuel' p src v h k = absurd (omega arith)
run-eq-run (suc fuel) zero p src v h k = absurd (omega arith)
run-eq-run (suc fuel) (suc fuel') p [] v h k = refl
run-eq-run (suc fuel) (suc fuel') p (b ∷ rest) v h k =
    proceed-eq p.state (b ∷ rest) (run fuel) (run fuel') _ (round-Progress p.state p b rest refl v)
      λ q left w less. run-eq-run fuel fuel' q left w (omega arith) (omega arith)

pub run-Ends :
    (fuel : ℕ) (p : Parser) (src : Bytes)
    → IsValid p
    → Enough fuel p src
    → Ends src (run fuel p src)
unfolding run
run-Ends zero p src v h = absurd (omega arith)
run-Ends (suc fuel) p [] v h = after_loop-Ends p v
run-Ends (suc fuel) p (b ∷ rest) v h =
    proceed-Ends p.state (b ∷ rest) (run fuel) _ (round-Progress p.state p b rest refl v)
      λ q left w less. run-Ends fuel q left w (omega arith)

pub parse_fragment-Enough : (p : Parser) (chunk : Bytes) → Enough (4 * length chunk + 4) p chunk
parse_fragment-Enough p chunk = omega (arith, rank_bound p.state)

-- A call of a valid parser with any fragment comes to its end, whatever the bytes and wherever in a
-- message the parser stands. If it returns or throws, the parser is valid for the next call, and what is
-- left is no longer than the fragment; else it took a step that has no meaning, such as an overflow.
pub parse_fragment-Ends :
    (p : Parser) (chunk : Bytes) → IsValid p → Ends chunk (parse_fragment p chunk)
unfolding parse_fragment
parse_fragment-Ends p chunk v = run-Ends _ p chunk v (parse_fragment-Enough p chunk)

pub new_parser-IsValid : (mode : Mode) → IsValid (new_parser mode)
new_parser-IsValid mode = omega arith
