-- ===== src/Http1/Parser/Fragments.antt =====
-- src/xzero/http/http1/Parser.cc: where the bytes of the connection are cut into fragments makes no
-- difference to `parseFragment`.
use x.Base.{
  ℕ, zero, suc, ◌+◌, ◌*◌, ◌<◌, ◌≤◌, ◌≡◌, ◌≢◌, refl, sym, ap, ◌∙◌, arith, [], ◌∷◌, ◌++◌, append-nil,
  Bytes, length, drop, drop-append, length-append, length-drop,
}
use x.Http1.State.{Parser, response, State, body, content_begin, message_begin}
use x.Http1.Parser.Step.{Round, goes, stops, throws, fails}
use x.Http1.Parser.Headers.{content_expected}
use x.Http1.Parser.Loop.{
  round, received, proceed, Result, used, after, finish, after_loop, run, parse_fragment,
}
use x.Http1.Parser.Progress.{
  IsValid, Expects, Progress, rank, rank_bound, round-Progress, received-IsValid,
}
use x.Http1.Parser.Ends.{Enough, run-eq-run, parse_fragment-Enough}
use x.Http1.Parser.Keeps.{Keeps, RoundKeeps, round-Keeps}
use x.Http1.Parser.Observe.{observe, observe-after, then_parse, then_parse-after, after-nil}
use x.Http1.Parser.Bulk.{Continues, Continues-proceed}
use x.Http1.Parser.Splits.{plain, bulk, round-Splits}

-- At the end of a fragment only a response ends, and only if no content is to be expected.
finish-used : (s : State) (p : Parser) → p.mode ≢ response → Expects s p → finish s p ≡ used p []
unfolding finish content_expected
finish-used content_begin p m e = ground arith
finish-used message_begin p m e = refl
finish-used _ p m e = refl

module _ (ys : Bytes) where
  -- What is shown of the rest of a fragment.
  abbrev Joined : (Parser → Bytes → Result) → (Parser → Bytes → Result) → Parser → Bytes → Type 0
  Joined next next' q left = observe (next' q (left ++ ys)) ≡ observe (then_parse (next q left) ys)

  -- A round that does what it does with nothing behind it.
  plain-proceed :
      (next next' : Parser → Bytes → Result) (p : Parser) (xs : Bytes) (r : Round)
      → p.mode ≢ response
      → RoundKeeps p r
      → Progress p.state xs r
      → ((q : Parser) (left : Bytes)
          → q.mode ≢ response
          → IsValid q
          → 4 * length left + rank q.state < 4 * length xs + rank p.state
          → Joined next next' q left)
      → observe (proceed next' (xs ++ ys) r) ≡ observe (then_parse (proceed next xs r) ys)
  plain-proceed next next' p xs (goes n q es) m k (v, less, bound) h =
      rw (drop-append n xs ys bound, then_parse-after es (next (received n q) (drop n xs)) ys)
        (observe-after es es _ _ refl (
          h (received n q) (drop n xs) (λ x. m (sym k.mode ∙ x)) (received-IsValid n q v)
            (omega (arith, length-drop n xs))))
  plain-proceed next next' p xs (stops n q es) m k (v, bound) h =
      rw (drop-append n xs ys bound) refl
  plain-proceed next next' p xs (throws n q) m k v h = refl
  plain-proceed next next' p xs (fails f) m k v h = refl

run-used :
    (fuel : ℕ) (p : Parser) → 0 < fuel → p.mode ≢ response → IsValid p → run fuel p [] ≡ used p []
unfolding run after_loop
run-used zero p h m v = absurd (omega arith)
run-used (suc fuel) p h m v = finish-used p.state p m v.expects

drop_self : (xs : Bytes) → drop (length xs) xs ≡ []
drop_self [] = refl
drop_self (x ∷ xs) = drop_self xs

proceed-run :
    (p : Parser) (g : ℕ) (s : State) (c : ℕ) (cs : Bytes)
    → IsValid p
    → p.state ≡ s
    → Enough (suc g) p (c ∷ cs)
    → proceed (run g) (c ∷ cs) (round s p c (c ∷ cs)) ≡ parse_fragment p (c ∷ cs)
unfolding run parse_fragment
proceed-run p g s c cs v same h =
    rw (← same) (run-eq-run (suc g) _ p (c ∷ cs) v h (parse_fragment-Enough p (c ∷ cs)))

-- A round that takes all there is, with content to come.
module _ (p q : Parser) (xs : Bytes) (v : IsValid q) (m : q.mode ≢ response) where
  all-proceed :
      (fuel : ℕ)
      → 0 < fuel
      → proceed (run fuel) xs (goes (length xs) q (body xs ∷ []))
        ≡ used (received (length xs) q) (body xs ∷ [])
  all-proceed fuel h =
      rw
        (
          drop_self xs,
          run-used fuel (received (length xs) q) h m (received-IsValid (length xs) q v),
        )
        refl

  bulk-proceed :
      (f g : ℕ) (ys : Bytes) (r : Round) (whole : Bytes → Round) (s : State)
      → 0 < f
      → 4 * length (xs ++ ys) ≤ g
      → 0 < length xs
      → q.state ≡ s
      → r ≡ goes (length xs) q (body xs ∷ [])
      → whole [] ≡ r
      → ((c : ℕ) (cs : Bytes)
          → Continues xs (round s (received (length xs) q) c (c ∷ cs)) (whole (c ∷ cs)))
      → observe (proceed (run g) (xs ++ ys) (whole ys))
        ≡ observe (then_parse (proceed (run f) xs r) ys)
  unfolding parse_fragment
  bulk-proceed f g [] r whole s h k l same e none more =
      rw
        (
          none,
          e,
          append-nil xs,
          all-proceed f h,
          all-proceed g (omega (arith, length-append xs [])),
          run-used 4 (received (length xs) q) (omega arith) m (received-IsValid (length xs) q v),
        )
        refl
  bulk-proceed f g (c ∷ cs) r whole s h k l same e none more =
      rw (e, all-proceed f h)
        (Continues-proceed (run g) xs (c ∷ cs) (more c cs)
          ∙ ap (λ t. observe (after (body xs ∷ []) t))
              (proceed-run (received (length xs) q) g s c cs (received-IsValid (length xs) q v) same
                (omega (arith, length-append xs (c ∷ cs), rank_bound q.state))))

pub run-append :
    (f g : ℕ) (p : Parser) (xs ys : Bytes)
    → p.mode ≢ response
    → IsValid p
    → Enough f p xs
    → Enough g p (xs ++ ys)
    → Joined ys (run f) (run g) p xs
unfolding run parse_fragment after_loop
run-append zero g p xs ys m v h k = absurd (omega arith)
run-append (suc f) g p [] ys m v h k =
    rw (finish-used p.state p m v.expects, after-nil (parse_fragment p ys))
      (ap observe (run-eq-run g _ p ys v k (parse_fragment-Enough p ys)))
run-append (suc f) zero p (b ∷ rest) ys m v h k = absurd (omega arith)
run-append (suc f) (suc g) p (b ∷ rest) ys m v h k = elim (round-Splits p.state p b rest refl) [
  | plain e ↦ rw (e ys) (
      plain-proceed ys (run f) (run g) p (b ∷ rest) _ m (round-Keeps p.state p b (b ∷ rest))
        (round-Progress p.state p b rest refl v)
        λ q left mode w less.
          run-append f g q left ys mode w (omega arith)
            (omega (arith, length-append left ys, length-append (b ∷ rest) ys)))
  | bulk q same e more ↦
      let w : IsValid q = (rw e at (round-Progress p.state p b rest refl v)).0 in
      let kept : Keeps p q = rw e at (round-Keeps p.state p b (b ∷ rest)) in
      bulk-proceed p q (b ∷ rest) w (λ x. m (sym kept.mode ∙ x)) f g ys _
        (λ zs. round p.state p b ((b ∷ rest) ++ zs)) p.state (omega arith) (omega arith)
        (omega arith) same e (ap (round p.state p b) (append-nil (b ∷ rest))) more
]

-- Two fragments that follow each other, and a valid parser of requests or of internet messages, wherever
-- in a message it stands: a call with both at once leaves the same parser in the same way, with the same
-- bytes left over, and tells the listener the same, as a call with the first one and then, if that used
-- all of it, a call with the second one; only the content may come in other portions. An exception and a
-- step without a meaning are the same too.
pub parse_fragment-append :
    (p : Parser) (xs ys : Bytes)
    → p.mode ≢ response
    → IsValid p
    → observe (parse_fragment p (xs ++ ys)) ≡ observe (then_parse (parse_fragment p xs) ys)
unfolding parse_fragment
parse_fragment-append p xs ys m v =
    run-append _ _ p xs ys m v (parse_fragment-Enough p xs) (parse_fragment-Enough p (xs ++ ys))
