-- ===== src/Http1/RoundTrip/Leads.antt =====
-- src/xzero/http/http1/Parser.cc: from one parser to another over a part of the fragment.
use x.Base.{
  ℕ, zero, suc, ◌+◌, ◌*◌, ◌%◌, ◌^◌, ◌≡◌, refl, sym, ap, ◌∙◌, arith, Bool, true, false, List, [],
  ◌∷◌, ◌++◌, append-nil, append_assoc, Bytes, length, drop, Option, none, some, ◌==◌, ==_iff,
  Bool-cases, inl, inr, All, length-drop,
}
use x.Http1.State.{Parser, Event}
use x.Http1.Parser.Step.{Round, goes, stops, throws, fails}
use x.Http1.Parser.Loop.{round, received, after, run, proceed, parse_fragment}
use x.Http1.Parser.Progress.{IsValid, rank_bound, round-Progress, received-IsValid}
use x.Http1.Parser.Ends.{run-eq-run, parse_fragment-Enough}
use x.Http1.Parser.Observe.{after-nil, after-after}

-- To parse `src` at `p` is to tell the listener `es`, and then to parse `left` at `q`.
abbrev pub Leads : Parser → Bytes → List Event → Parser → Bytes → Type 0
Leads p src es q left =
    IsValid p → IsValid q × (parse_fragment p src ≡ after es (parse_fragment q left))

pub Leads-refl : (p : Parser) (src : Bytes) → Leads p src [] p src
Leads-refl p src v = (v, sym (after-nil (parse_fragment p src)))

pub Leads-trans :
    (p q r : Parser) (src left rest : Bytes) (es fs : List Event)
    → Leads p src es q left
    → Leads q left fs r rest
    → Leads p src (es ++ fs) r rest
Leads-trans p q r src left rest es fs h k v =
    let (w, e) = h v in
    let (u, f) = k w in (u, e ∙ ap (after es) f ∙ after-after es fs (parse_fragment r rest))

pub Leads-round :
    (p : Parser) (b : ℕ) (src : Bytes) (n : ℕ) (q : Parser) (es : List Event)
    → round p.state p b (b ∷ src) ≡ goes n q es
    → Leads p (b ∷ src) es (received n q) (drop n (b ∷ src))
unfolding parse_fragment run
Leads-round p b src n q es e v =
    let (w, less, bound) = rw e at (round-Progress p.state p b src refl v) in
    let w' : IsValid (received n q) = received-IsValid n q w in
    let left = drop n (b ∷ src) in
    let fuel = 4 * suc (length src) + 4 in
    (
      w',
      run-eq-run fuel (suc fuel) p (b ∷ src) v (parse_fragment-Enough p (b ∷ src))
            (omega (arith, rank_bound p.state))
          ∙ ap (proceed (run fuel) (b ∷ src)) e
          ∙ ap (after es) (
              run-eq-run fuel (4 * length left + 4) (received n q) left w'
                (omega (arith, length-drop n (b ∷ src), rank_bound q.state))
                (parse_fragment-Enough (received n q) left)),
    )

abbrev pub Advanced : Type 0
Advanced = Option (Parser × Bytes × List Event)

abbrev pub with_events : List Event → Advanced → Advanced
with_events es (some (q, left, fs)) = some (q, left, es ++ fs)
with_events es none = none

abbrev pub then_advance : (Parser → Bytes → Advanced) → Bytes → Round → Advanced
then_advance next src (goes n q es) = with_events es (next (received n q) (drop n src))
then_advance next src (stops n q es) = none
then_advance next src (throws n q) = none
then_advance next src (fails f) = none

-- The rounds that follow, as many as `k`.
abbrev pub advance : ℕ → Parser → Bytes → Advanced
advance zero p src = some (p, src, [])
advance (suc k) p [] = none
advance (suc k) p (b ∷ src) = then_advance (advance k) (b ∷ src) (round p.state p b (b ∷ src))

-- A result of `advance` is right about the parser and the fragment.
abbrev IsRight : Parser → Bytes → Advanced → Type 0
IsRight p src none = Unit
IsRight p src (some (q, left, es)) = Leads p src es q left

with_events-IsRight :
    (p q : Parser) (src left : Bytes) (es : List Event) (a : Advanced)
    → Leads p src es q left
    → IsRight q left a
    → IsRight p src (with_events es a)
with_events-IsRight p q src left es none h k = tt
with_events-IsRight p q src left es (some (r, rest, fs)) h k =
    Leads-trans p q r src left rest es fs h k

then_advance-IsRight :
    (next : Parser → Bytes → Advanced) (p : Parser) (b : ℕ) (src : Bytes) (r : Round)
    → round p.state p b (b ∷ src) ≡ r
    → ((q : Parser) (left : Bytes) → IsRight q left (next q left))
    → IsRight p (b ∷ src) (then_advance next (b ∷ src) r)
then_advance-IsRight next p b src (goes n q es) e h =
    with_events-IsRight p (received n q) (b ∷ src) (drop n (b ∷ src)) es _
      (Leads-round p b src n q es e) (h (received n q) (drop n (b ∷ src)))
then_advance-IsRight next p b src (stops n q es) e h = tt
then_advance-IsRight next p b src (throws n q) e h = tt
then_advance-IsRight next p b src (fails f) e h = tt

advance-IsRight : (k : ℕ) (p : Parser) (src : Bytes) → IsRight p src (advance k p src)
advance-IsRight zero p src = Leads-refl p src
advance-IsRight (suc k) p [] = tt
advance-IsRight (suc k) p (b ∷ src) =
    then_advance-IsRight (advance k) p b src _ refl (advance-IsRight k)

pub advance-Leads :
    (k : ℕ) (p : Parser) (src : Bytes) (q : Parser) (left : Bytes) (es : List Event)
    → advance k p src ≡ some (q, left, es)
    → Leads p src es q left
advance-Leads k p src q left es e = rw e at (advance-IsRight k p src)

-- A character of a class is no character outside of it.
pub differs : (f : ℕ → Bool) (k b : ℕ) → f k ≡ false → f b ≡ true → (b == k) ≡ false
differs f k b h g = elim (Bool-cases (b == k)) [
  | inl e ↦ let same : b ≡ k = (==_iff b k).0 e in cc (ap f same)
  | inr e ↦ e
]

-- The number of bytes received so far is of no importance.
abbrev pub counted : ℕ → Parser → Parser
counted n p = record p { bytes_received = n }

pub record Reaches (p : Parser) (src : Bytes) (es : List Event) (q : Parser) (left : Bytes)
    : Type 0 where
  pub leads : (n : ℕ) → (k : ℕ) × Leads (counted n p) src es (counted k q) left

module _ {p q r : Parser} {src left rest : Bytes} where
  pub Reaches-trans :
      {es fs : List Event}
      → Reaches p src es q left
      → Reaches q left fs r rest
      → Reaches p src (es ++ fs) r rest
  Reaches-trans {es} {fs} h k = record {
    leads = λ n.
        let (m, first) = h.leads n in
        let (l, later) = k.leads m in
        (l, Leads-trans (counted n p) (counted m q) (counted l r) src left rest es fs first later);
  }

  -- The first part is silent.
  infixr 6 ◌then◌
  pub ◌then◌ :
      {es : List Event}
      → Reaches p src [] q left
      → Reaches q left es r rest
      → Reaches p src es r rest
  h then k = Reaches-trans h k

pub advance-Reaches :
    (rounds : ℕ) (count : ℕ → ℕ) {p q : Parser} {src left : Bytes} {es : List Event}
    → ((n : ℕ) → advance rounds (counted n p) src ≡ some (counted (count n) q, left, es))
    → Reaches p src es q left
advance-Reaches rounds count {p} {q} {src} {left} {es} e = record {
  leads =
      λ n. (count n, advance-Leads rounds (counted n p) src (counted (count n) q) left es (e n));
}

-- A class of characters.
abbrev pub Are : (ℕ → Bool) → Bytes → Type 0
Are f bs = All (λ b. f b ≡ true) bs

-- A state that takes characters of a class, and appends them to a field.
pub gather :
    (f : ℕ → Bool) (at : Bytes → Parser)
    → ((n c : ℕ) (acc src : Bytes)
        → f c ≡ true
        → round (at acc).state (counted n (at acc)) c (c ∷ src)
          ≡ goes 1 (counted n (at (acc ++ c ∷ []))) [])
    → (acc cs rest : Bytes) → Are f cs
    → Reaches (at acc) (cs ++ rest) [] (at (acc ++ cs)) rest
gather f at one acc [] rest h = record {
  leads = λ n. (n, rw (append-nil acc) (Leads-refl (counted n (at acc)) rest));
}
gather f at one acc (c ∷ cs) rest (h, hs) =
    let shift : (acc ++ c ∷ []) ++ cs ≡ acc ++ c ∷ cs = append_assoc acc (c ∷ []) cs in
    advance-Reaches 1 (λ n. (n + 1) % 2 ^ 64) (λ n. rw (one n c acc (cs ++ rest) h) refl)
    then (rw shift at (gather f at one (acc ++ c ∷ []) cs rest hs))
