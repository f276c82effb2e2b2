-- ===== src/Http1/Parser/Progress.antt =====
-- src/xzero/http/http1/Parser.cc: each round of `parseFragment` takes bytes, or brings the loop nearer to
-- a round that does.
use x.Base.{
  leb, Option, none, some, Bool-cases, inl, inr, Bool, true, false, ◌==◌, ◌||◌, if◌then◌else◌, List,
  ◌++◌, ℕ, suc, ◌+◌, ◌-◌, ◌*◌, ◌≤◌, ◌<◌, ◌≡◌, arith, Bytes, [], ◌∷◌, length, ltb,
}
use x.Http1.State.{
  bad_request, become, Parser, State, Event, protocol_error, message_begin, header_value_end,
  lws_begin, lws_sp_ht_begin, lws_sp_ht, content_begin, content, content_endless,
  content_chunk_body, header_end_lf,
}
use x.Http1.Chars.{cr, sp, ht, is_print}
use x.Http1.Parser.Content.{content_left_round}
use x.Http1.Parser.Headers.{
  note_header, is_protocol_error, extend_value, lws_begin_round, lws_sp_ht_round,
  lws_sp_ht_begin_round, content_expected,
}
use x.Http1.Parser.Step.{Round, goes, stops, throws, fails}
use x.Http1.Parser.Loop.{round, received}

-- How many rounds can follow that take no character.
abbrev pub rank : State → ℕ
rank protocol_error = 0
rank message_begin = 2
rank header_value_end = 2
rank lws_begin = 2
rank lws_sp_ht = 2
rank lws_sp_ht_begin = 3
rank content_begin = 3
rank _ = 1

pub rank_bound : (s : State) → rank s ≤ 3
rank_bound protocol_error = omega arith
rank_bound _ = omega arith

-- Content is begun only where some is expected.
abbrev pub Expects : State → Parser → Type 0
Expects content_begin p = content_expected p ≡ true
Expects _ p = Unit

-- Where white space leads to: to a state that takes a character, or to the end of a value.
pub record IsValid (p : Parser) : Type 0 where
  pub next : rank p.lws_next ≤ 1
  pub null : rank p.lws_null ≤ 2
  pub expects : Expects p.state p

Expects-lws : (s : State) (p : Parser) → rank s ≤ 2 → Expects s p
Expects-lws content_begin p h = absurd (omega arith)
Expects-lws message_begin p h = tt
Expects-lws _ p h = tt

-- A round brings the loop nearer to its end, and takes nothing beyond that.
abbrev pub Progress : State → Bytes → Round → Type 0
Progress s src (goes n q es) =
    IsValid q × (4 * (length src - n) + rank q.state < 4 * length src + rank s) × (n ≤ length src)
Progress s src (stops n q es) = IsValid q × (n ≤ length src)
Progress s src (throws n q) = IsValid q
Progress s src (fails f) = Unit

pub become-IsValid : (s : State) {p : Parser} → rank s ≤ 2 → IsValid p → IsValid (become p s)
become-IsValid s {p} h v = record {
  next = v.next;
  null = v.null;
  expects = Expects-lws s (become p s) h;
}

-- A value that takes in characters leaves the rest as it is.
extend_value-IsValid :
    (p : Parser) (bs : Bytes)
    → ((q : Parser) → Expects p.state q)
    → IsValid p
    → IsValid (extend_value p bs)
unfolding extend_value
extend_value-IsValid p bs h v = elim (Bool-cases (ltb 0 (length p.value))) [
  | inl e ↦
      rw e
        (record { next = v.next; null = v.null; expects = h (record p { value = p.value ++ bs }) })
  | inr e ↦ rw e v
]

module _ (s : State) (p : Parser) (b : ℕ) (rest : Bytes) where
  Progress-if :
      (c : Bool) (x y : Round)
      → Progress s (b ∷ rest) x
      → Progress s (b ∷ rest) y
      → Progress s (b ∷ rest) (if c then x else y)
  Progress-if true x y h k = h
  Progress-if false x y h k = k

  module _ (v : IsValid p) where
    -- Characters are taken.
    Progress-taken :
        (n : ℕ) (q : Parser) (es : List Event)
        → 0 < n
        → n ≤ suc (length rest)
        → IsValid q
        → Progress s (b ∷ rest) (goes n q es)
    Progress-taken n q es h k w = (w, omega (arith, rank_bound q.state), k)

    -- White space is over.
    Progress-passed :
        (t : State) (es : List Event)
        → rank t ≤ 2
        → rank t < rank s
        → Progress s (b ∷ rest) (goes 0 (become p t) es)
    Progress-passed t es h k = (become-IsValid t h v, omega arith, omega arith)

    lws_begin-Progress : rank s ≡ 2 → Progress s (b ∷ rest) (lws_begin_round p b)
    unfolding lws_begin_round
    lws_begin-Progress e =
        Progress-if (b == cr) _ _
          (Progress-taken 1 _ [] (omega arith) (omega arith) (become-IsValid _ (omega arith) v))
          (Progress-if (b == sp || b == ht) _ _
            (Progress-taken 1 _ [] (omega arith) (omega arith) (become-IsValid _ (omega arith) v))
            (Progress-if (is_print b) _ _
              (Progress-passed p.lws_next [] (omega (arith, v.next)) (omega (arith, v.next)))
              (Progress-passed protocol_error (bad_request ∷ []) (omega arith) (omega arith))))

    lws_sp_ht-Progress :
        rank s ≡ 2
        → ((q : Parser) → Expects p.state q)
        → Progress s (b ∷ rest) (lws_sp_ht_round p b)
    unfolding lws_sp_ht_round
    lws_sp_ht-Progress e free =
        Progress-if (b == sp || b == ht) _ _
          (Progress-taken 1 (extend_value p (b ∷ [])) [] (omega arith) (omega arith)
            (extend_value-IsValid p _ free v))
          (Progress-passed p.lws_next [] (omega (arith, v.next)) (omega (arith, v.next)))

    lws_sp_ht_begin-Progress :
        rank s ≡ 3
        → ((q : Parser) → Expects p.state q)
        → Progress s (b ∷ rest) (lws_sp_ht_begin_round p b)
    unfolding lws_sp_ht_begin_round
    lws_sp_ht_begin-Progress e free =
        Progress-if (b == sp || b == ht) _ _
          (Progress-taken 1 _ [] (omega arith) (omega arith)
            (become-IsValid lws_sp_ht (omega arith) (extend_value-IsValid p _ free v)))
          (Progress-passed p.lws_null
            (if is_protocol_error p.lws_null then bad_request ∷ [] else []) (omega (arith, v.null))
            (omega (arith, v.null)))

content_left-Progress :
    (left : Option ℕ) (p : Parser) (b : ℕ) (rest : Bytes)
    → p.state ≡ content
    → IsValid p
    → Progress content (b ∷ rest) (content_left_round left p (b ∷ rest))
unfolding content_left_round
content_left-Progress none p b rest e v =
    (become-IsValid protocol_error (omega arith) v, omega arith, omega arith)
content_left-Progress (some left) p b rest e v = elim (Bool-cases (leb left (suc (length rest)))) [
  | inl enough ↦ rw enough (record { next = v.next; null = v.null; expects = tt }, omega arith)
  | inr short ↦
      let more : suc (length rest) < left = ground arith in
      rw short (
        record { next = v.next; null = v.null; expects = rw e tt },
        omega (arith, rank_bound p.state),
        omega arith,
      )
]

pub round-Progress :
    (s : State) (p : Parser) (b : ℕ) (rest : Bytes)
    → p.state ≡ s
    → IsValid p
    → Progress s (b ∷ rest) (round s p b (b ∷ rest))
unfolding round note_header
round-Progress protocol_error p b rest e v = (v, omega arith)
round-Progress lws_begin p b rest e v = lws_begin-Progress lws_begin p b rest v (omega arith)
round-Progress lws_sp_ht p b rest e v =
    lws_sp_ht-Progress lws_sp_ht p b rest v (omega arith) (λ q. rw e tt)
round-Progress lws_sp_ht_begin p b rest e v =
    lws_sp_ht_begin-Progress lws_sp_ht_begin p b rest v (omega arith) (λ q. rw e tt)
round-Progress content p b rest e v = content_left-Progress p.content_length p b rest e v
round-Progress content_endless p b rest e v = (
  record { next = v.next; null = v.null; expects = v.expects },
  omega (arith, rank_bound p.state),
  omega arith,
)
round-Progress content_chunk_body p b rest e v = ground (arith, rank_bound p.state)
round-Progress header_value_end p b rest e v = ground (arith, rank_bound p.state)
round-Progress header_end_lf p b rest e v = ground (arith, rank_bound p.state)
round-Progress _ p b rest e v = ground (arith, rank_bound p.state)

received-Expects : (s : State) (n : ℕ) (p : Parser) → Expects s p → Expects s (received n p)
unfolding content_expected
received-Expects content_begin n p h = h
received-Expects message_begin n p h = tt
received-Expects _ n p h = tt

pub received-IsValid : (n : ℕ) (p : Parser) → IsValid p → IsValid (received n p)
received-IsValid n p v = record {
  next = v.next;
  null = v.null;
  expects = received-Expects p.state n p v.expects;
}
