-- ===== src/Http2/Refused.antt =====
-- src/xzero/http/http2/Parser.cc `onRequestBegin`: which requests it takes for malformed.
use x.Base.{ℕ, ◌≡◌, refl, ap, arith, ◌∙◌, true, List, [], ◌∷◌, ◌++◌, Bytes, ok}
use x.Hpack.Parser.{Field}
use x.Hpack.Parser as Hpack
use x.Http2.{on_stream_error, protocol_violation}
use x.Http2.State.{Parser, emit}
use x.Http2.Requests.{is_not_small, is_any_upper, any_malformed, request_event, request_begin}

is_any_upper_lem :
    (front : Bytes) (ch : ℕ) (back : Bytes)
    → is_not_small ch ≡ true
    → is_any_upper (front ++ ch ∷ back) ≡ true
unfolding is_any_upper
is_any_upper_lem [] ch back h = rw h refl
is_any_upper_lem (c ∷ front) ch back h = ground (arith, is_any_upper_lem front ch back h)

any_malformed_lem :
    (before : List Field) (f : Field) (after : List Field)
    → is_any_upper f.name ≡ true
    → any_malformed (before ++ f ∷ after) ≡ true
unfolding any_malformed
any_malformed_lem [] f after h = rw h refl
any_malformed_lem (g ∷ before) f after h = ground (arith, any_malformed_lem before f after h)

-- A header block with a name that has a byte other than a small letter, such as the colon of `:method`
-- or a dash, makes no request: once the block is decoded the listener gets an error of the stream.
pub request_begin-refused :
    (p : Parser) (h : Hpack.Parser) (before after : List Field) (f : Field) (front back : Bytes)
    (ch : ℕ)
    → Hpack.parse
        (record { max_size = p.max_header_table_size; table = p.header_context; emitted = [] })
        p.pending_headers
      ≡ ok h
    → h.emitted ≡ before ++ f ∷ after
    → f.name ≡ front ++ ch ∷ back
    → is_not_small ch ≡ true
    → request_begin p
      ≡ ok (
          emit
            (record p { header_context = h.table })
            (on_stream_error p.last_stream_id protocol_violation))
unfolding request_begin
request_begin-refused p h before after f front back ch decoded fields name other = rw decoded (
    ap (λ (fs : List Field). ok (emit q (request_event p fs))) fields
    ∙ rw
        (any_malformed_lem before f after
          (ap is_any_upper name ∙ is_any_upper_lem front ch back other))
        refl)
  where
    q : Parser
    q = record p { header_context = h.table }
