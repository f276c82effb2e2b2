-- ===== src/Http1/Parser/Headers.antt =====
-- src/xzero/http/http1/Parser.cc: the rounds in the header fields.
use x.Base.{
  List, ℕ, Bool, true, false, not, ◌||◌, Bytes, [], ◌∷◌, ◌++◌, length, ltb, ◌==◌, if◌then◌else◌,
  Outcome, ok, raise, none, some, codes,
}
use x.Http1.Chars.{cr, lf, sp, ht, is_token, is_text, is_print, to_int, iequals}
use x.Http1.State.{
  Event, Mode, State, Parser, become, request, protocol_error, message_begin, header_name_begin,
  header_name, header_colon, header_value_begin, header_value, header_value_lf, header_value_end,
  header_end_lf, lws_begin, lws_lf, lws_sp_ht, content_begin, header, header_end, message_end,
  bad_request,
}
use x.Http1.Parser.Step.{go, Round, goes, stops, fails, refuse}

unfoldable pub header_name_begin_round : Parser → ℕ → Round
header_name_begin_round p b =
    if is_token b
    then go 1 (record p { name = b ∷ []; state = header_name })
    else if b == cr
    then go 1 (become p header_end_lf)
    else refuse p

-- To the white space in front of a value; without it there is no value.
abbrev pub before_value : Parser → Parser
before_value p = record p {
  state = lws_begin;
  lws_next = header_value_begin;
  lws_null = header_value_end;
}

unfoldable pub header_name_round : Parser → ℕ → Round
header_name_round p b =
    if is_token b
    then go 1 (record p { name = p.name ++ b ∷ [] })
    else if b == b':'
    then go 1 (before_value p)
    else if b == cr
    then go 1 (record p { state = lws_lf; lws_next = header_colon; lws_null = protocol_error })
    else refuse p

unfoldable pub header_colon_round : Parser → ℕ → Round
header_colon_round p b = if b == b':' then go 1 (before_value p) else refuse p

unfoldable pub lws_begin_round : Parser → ℕ → Round
lws_begin_round p b =
    if b == cr
    then go 1 (become p lws_lf)
    else if b == sp || b == ht
    then go 1 (become p lws_sp_ht)
    else if is_print b
    then go 0 (become p p.lws_next)
    else refuse p

-- `value_.shr(n)` unless the value is empty, by the characters that it takes in.
unfoldable pub extend_value : Parser → Bytes → Parser
extend_value p bs = if ltb 0 (length p.value) then record p { value = p.value ++ bs } else p

abbrev pub is_protocol_error : State → Bool
is_protocol_error protocol_error = true
is_protocol_error _ = false

unfoldable pub lws_sp_ht_begin_round : Parser → ℕ → Round
unfolding extend_value
lws_sp_ht_begin_round p b =
    if b == sp || b == ht
    then go 1 (become (extend_value p (cr ∷ lf ∷ b ∷ [])) lws_sp_ht)
    else goes 0 (become p p.lws_null)
        (if is_protocol_error p.lws_null then bad_request ∷ [] else [])

unfoldable pub lws_sp_ht_round : Parser → ℕ → Round
unfolding extend_value
lws_sp_ht_round p b =
    if b == sp || b == ht then go 1 (extend_value p (b ∷ [])) else go 0 (become p p.lws_next)

unfoldable pub header_value_begin_round : Parser → ℕ → Round
header_value_begin_round p b =
    if is_text b
    then go 1 (record p { value = b ∷ []; state = header_value })
    else if b == cr
    then go 1 (become p header_value_lf)
    else refuse p

unfoldable pub header_value_round : Parser → ℕ → Round
header_value_round p b =
    if b == cr
    then go 1 (record p { state = lws_lf; lws_next = header_value; lws_null = header_value_end })
    else if is_text b
    then go 1 (record p { value = p.value ++ b ∷ [] })
    else refuse p

-- What is noted of a header field, and whether the listener is told of it.
unfoldable pub note_header : Parser → Outcome (Parser × List Event)
note_header p =
    if iequals p.name (codes "Content-Length")
    then elim (to_int p.value) [
      | raise f ↦ raise f
      | ok n ↦ ok (record p { content_length = n }, header p.name p.value ∷ [])
    ]
    else if iequals p.name (codes "Transfer-Encoding")
    then (if iequals p.value (codes "chunked")
        then ok (record p { chunked = true }, [])
        else ok (p, header p.name p.value ∷ []))
    else ok (p, header p.name p.value ∷ [])

unfoldable pub header_value_end_round : Parser → Round
header_value_end_round p = elim (note_header p) [
  | raise f ↦ fails f
  | ok (q, es) ↦ goes 0 (record q { name = []; value = []; state = header_name_begin }) es
]

abbrev pub is_request : Mode → Bool
is_request request = true
is_request _ = false

-- `isContentExpected`.
unfoldable pub content_expected : Parser → Bool
content_expected p = elim p.content_length [
  | some n ↦ ltb 0 n || p.chunked
  | none ↦ p.chunked || not (is_request p.mode)
]

unfoldable pub header_end_lf_round : Parser → ℕ → Round
unfolding content_expected
header_end_lf_round p b =
    if b == lf
    then (if content_expected p
        then goes 1 (become p content_begin) (header_end ∷ [])
        else stops 1 (become p message_begin) (header_end ∷ message_end ∷ []))
    else refuse p
