-- ===== src/Http1/Parser/StartLine.antt =====
-- src/xzero/http/http1/Parser.cc: the rounds in the request line and the status line.
use x.Base.{ℕ, not, ◌&&◌, [], ◌∷◌, ◌++◌, ◌==◌, if◌then◌else◌, none}
use x.Http1.Chars.{cr, lf, sp, is_token, is_text, is_print, is_digit, digit_into}
use x.Http1.State.{
  Mode, State, Parser, become, message, request, response, request_line_begin, request_method,
  request_entity_begin, request_entity, request_protocol_begin, request_0_9_lf, status_line_begin,
  status_code, status_message_begin, status_message, status_message_lf, header_name_begin,
  version_0_9, begin_request, begin_message, header_end, message_end,
}
use x.Http1.Parser.Step.{
  go, Round, goes, stops, refuse, with_number, begin_with_request, begin_with_response,
}

unfoldable pub message_begin_round : Mode → Parser → Round
message_begin_round request p = go 0 (record p {
  content_length = none;
  state = request_line_begin;
  version_major = 0;
  version_minor = 0;
})
message_begin_round response p = go 0 (record p {
  content_length = none;
  state = status_line_begin;
  code = 0;
  version_major = 0;
  version_minor = 0;
})
message_begin_round message p =
    goes 0 (record p { content_length = none; state = header_name_begin }) (begin_message ∷ [])

unfoldable pub request_line_begin_round : Parser → ℕ → Round
request_line_begin_round p b =
    if is_token b then go 1 (record p { state = request_method; method = b ∷ [] }) else refuse p

unfoldable pub request_method_round : Parser → ℕ → Round
request_method_round p b =
    if b == sp
    then go 1 (become p request_entity_begin)
    else if is_token b
    then go 1 (record p { method = p.method ++ b ∷ [] })
    else refuse p

unfoldable pub request_entity_begin_round : Parser → ℕ → Round
request_entity_begin_round p b =
    if is_print b then go 1 (record p { entity = b ∷ []; state = request_entity }) else refuse p

unfoldable pub request_entity_round : Parser → ℕ → Round
request_entity_round p b =
    if b == sp
    then go 1 (become p request_protocol_begin)
    else if is_print b
    then go 1 (record p { entity = p.entity ++ b ∷ [] })
    else if b == cr
    then go 1 (become p request_0_9_lf)
    else refuse p

-- The state stays what it is, and the character is not taken.
unfoldable pub request_0_9_lf_round : Parser → ℕ → Round
request_0_9_lf_round p b =
    if b == lf
    then stops 0 p (begin_request p.method p.entity version_0_9 ∷ header_end ∷ message_end ∷ [])
    else refuse p

-- A version number: `stop` ends it, and is followed by `next`; any other character is a digit.
unfoldable pub version_major_round : State → Parser → ℕ → Round
version_major_round next p b =
    if b == b'.'
    then go 1 (become p next)
    else if not (is_digit b)
    then refuse p
    else with_number (digit_into p.version_major b) λ n. go 1 (record p { version_major = n })

unfoldable pub version_minor_round : ℕ → State → Parser → ℕ → Round
version_minor_round stop next p b =
    if b == stop
    then go 1 (become p next)
    else if not (is_digit b)
    then refuse p
    else with_number (digit_into p.version_minor b) λ n. go 1 (record p { version_minor = n })

unfoldable pub request_line_lf_round : Parser → ℕ → Round
unfolding begin_with_request
request_line_lf_round p b =
    if b == lf then begin_with_request 1 (become p header_name_begin) else refuse p

unfoldable pub status_code_round : Parser → ℕ → Round
status_code_round p b =
    if is_digit b
    then with_number (digit_into p.code b) (λ n. go 1 (record p { code = n }))
    else if b == sp
    then go 1 (become p status_message_begin)
    else if b == cr
    then go 1 (become p status_message_lf)
    else refuse p

-- It falls through to `STATUS_CODE`.
unfoldable pub status_code_begin_round : Parser → ℕ → Round
unfolding status_code_round
status_code_begin_round p b =
    if not (is_digit b) then refuse p else status_code_round (become p status_code) b

unfoldable pub status_message_begin_round : Parser → ℕ → Round
status_message_begin_round p b =
    if is_text b then go 1 (record p { state = status_message; reason = b ∷ [] }) else refuse p

unfoldable pub status_message_round : Parser → ℕ → Round
status_message_round p b =
    if is_text b && not (b == cr) && not (b == lf)
    then go 1 (record p { reason = p.reason ++ b ∷ [] })
    else if b == cr
    then go 1 (become p status_message_lf)
    else refuse p

unfoldable pub status_message_lf_round : Parser → ℕ → Round
unfolding begin_with_response
status_message_lf_round p b =
    if b == lf then begin_with_response 1 (become p header_name_begin) else refuse p
