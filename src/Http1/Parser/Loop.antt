-- ===== src/Http1/Parser/Loop.antt =====
-- src/xzero/http/http1/Parser.cc: the loop of `parseFragment`.
use x.Base.{
  Option, List, ◌++◌, ℕ, zero, suc, ◌+◌, ◌*◌, ◌%◌, ◌^◌, Bool, true, false, not, ◌&&◌, Bytes, [],
  ◌∷◌, length, drop, if◌then◌else◌, Fault, none, some,
}
use x.Http1.Chars.{cr, lf, sp}
use x.Http1.State.{
  Mode, State, Parser, Event, become, message, no_state, protocol_error, message_begin,
  request_line_begin, request_method, request_entity_begin, request_entity, request_protocol_begin,
  request_protocol_t1, request_protocol_t2, request_protocol_p, request_protocol_slash,
  request_protocol_version_major, request_protocol_version_minor, request_line_lf, request_0_9_lf,
  status_line_begin, status_protocol_begin, status_protocol_t1, status_protocol_t2,
  status_protocol_p, status_protocol_slash, status_protocol_version_major,
  status_protocol_version_minor, status_code_begin, status_code, status_message_begin,
  status_message, status_message_lf, header_name_begin, header_name, header_colon,
  header_value_begin, header_value, header_value_lf, header_value_end, header_end_lf, lws_begin,
  lws_lf, lws_sp_ht_begin, lws_sp_ht, content_begin, content, content_endless,
  content_chunk_size_begin, content_chunk_size, content_chunk_lf1, content_chunk_body,
  content_chunk_lf2, content_chunk_cr3, content_chunk_lf3, message_end,
}
use x.Http1.Parser.Step.{Round, goes, stops, throws, fails, expect}
use x.Http1.Parser.StartLine.{
  message_begin_round, request_line_begin_round, request_method_round, request_entity_begin_round,
  request_entity_round, request_0_9_lf_round, version_major_round, version_minor_round,
  request_line_lf_round, status_code_round, status_code_begin_round, status_message_begin_round,
  status_message_round, status_message_lf_round,
}
use x.Http1.Parser.Headers.{
  header_name_begin_round, header_name_round, header_colon_round, lws_begin_round,
  lws_sp_ht_begin_round, lws_sp_ht_round, header_value_begin_round, header_value_round,
  header_value_end_round, header_end_lf_round,
}
use x.Http1.Parser.Content.{
  content_begin_round, content_endless_round, content_round, chunk_size_round,
  chunk_size_begin_round, chunk_lf1_round, chunk_body_round, chunk_lf3_round,
}

-- The `switch`, where the character is `b` and what is left of the fragment is `src`.
unfoldable pub round : State → Parser → ℕ → Bytes → Round
unfolding message_begin_round request_line_begin_round request_method_round
    request_entity_begin_round request_entity_round request_0_9_lf_round version_major_round
    version_minor_round request_line_lf_round status_code_round status_code_begin_round
    status_message_begin_round status_message_round status_message_lf_round header_name_begin_round
    header_name_round header_colon_round lws_begin_round lws_sp_ht_begin_round lws_sp_ht_round
    header_value_begin_round header_value_round header_value_end_round header_end_lf_round
    content_begin_round content_endless_round content_round chunk_size_round chunk_size_begin_round
    chunk_lf1_round chunk_body_round chunk_lf3_round
round message_begin p b src = message_begin_round p.mode p
round request_line_begin p b src = request_line_begin_round p b
round request_method p b src = request_method_round p b
round request_entity_begin p b src = request_entity_begin_round p b
round request_entity p b src = request_entity_round p b
round request_0_9_lf p b src = request_0_9_lf_round p b
round request_protocol_begin p b src = expect b'H' request_protocol_t1 p b
round request_protocol_t1 p b src = expect b'T' request_protocol_t2 p b
round request_protocol_t2 p b src = expect b'T' request_protocol_p p b
round request_protocol_p p b src = expect b'P' request_protocol_slash p b
round request_protocol_slash p b src = expect b'/' request_protocol_version_major p b
round request_protocol_version_major p b src =
    version_major_round request_protocol_version_minor p b
round request_protocol_version_minor p b src = version_minor_round cr request_line_lf p b
round request_line_lf p b src = request_line_lf_round p b
round status_line_begin p b src = expect b'H' status_protocol_t1 p b
round status_protocol_begin p b src = expect b'H' status_protocol_t1 p b
round status_protocol_t1 p b src = expect b'T' status_protocol_t2 p b
round status_protocol_t2 p b src = expect b'T' status_protocol_p p b
round status_protocol_p p b src = expect b'P' status_protocol_slash p b
round status_protocol_slash p b src = expect b'/' status_protocol_version_major p b
round status_protocol_version_major p b src = version_major_round status_protocol_version_minor p b
round status_protocol_version_minor p b src = version_minor_round sp status_code_begin p b
round status_code_begin p b src = status_code_begin_round p b
round status_code p b src = status_code_round p b
round status_message_begin p b src = status_message_begin_round p b
round status_message p b src = status_message_round p b
round status_message_lf p b src = status_message_lf_round p b
round header_name_begin p b src = header_name_begin_round p b
round header_name p b src = header_name_round p b
round header_colon p b src = header_colon_round p b
round lws_begin p b src = lws_begin_round p b
round lws_lf p b src = expect lf lws_sp_ht_begin p b
round lws_sp_ht_begin p b src = lws_sp_ht_begin_round p b
round lws_sp_ht p b src = lws_sp_ht_round p b
round header_value_begin p b src = header_value_begin_round p b
round header_value p b src = header_value_round p b
round header_value_lf p b src = expect lf header_value_end p b
round header_value_end p b src = header_value_end_round p
round header_end_lf p b src = header_end_lf_round p b
round content_begin p b src = content_begin_round p
round content_endless p b src = content_endless_round p src
round content p b src = content_round p src
round content_chunk_size_begin p b src = chunk_size_begin_round p b
round content_chunk_size p b src = chunk_size_round p b
round content_chunk_lf1 p b src = chunk_lf1_round p b
round content_chunk_body p b src = chunk_body_round p b src
round content_chunk_lf2 p b src = expect lf content_chunk_size p b
round content_chunk_cr3 p b src = expect cr content_chunk_lf3 p b
round content_chunk_lf3 p b src = chunk_lf3_round p b
round protocol_error p b src = stops 0 p []
round no_state p b src = stops 0 p []

abbrev pub is_message : Mode → Bool
is_message message = true
is_message _ = false

-- How `parseFragment` ends: all of the fragment is used, or by `goto done` with some left, perhaps
-- none; or by an exception. `stuck` is not C++: out of fuel.
pub data Result : Type 0 where
  used : Parser → List Event → Result
  stopped : Parser → Bytes → List Event → Result
  thrown : Parser → List Event → Result
  failed : Fault → Result
  stuck : Result

-- A result, after what the listener was told before.
abbrev pub after : List Event → Result → Result
after es (used p fs) = used p (es ++ fs)
after es (stopped p left fs) = stopped p left (es ++ fs)
after es (thrown p fs) = thrown p (es ++ fs)
after es (failed f) = failed f
after es stuck = stuck

abbrev pub is_negative : Option ℕ → Bool
is_negative none = true
is_negative (some n) = false

-- What follows the loop: a message whose head was just read, and that has no content to come, ends.
unfoldable pub finish : State → Parser → Result
finish content_begin p =
    if is_negative p.content_length && not p.chunked && not (is_message p.mode)
    then stopped (become p message_begin) [] (message_end ∷ [])
    else used p []
finish _ p = used p []

unfoldable pub after_loop : Parser → Result
unfolding finish
after_loop p = finish p.state p

abbrev pub received : ℕ → Parser → Parser
received n p = record p { bytes_received = (p.bytes_received + n) % 2 ^ 64 }

-- The rest of the loop after a round.
abbrev pub proceed : (Parser → Bytes → Result) → Bytes → Round → Result
proceed next src (goes n q es) = after es (next (received n q) (drop n src))
proceed next src (stops n q es) = stopped (received n q) (drop n src) es
proceed next src (throws n q) = thrown (received n q) []
proceed next src (fails f) = failed f

unfoldable pub run : ℕ → Parser → Bytes → Result
unfolding round after_loop
run zero p src = stuck
run (suc fuel) p [] = after_loop p
run (suc fuel) p (b ∷ rest) = proceed (run fuel) (b ∷ rest) (round p.state p b (b ∷ rest))

-- A character takes four rounds at most.
unfoldable pub parse_fragment : Parser → Bytes → Result
unfolding run
parse_fragment p chunk = run (4 * length chunk + 4) p chunk
