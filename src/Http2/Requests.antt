-- ===== src/Http2/Requests.antt =====
-- src/xzero/http/http2/Parser.cc: HEADERS, PUSH_PROMISE and CONTINUATION, and `onRequestBegin`. A throw
-- of HPACK ends the parse.
use x.Base.{
  ℕ, ◌+◌, ◌-◌, ◌%◌, ◌^◌, Bool, true, false, not, ◌||◌, List, [], ◌∷◌, ◌++◌, Bytes, length, drop,
  min, leb, ltb, ◌==◌, if◌then◌else◌, Outcome, ok, ◌>>=◌,
}
use x.Hpack.Parser.{Field}
use x.Hpack.Parser as Hpack
use x.Http2.{
  FrameType, headers_frame, push_promise_frame, continuation_frame, protocol_violation,
  frame_size_violation, Event, on_request_begin, on_push_promise, on_connection_error,
  on_stream_error, read32,
}
use x.Http2.State.{Parser, emit, has_flag, byte_at, slice, padding, char_padding}

-- `ch == std::toupper(ch)` in the locale of C: all bytes but the small letters.
abbrev pub is_not_small : ℕ → Bool
is_not_small ch = ltb ch 97 || ltb 122 ch

unfoldable pub is_any_upper : Bytes → Bool
is_any_upper [] = false
is_any_upper (ch ∷ text) = is_not_small ch || is_any_upper text

unfoldable pub any_malformed : List Field → Bool
unfolding is_any_upper
any_malformed [] = false
any_malformed (f ∷ fs) = is_any_upper f.name || any_malformed fs

unfoldable pub request_event : Parser → List Field → Event
unfolding any_malformed
request_event p fields =
    if any_malformed fields
    then on_stream_error p.last_stream_id protocol_violation
    else if p.promised_stream_id == 0
    then on_request_begin p.last_stream_id p.is_stream_closed fields
    else on_push_promise p.last_stream_id p.promised_stream_id fields

-- `onRequestBegin`; the method and the URI of the request are among its fields.
unfoldable pub request_begin : Parser → Outcome Parser
unfolding Hpack.parse request_event
request_begin p = do
  h ←
      Hpack.parse
        (record { max_size = p.max_header_table_size; table = p.header_context; emitted = [] })
        p.pending_headers
  ok (emit (record p { header_context = h.table }) (request_event p h.emitted))

unfoldable pub end_headers : Parser → ℕ → Outcome Parser
unfolding request_begin
end_headers p flags = if has_flag flags 4 then request_begin p else ok p

-- The priority fields of `parseHeaders` at `pos`.
unfoldable pub read_dependency : Parser → ℕ → ℕ → Bytes → Outcome Parser
unfolding byte_at read32
read_dependency p flags pos payload =
    if has_flag flags 32
    then (do
      b ← byte_at payload pos
      word ← read32 (drop pos payload)
      weight ← byte_at payload (pos + 4)
      ok (record p {
        is_exclusive_dependency = has_flag b 128;
        depends_on_sid = word % 2 ^ 31;
        stream_weight = min (1 + weight) 256;
      }))
    else ok (record p { is_exclusive_dependency = false })

unfoldable pub parse_headers : Parser → ℕ → ℕ → Bytes → Outcome Parser
unfolding padding read_dependency slice end_headers
parse_headers p flags sid payload = do
  pad ← padding flags payload
  let start = if has_flag flags 8 then 1 else 0 in
      let pos = if has_flag flags 32 then start + 5 else start in
      let size =
        if has_flag flags 32 then (length payload + (2 ^ 64 - 6)) % 2 ^ 64 else length payload in
      (do
        q ← read_dependency p flags start payload
        if ltb size pad
            then ok (emit q (on_connection_error protocol_violation))
            else if leb sid q.newest_stream_id
            then ok (emit q (on_connection_error protocol_violation))
            else (do
              block ← slice payload pos (size - pad)
              end_headers
                  (record q {
                    newest_stream_id = sid;
                    is_stream_closed = has_flag flags 1;
                    promised_stream_id = 0;
                    pending_headers = q.pending_headers ++ block;
                  })
                  flags))

unfoldable pub parse_push_promise : Parser → ℕ → ℕ → Bytes → Outcome Parser
unfolding char_padding read32 slice end_headers
parse_push_promise p flags sid payload = do
  pad ← char_padding flags payload
  let pos = if has_flag flags 8 then 1 else 0 in
      (do
        word ← read32 (drop pos payload)
        let q = record p { promised_stream_id = word % 2 ^ 31 } in
            if ltb (length payload) pad
            then ok (emit q (on_connection_error protocol_violation))
            else (do
              block ← slice payload (pos + 4) (length payload - pad)
              end_headers (record q { pending_headers = q.pending_headers ++ block }) flags))

abbrev pub may_continue : FrameType → Bool
may_continue headers_frame = true
may_continue continuation_frame = true
may_continue push_promise_frame = true
may_continue _ = false

-- The payload is not kept.
unfoldable pub parse_continuation : Parser → ℕ → ℕ → Bytes → Outcome Parser
unfolding end_headers
parse_continuation p flags sid payload =
    if not (p.last_stream_id == sid)
    then ok (emit p (on_connection_error protocol_violation))
    else if not (may_continue p.last_frame_type)
    then ok (emit p (on_connection_error protocol_violation))
    else if length payload == 0
    then ok (emit p (on_connection_error frame_size_violation))
    else end_headers p flags
