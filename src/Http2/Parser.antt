-- ===== src/Http2/Parser.antt =====
-- src/xzero/http/http2/Parser.cc: `parseFrame` and `parseFragment`. The payload that a frame is parsed
-- with is the rest of the chunk, as in `parseFrame`.
use x.Base.{
  ℕ, zero, suc, ◌+◌, ◌%◌, ◌^◌, Bool, true, false, ◌&&◌, none, some, [], ◌∷◌, Bytes, length, drop,
  ltb, ◌==◌, if◌then◌else◌, Outcome, ok, ◌>>=◌,
}
use x.Http2.{
  FrameType, data_frame, headers_frame, priority_frame, reset_stream_frame, settings_frame,
  push_promise_frame, ping_frame, go_away_frame, window_update_frame, continuation_frame,
  frame_type, protocol_violation, frame_size_violation, on_connection_error, on_stream_error,
  read24, read32,
}
use x.Http2.Requests.{parse_headers, parse_push_promise, parse_continuation}
use x.Http2.Control.{
  parse_data, parse_priority, parse_reset_stream, parse_settings, parse_ping, parse_go_away,
  parse_window_update,
}
use x.Http2.State.{Parser, emit, byte_at, connection_preface, framing}

unfoldable pub parse_payload : FrameType → Parser → ℕ → ℕ → Bytes → Outcome Parser
unfolding parse_data parse_headers parse_priority parse_reset_stream parse_settings
    parse_push_promise parse_ping parse_go_away parse_window_update parse_continuation
parse_payload data_frame p flags sid payload = parse_data p flags sid payload
parse_payload headers_frame p flags sid payload = parse_headers p flags sid payload
parse_payload priority_frame p flags sid payload = parse_priority p sid payload
parse_payload reset_stream_frame p flags sid payload = parse_reset_stream p sid payload
parse_payload settings_frame p flags sid payload = parse_settings p flags sid payload
parse_payload push_promise_frame p flags sid payload = parse_push_promise p flags sid payload
parse_payload ping_frame p flags sid payload = parse_ping p flags payload
parse_payload go_away_frame p flags sid payload = parse_go_away p sid payload
parse_payload window_update_frame p flags sid payload = parse_window_update p sid payload
parse_payload continuation_frame p flags sid payload = parse_continuation p flags sid payload

-- `parseFrame`, once the header is read. A frame of an unknown type is skipped and not remembered.
unfoldable pub parse_frame_of : Parser → ℕ → ℕ → ℕ → Bytes → Outcome Parser
unfolding parse_payload
parse_frame_of p type flags sid payload =
    if ltb p.max_frame_size (length payload)
    then ok (
        emit p (
          if sid == 0
          then on_connection_error frame_size_violation
          else on_stream_error sid frame_size_violation))
    else elim (frame_type type) [
      | none ↦ ok p
      | some t ↦ (do
        q ← parse_payload t p flags sid payload
        ok (record q { last_frame_type = t; last_stream_id = sid }))
    ]

unfoldable pub parse_frame : Parser → Bytes → Outcome Parser
unfolding parse_frame_of byte_at read32
parse_frame p frame = do
  type ← byte_at frame 3
  flags ← byte_at frame 4
  sid ← read32 (drop 5 frame)
  parse_frame_of p type flags (sid % 2 ^ 31) (drop 9 frame)

-- The loop of `parseFragment`, from `offset`. A round takes nine bytes at least.
unfoldable pub parse_frames : ℕ → Parser → Bytes → ℕ → Outcome (Parser × ℕ)
unfolding parse_frame read24
parse_frames zero p chunk offset = ok (p, offset)
parse_frames (suc fuel) p chunk offset = elim (ltb (offset + 9) (length chunk)) [
  | false ↦ ok (p, offset)
  | true ↦ (do
    size ← read24 (drop offset chunk)
    q ← parse_frame p (drop offset chunk)
    parse_frames fuel q chunk (offset + (size + 9)))
]

unfoldable pub begins_with : Bytes → Bytes → Bool
begins_with text [] = true
begins_with [] (b ∷ bs) = false
begins_with (a ∷ text) (b ∷ bs) = a == b && begins_with text bs

-- "PRI * HTTP/2.0\r\n\r\nSM\r\n\r\n".
abbrev pub preface : Bytes
preface =
    80 ∷ 82 ∷ 73 ∷ 32 ∷ 42 ∷ 32 ∷ 72 ∷ 84 ∷ 84 ∷ 80 ∷ 47 ∷ 50 ∷ 46 ∷ 48 ∷ 13 ∷ 10 ∷ 13 ∷ 10 ∷ 83
    ∷ 77 ∷ 13 ∷ 10 ∷ 13 ∷ 10 ∷ []

unfoldable pub parse_fragment : Parser → Bytes → Outcome (Parser × ℕ)
unfolding parse_frames begins_with
parse_fragment p chunk = elim p.state [
  | framing ↦ parse_frames (length chunk) p chunk 0
  | connection_preface ↦
      if begins_with chunk preface
      then parse_frames (length chunk) (record p { state = framing }) chunk (length preface)
      else ok (emit p (on_connection_error protocol_violation), 0)
]
