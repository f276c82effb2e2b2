-- ===== src/Http2/Control.antt =====
-- src/xzero/http/http2/Parser.cc: DATA, PRIORITY, RST_STREAM, SETTINGS, PING, GOAWAY and WINDOW_UPDATE.
use x.Base.{
  ℕ, ◌+◌, ◌-◌, ◌*◌, ◌%◌, ◌^◌, not, ◌&&◌, List, [], ◌∷◌, ◌++◌, Bytes, length, drop, leb, ltb, ◌==◌,
  if◌then◌else◌, Outcome, ok, ◌>>=◌,
}
use x.Hpack.Table.{set_max_size}
use x.Http2.{
  protocol_violation, flow_control_violation, frame_size_violation, on_data, on_priority, on_ping,
  on_ping_ack, on_go_away, on_reset_stream, on_settings, on_settings_ack, on_window_update,
  on_connection_error, on_stream_error, read32,
}
use x.Http2.State.{Parser, emit, has_flag, byte_at, verify_padding, char_padding}

unfoldable pub parse_data : Parser → ℕ → ℕ → Bytes → Outcome Parser
unfolding char_padding verify_padding
parse_data p flags sid payload = do
  pad ← char_padding flags payload
  if sid == 0
      then ok (emit p (on_connection_error protocol_violation))
      else if ltb 0 pad && leb (length payload) pad
      then ok (emit p (on_connection_error protocol_violation))
      else if ltb 0 pad && not (verify_padding (drop (length payload) payload))
      then ok (emit p (on_connection_error protocol_violation))
      else ok (emit p (on_data sid payload (has_flag flags 1)))

-- The weight is read at `payload[5]`, one byte beyond the five that the payload must have.
unfoldable pub parse_priority : Parser → ℕ → Bytes → Outcome Parser
unfolding byte_at read32
parse_priority p sid payload =
    if not (length payload == 5)
    then ok (emit p (on_stream_error sid frame_size_violation))
    else if sid == 0
    then ok (emit p (on_connection_error protocol_violation))
    else (do
      b ← byte_at payload 0
      word ← read32 payload
      weight ← byte_at payload 5
      ok (emit p (on_priority sid (has_flag b 128) (word % 2 ^ 31) (weight + 1))))

unfoldable pub parse_reset_stream : Parser → ℕ → Bytes → Outcome Parser
unfolding read32
parse_reset_stream p sid payload =
    if not (length payload == 4)
    then ok (emit p (on_connection_error frame_size_violation))
    else if sid == 0
    then ok (emit p (on_connection_error protocol_violation))
    else if ltb p.newest_stream_id sid
    then ok (emit p (on_connection_error protocol_violation))
    else (do error ← read32 payload; ok (emit p (on_reset_stream sid error)))

-- The loop of `decodeSettings`, six bytes at a time: the settings that are known, and an error code.
unfoldable pub decode_loop : Bytes → List (ℕ × ℕ) → List (ℕ × ℕ) × ℕ
decode_loop (a ∷ b ∷ c ∷ d ∷ e ∷ f ∷ rest) settings =
    let id = a * 256 + b in
    let value = c * 16777216 + d * 65536 + e * 256 + f in
    let known = decode_loop rest (settings ++ (id, value) ∷ []) in
    let unknown = decode_loop rest settings in
    if id == 4
    then (if ltb value (2 ^ 31 - 1) then known else (settings, flow_control_violation))
    else if ltb 0 id && ltb id 7
    then known
    else unknown
decode_loop _ settings = (settings, 0)

unfoldable pub decode_settings : Bytes → List (ℕ × ℕ) × ℕ
unfolding decode_loop
decode_settings payload =
    if not (length payload % 6 == 0) then ([], frame_size_violation) else decode_loop payload []

unfoldable pub apply_settings : Parser → List (ℕ × ℕ) → Outcome Parser
unfolding set_max_size
apply_settings p [] = ok p
apply_settings p ((id, value) ∷ settings) =
    if id == 1
    then (do
      table ← set_max_size p.header_context value
      apply_settings (record p { max_header_table_size = value; header_context = table }) settings)
    else apply_settings p settings

unfoldable pub parse_settings : Parser → ℕ → ℕ → Bytes → Outcome Parser
unfolding decode_settings apply_settings
parse_settings p flags sid payload =
    if not (sid == 0)
    then ok (emit p (on_connection_error protocol_violation))
    else if has_flag flags 1
    then ok (
        emit p (
          if length payload == 0
          then on_settings_ack
          else on_connection_error frame_size_violation))
    else (let (settings, error) = decode_settings payload in
        if not (error == 0)
        then ok (emit p (on_connection_error error))
        else (do q ← apply_settings p settings; ok (emit q (on_settings settings))))

unfoldable pub parse_ping : Parser → ℕ → Bytes → Outcome Parser
parse_ping p flags payload =
    if not (length payload == 8)
    then ok (emit p (on_connection_error frame_size_violation))
    else ok (emit p (if has_flag flags 1 then on_ping_ack payload else on_ping payload))

unfoldable pub parse_go_away : Parser → ℕ → Bytes → Outcome Parser
unfolding read32
parse_go_away p sid payload =
    if not (sid == 0)
    then ok (emit p (on_connection_error protocol_violation))
    else if ltb (length payload) 8
    then ok (emit p (on_connection_error frame_size_violation))
    else (do
      last_sid ← read32 payload
      error ← read32 (drop 4 payload)
      ok (emit p (on_go_away (last_sid % 2 ^ 31) error (drop 8 payload))))

-- A payload of another size is reported, and read all the same.
unfoldable pub parse_window_update : Parser → ℕ → Bytes → Outcome Parser
unfolding read32
parse_window_update p sid payload =
    let q = if length payload == 4 then p else emit p (on_connection_error frame_size_violation) in
    (do
      word ← read32 payload
      ok (
          emit q (
            if word % 2 ^ 31 == 0
            then on_stream_error sid protocol_violation
            else on_window_update sid (word % 2 ^ 31))))
