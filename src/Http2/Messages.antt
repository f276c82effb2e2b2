-- ===== src/Http2/Messages.antt =====
-- src/xzero/http/http2: what one frame can carry from Generator.cc to the listener of Parser.cc.
use x.Base.{
  ℕ, ◌-◌, ◌*◌, ◌^◌, ◌<◌, ◌≤◌, ◌≡◌, ◌⊎◌, Bool, true, List, [], ◌∷◌, ◌++◌, Bytes, length, All,
  Outcome, ok, ◌>>=◌,
}
use x.Http2.{
  FrameType, data_frame, reset_stream_frame, settings_frame, ping_frame, window_update_frame, Event,
  on_data, on_reset_stream, on_settings, on_ping, on_ping_ack, on_window_update,
}
use x.Http2.Generator.{
  generate_data, generate_reset_stream, generate_settings, generate_ping, generate_ping_ack,
  generate_window_update,
}
use x.Http2.State.{Parser}
use x.Http2.Control.{apply_settings}

-- What a connection sends in one frame; a setting is a parameter and its value.
pub data Payload : Type 0 where
  data_message : ℕ → Bytes → Bool → Payload
  reset_stream_message : ℕ → ℕ → Payload
  settings_message : List (ℕ × ℕ) → Payload
  ping_message ping_ack_message : Bytes → Payload
  window_update_message : ℕ → ℕ → Payload

abbrev pub generate_frame : ℕ → Payload → Bytes
generate_frame limit (data_message sid bytes last) = generate_data limit sid bytes last
generate_frame limit (reset_stream_message sid error) = generate_reset_stream sid error
generate_frame limit (settings_message settings) = generate_settings settings
generate_frame limit (ping_message bytes) = generate_ping bytes
generate_frame limit (ping_ack_message bytes) = generate_ping_ack bytes
generate_frame limit (window_update_message sid size) = generate_window_update sid size

-- A parameter that the parser knows, with a value that it takes.
abbrev pub IsSetting : ℕ × ℕ → Type 0
IsSetting (id, value) =
    (0 < id) × (id < 7) × (value < 2 ^ 32) × (id < 4 ⊎ 4 < id ⊎ value < 2 ^ 31 - 1)

abbrev pub IsStream : ℕ → Type 0
IsStream sid = (0 < sid) × (sid < 2 ^ 31)

-- The message fits a frame of the generator, and the parser expects it.
abbrev pub Fits : ℕ → Parser → Payload → Type 0
Fits limit p (data_message sid bytes last) =
    IsStream sid
    × (0 < length bytes)
    × (length bytes ≤ limit)
    × (length bytes < 2 ^ 24)
    × (length bytes ≤ p.max_frame_size)
Fits limit p (reset_stream_message sid error) =
    IsStream sid × (sid ≤ p.newest_stream_id) × (error < 2 ^ 32) × (4 ≤ p.max_frame_size)
Fits limit p (settings_message settings) =
    All IsSetting settings
    × (0 < length settings)
    × (length settings * 6 < 2 ^ 24)
    × (length settings * 6 ≤ p.max_frame_size)
Fits limit p (ping_message bytes) = (length bytes ≡ 8) × (8 ≤ p.max_frame_size)
Fits limit p (ping_ack_message bytes) = (length bytes ≡ 8) × (8 ≤ p.max_frame_size)
Fits limit p (window_update_message sid size) =
    (sid < 2 ^ 31) × (0 < size) × (size < 2 ^ 31) × (4 ≤ p.max_frame_size)

-- The one call of the listener, and the type and stream that are remembered. The data of a single frame
-- always ends the stream, and settings are applied to the header table before the listener has them.
abbrev pub remember : FrameType → ℕ → Parser → Event → Parser
remember t sid p e = record p {
  events = p.events ++ e ∷ [];
  last_frame_type = t;
  last_stream_id = sid;
}

abbrev pub receive : Parser → Payload → Outcome Parser
receive p (data_message sid bytes last) = ok (remember data_frame sid p (on_data sid bytes true))
receive p (reset_stream_message sid error) =
    ok (remember reset_stream_frame sid p (on_reset_stream sid error))
receive p (settings_message settings) = do
  q ← apply_settings p settings
  ok (remember settings_frame 0 q (on_settings settings))
receive p (ping_message bytes) = ok (remember ping_frame 0 p (on_ping bytes))
receive p (ping_ack_message bytes) = ok (remember ping_frame 0 p (on_ping_ack bytes))
receive p (window_update_message sid size) =
    ok (remember window_update_frame sid p (on_window_update sid size))
