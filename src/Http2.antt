-- ===== src/Http2.antt =====
-- src/xzero/http/http2: what the frames of HTTP/2 are made of (FrameType.h, FrameListener.h,
-- SettingParameter.h, StreamID.h), and the numbers of DataChain.cc and Parser.cc, most significant byte
-- first. An ErrorCode and a SettingParameter are numbers here, since the parser casts what it reads.
pub mod Generator
pub mod Parser
pub mod State
pub mod Requests
pub mod Control
pub mod Words
pub mod Ends
pub mod Refused
pub mod Pieces
pub mod Messages
pub mod Payloads
pub mod RoundTrip
use x.Base.{
  ℕ, ◌+◌, ◌*◌, ◌/◌, ◌%◌, ◌^◌, Bool, Option, none, some, List, [], ◌∷◌, get_elem?, Bytes, Outcome,
  ok, raise, undefined,
}
use x.Hpack.Parser.{Field}

pub data FrameType : Type 0 where
  data_frame headers_frame priority_frame reset_stream_frame settings_frame push_promise_frame
        ping_frame go_away_frame window_update_frame continuation_frame :
      FrameType

abbrev pub code : FrameType → ℕ
code data_frame = 0
code headers_frame = 1
code priority_frame = 2
code reset_stream_frame = 3
code settings_frame = 4
code push_promise_frame = 5
code ping_frame = 6
code go_away_frame = 7
code window_update_frame = 8
code continuation_frame = 9

-- The cases of the `switch` over a number cast to FrameType.
abbrev pub frame_type : ℕ → Option FrameType
frame_type = get_elem? (
    data_frame ∷ headers_frame ∷ priority_frame ∷ reset_stream_frame ∷ settings_frame
    ∷ push_promise_frame ∷ ping_frame ∷ go_away_frame ∷ window_update_frame ∷ continuation_frame
    ∷ [])

abbrev pub protocol_violation : ℕ
protocol_violation = 1

abbrev pub flow_control_violation : ℕ
flow_control_violation = 3

abbrev pub frame_size_violation : ℕ
frame_size_violation = 6

-- The calls of the listener, without the texts of errors.
pub data Event : Type 0 where
  on_data : ℕ → Bytes → Bool → Event
  on_request_begin : ℕ → Bool → List Field → Event
  on_priority : ℕ → Bool → ℕ → ℕ → Event
  on_ping on_ping_ack : Bytes → Event
  on_go_away : ℕ → ℕ → Bytes → Event
  on_reset_stream : ℕ → ℕ → Event
  on_settings : List (ℕ × ℕ) → Event
  on_settings_ack : Event
  on_push_promise : ℕ → ℕ → List Field → Event
  on_window_update : ℕ → ℕ → Event
  on_connection_error : ℕ → Event
  on_stream_error : ℕ → ℕ → Event

unfoldable pub write8 : ℕ → Bytes
write8 v = (v % 256) ∷ []

unfoldable pub write16 : ℕ → Bytes
write16 v = (v / 256 % 256) ∷ (v % 256) ∷ []

unfoldable pub write24 : ℕ → Bytes
write24 v = (v / 65536 % 256) ∷ (v / 256 % 256) ∷ (v % 256) ∷ []

unfoldable pub write32 : ℕ → Bytes
write32 v = (v / 16777216 % 256) ∷ (v / 65536 % 256) ∷ (v / 256 % 256) ∷ (v % 256) ∷ []

-- A read beyond the bytes at hand is undefined.
unfoldable pub read24 : Bytes → Outcome ℕ
read24 (a ∷ b ∷ c ∷ _) = ok (a * 65536 + b * 256 + c)
read24 _ = raise undefined

unfoldable pub read32 : Bytes → Outcome ℕ
read32 (a ∷ b ∷ c ∷ d ∷ _) = ok (a * 16777216 + b * 65536 + c * 256 + d)
read32 _ = raise undefined
