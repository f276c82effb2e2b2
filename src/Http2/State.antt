-- ===== src/Http2/State.antt =====
-- src/xzero/http/http2/Parser.h: the state of the parser, and how Parser.cc reads a payload.
-- `events` is what the listener has been called with. `promised_stream_id`, `depends_on_sid` and
-- `stream_weight` have no value in C++ before they are set.
use x.Base.{
  ℕ, ◌+◌, Bool, true, not, ◌&&◌, none, some, List, [], ◌∷◌, ◌++◌, Bytes, length, take, drop,
  get_elem?, bit_and, leb, ltb, ◌^◌, ◌-◌, ◌>>=◌, ◌==◌, if◌then◌else◌, Outcome, ok, raise, undefined,
}
use x.Hpack.Table.{DynamicTable}
use x.Http2.{FrameType, Event}

pub data State : Type 0 where
  connection_preface framing : State

pub record Parser : Type 0 where
  pub state : State
  pub max_frame_size : ℕ
  pub max_header_table_size : ℕ
  pub header_context : DynamicTable
  pub pending_headers : Bytes
  pub newest_stream_id : ℕ
  pub last_frame_type : FrameType
  pub last_stream_id : ℕ
  pub promised_stream_id : ℕ
  pub depends_on_sid : ℕ
  pub is_stream_closed : Bool
  pub is_exclusive_dependency : Bool
  pub stream_weight : ℕ
  pub events : List Event

abbrev pub emit : Parser → Event → Parser
emit p e = record p { events = p.events ++ e ∷ [] }

abbrev pub has_flag : ℕ → ℕ → Bool
has_flag flags mask = not (bit_and flags mask == 0)

-- `payload[i]`.
unfoldable pub byte_at : Bytes → ℕ → Outcome ℕ
byte_at payload i = elim (get_elem? payload i) [ some b ↦ ok b | none ↦ raise undefined ]

-- The bytes `[pos, pos + count)` of a payload.
unfoldable pub slice : Bytes → ℕ → ℕ → Outcome Bytes
slice payload pos count =
    if leb (pos + count) (length payload)
    then ok (take count (drop pos payload))
    else raise undefined

unfoldable pub verify_padding : Bytes → Bool
verify_padding [] = true
verify_padding (b ∷ bs) = b == 0 && verify_padding bs

-- `padlen` of `parseHeaders`, which reads bytes without a sign.
unfoldable pub padding : ℕ → Bytes → Outcome ℕ
unfolding byte_at
padding flags payload = if has_flag flags 8 then byte_at payload 0 else ok 0

-- `paddingLength` of the others, which read a char: from 128 on it is negative, and as a size_t close to
-- 2^64.
unfoldable pub char_padding : ℕ → Bytes → Outcome ℕ
unfolding padding
char_padding flags payload = do
  b ← padding flags payload
  ok (if ltb b 128 then b else b + (2 ^ 64 - 256))
