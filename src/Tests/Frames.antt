-- ===== src/Tests/Frames.antt =====
-- Frames of HTTP/2 at concrete values.
use x.Base.{◌≡◌, refl, arith, false, [], ◌∷◌, ◌++◌, Bytes, length, ok, raise, undefined, ◌>>=◌}
use x.Hpack.Parser.{Field}
use x.Hpack.Parser as Hpack
use x.Hpack.Integer.{encode_int}
use x.Hpack.Generator as Block
use x.Http2.{
  data_frame, ping_frame, go_away_frame, on_ping, on_connection_error, on_stream_error,
  frame_size_violation, protocol_violation,
}
use x.Http2.State.{Parser, framing, emit}
use x.Http2.Generator.{
  generate_data, generate_ping, generate_priority, generate_settings_ack, generate_go_away,
  generate_headers,
}
use x.Http2.Requests.{request_begin}
use x.Http2.Parser.{parse_fragment}
use x.Http2.Messages.{Payload, settings_message, generate_frame, receive}
use x.Http2.Pieces.{Frames, generate_data-Frames}
use x.Http2.RoundTrip.{parse-generate}
use x.Http2.Refused.{request_begin-refused}

abbrev connection : Parser
connection = record {
  state = framing;
  max_frame_size = 16384;
  max_header_table_size = 4096;
  header_context = record { max_size = 4096; size = 0; entries = [] };
  pending_headers = [];
  newest_stream_id = 0;
  last_frame_type = data_frame;
  last_stream_id = 0;
  promised_stream_id = 0;
  depends_on_sid = 0;
  is_stream_closed = false;
  is_exclusive_dependency = false;
  stream_weight = 0;
  events = [];
}

abbrev hello : Bytes
hello = 104 ∷ 101 ∷ 108 ∷ 108 ∷ 111 ∷ []

abbrev settings : Payload
settings = settings_message ((1, 256) ∷ (4, 70000) ∷ [])

parse-generate_example :
    parse_fragment connection (generate_frame 16384 settings)
    ≡ (do q ← receive connection settings; ok (q, length (generate_frame 16384 settings)))
parse-generate_example = parse-generate 16384 connection settings refl (omega arith)

generate_data-Frames_example : Frames 2 1 false hello (generate_data 2 1 hello false)
generate_data-Frames_example = generate_data-Frames 2 1 hello false (omega arith)

-- The second ping of a chunk is read with the first.
abbrev eight : Bytes
eight = 1 ∷ 2 ∷ 3 ∷ 4 ∷ 5 ∷ 6 ∷ 7 ∷ 8 ∷ []

two_pings :
    parse_fragment connection (generate_ping eight ++ generate_ping eight)
    ≡ ok (
      record (emit (emit connection (on_connection_error frame_size_violation)) (on_ping eight)) {
        last_frame_type = ping_frame;
      },
      34,
    )
unfolding parse_fragment generate_ping
two_pings = refl

-- The acknowledgement of settings has no payload, and is left in the chunk.
settings_ack_left : parse_fragment connection generate_settings_ack ≡ ok (connection, 0)
unfolding parse_fragment generate_settings_ack
settings_ack_left = refl

go_away_refused :
    parse_fragment connection (generate_go_away 16384 1 0 [])
    ≡ ok (
      record (emit connection (on_connection_error protocol_violation)) {
        last_frame_type = go_away_frame;
        last_stream_id = 1;
      },
      17,
    )
unfolding parse_fragment generate_go_away
go_away_refused = refl

priority_undefined : parse_fragment connection (generate_priority 3 false 1 16) ≡ raise undefined
unfolding parse_fragment generate_priority
priority_undefined = refl

-- A header block of one byte, `:method: GET`.
abbrev asks : Parser
asks = record connection { pending_headers = 130 ∷ []; last_stream_id = 1 }

abbrev method : Field
method = record {
  name = 58 ∷ 109 ∷ 101 ∷ 116 ∷ 104 ∷ 111 ∷ 100 ∷ [];
  value = 71 ∷ 69 ∷ 84 ∷ [];
  sensitive = false;
}

request_begin-refused_example :
    request_begin asks ≡ ok (emit asks (on_stream_error 1 protocol_violation))
unfolding Hpack.parse
request_begin-refused_example =
    request_begin-refused asks
      (record { max_size = 4096; table = connection.header_context; emitted = method ∷ [] }) [] []
      method [] (109 ∷ 101 ∷ 116 ∷ 104 ∷ 111 ∷ 100 ∷ []) 58 refl refl refl refl

-- The frame has the length of the block, and not the block.
headers_lost :
    (h : Block.Generator) × (generate_headers 16384
        (record { table = connection.header_context; header_block = [] })
        1
        ((false, method) ∷ [])
        false
      ≡ ok (h, 0 ∷ 0 ∷ 1 ∷ 1 ∷ 4 ∷ 0 ∷ 0 ∷ 0 ∷ 1 ∷ []))
unfolding generate_headers encode_int
headers_lost = (record { table = connection.header_context; header_block = 130 ∷ [] }, refl)
