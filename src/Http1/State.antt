-- ===== src/Http1/State.antt =====
-- src/xzero/http/http1/Parser.h: modes, states, and the parser; what its listener is told.
-- A `BufferRef` into the connection's buffer is the bytes that it spans. Its `shr` takes in the bytes
-- behind it, which are those that the parser stands at: the fragments follow each other in the buffer.
use x.Base.{ℕ, Bool, false, [], Bytes, Option, none}

pub data Mode : Type 0 where
  message request response : Mode

-- `no_state` is the value 0 that a `State` has before it is set.
pub data State : Type 0 where
  no_state : State
  protocol_error message_begin : State
  request_line_begin request_method request_entity_begin request_entity request_protocol_begin :
      State
  request_protocol_t1 request_protocol_t2 request_protocol_p request_protocol_slash : State
  request_protocol_version_major request_protocol_version_minor request_line_lf request_0_9_lf :
      State
  status_line_begin status_protocol_begin status_protocol_t1 status_protocol_t2 status_protocol_p :
      State
  status_protocol_slash status_protocol_version_major status_protocol_version_minor : State
  status_code_begin status_code status_message_begin status_message status_message_lf : State
  header_name_begin header_name header_colon header_value_begin header_value header_value_lf : State
  header_value_end header_end_lf : State
  lws_begin lws_lf lws_sp_ht_begin lws_sp_ht : State
  content_begin content content_endless content_chunk_size_begin content_chunk_size : State
  content_chunk_lf1 content_chunk_body content_chunk_lf2 content_chunk_cr3 content_chunk_lf3 : State

pub data HttpVersion : Type 0 where
  unknown version_0_9 version_1_0 version_1_1 version_2_0 : HttpVersion

-- The calls of the `HttpListener`.
pub data Event : Type 0 where
  begin_request : Bytes → Bytes → HttpVersion → Event
  begin_response : HttpVersion → ℕ → Bytes → Event
  begin_message : Event
  header : Bytes → Bytes → Event
  header_end : Event
  body : Bytes → Event
  message_end : Event
  bad_request : Event

-- A content length is `none` where it is negative.
pub record Parser : Type 0 where
  pub mode : Mode
  pub state : State
  pub bytes_received : ℕ
  pub lws_next : State
  pub lws_null : State
  pub method : Bytes
  pub entity : Bytes
  pub version_major : ℕ
  pub version_minor : ℕ
  pub code : ℕ
  pub reason : Bytes
  pub name : Bytes
  pub value : Bytes
  pub chunked : Bool
  pub content_length : Option ℕ

-- `Parser::Parser`.
abbrev pub new_parser : Mode → Parser
new_parser mode = record {
  mode = mode;
  state = message_begin;
  bytes_received = 0;
  lws_next = no_state;
  lws_null = no_state;
  method = [];
  entity = [];
  version_major = 0;
  version_minor = 0;
  code = 0;
  reason = [];
  name = [];
  value = [];
  chunked = false;
  content_length = none;
}

abbrev pub become : Parser → State → Parser
become p state = record p { state = state }

-- `Parser::reset`.
abbrev pub reset : Parser → Parser
reset p = record p { state = message_begin; bytes_received = 0 }
