-- ===== src/Http2/RoundTrip.antt =====
-- src/xzero/http/http2: a frame that Generator.cc wrote, alone in a chunk, as Parser.cc reads it.
use x.Base.{
  ℕ, suc, ◌+◌, ◌%◌, ◌^◌, ◌<◌, ◌≡◌, refl, sym, ap, ◌∙◌, arith, ◌++◌, Bytes, length, Outcome, ok,
  ◌>>=◌,
}
use x.Http2.Pieces.{data_loop-final}
use x.Http2.{
  code, FrameType, data_frame, reset_stream_frame, settings_frame, ping_frame, window_update_frame,
  write32,
}
use x.Http2.Generator.{
  generate_frame_header, generate_data, generate_reset_stream, write_settings, generate_settings,
  generate_ping, generate_ping_ack, generate_window_update,
}
use x.Http2.State.{Parser, framing}
use x.Http2.Parser.{parse_frame_of, parse_frames, parse_fragment}
use x.Http2.Words.{frame, length-frame, parse_frames-one, parse_fragment-framing}
use x.Http2.Messages.{
  Payload, data_message, reset_stream_message, settings_message, ping_message, ping_ack_message,
  window_update_message, generate_frame, Fits, receive,
}
use x.Http2.Payloads.{
  length-write_settings, frame_of_data, frame_of_reset_stream, frame_of_window_update,
  frame_of_ping, frame_of_settings,
}

module _ (p : Parser) (at : p.state ≡ framing) where
  one_frame :
      (t : FrameType) (flags sid : ℕ) (payload : Bytes) (r : Outcome Parser) (wire : Bytes)
      → wire ≡ generate_frame_header t flags sid (length payload) ++ payload
      → flags < 256
      → sid < 2 ^ 31
      → 0 < length payload
      → length payload < 2 ^ 24
      → parse_frame_of p (code t) flags sid payload ≡ r
      → parse_fragment p wire ≡ (do q ← r; ok (q, length wire))
  one_frame t flags sid payload r wire is f s some small e =
      let sent = frame p t flags sid payload in
      rw is (
        parse_fragment-framing p sent at
        ∙ ap (λ (n : ℕ). parse_frames n p sent 0) {y = suc (8 + length payload)}
            (omega (arith, length-frame p t flags sid payload))
        ∙ parse_frames-one p t flags sid payload (8 + length payload) f s some small
        ∙ ap (λ (o : Outcome Parser). (do q ← o; ok (q, length sent))) e)

-- A message that fits a frame of the generator, sent to a parser that expects it and gets its bytes alone
-- in a chunk, reaches the listener in one call with what was sent, and every byte is used: data, always
-- as the end of its stream, the reset of a stream, settings, which the parser applies first, a ping, its
-- answer, and the update of a window.
pub parse-generate :
    (limit : ℕ) (p : Parser) (m : Payload)
    → p.state ≡ framing
    → Fits limit p m
    → parse_fragment p (generate_frame limit m)
      ≡ (do q ← receive p m; ok (q, length (generate_frame limit m)))
unfolding generate_data generate_reset_stream generate_settings generate_ping generate_ping_ack
    generate_window_update write32
parse-generate limit p (data_message sid bytes last) at ((h, lt), some, fits, small, le) =
    one_frame p at data_frame 1 sid bytes _ (generate_data limit sid bytes last)
      (data_loop-final (length bytes) limit sid bytes last fits) (omega arith) lt some small
      (frame_of_data p sid bytes h le)
parse-generate limit p (reset_stream_message sid error) at ((h, lt), seen, e, le) =
    one_frame p at reset_stream_frame 0 sid (write32 error) _ (generate_reset_stream sid error) refl
      (omega arith) lt (omega arith) (omega arith) (frame_of_reset_stream p sid error h seen e le)
parse-generate limit p (settings_message settings) at (all, some, small, le) =
    let len = length-write_settings settings in
    one_frame p at settings_frame 0 0 (write_settings settings) _ (generate_settings settings)
      (ap (λ (n : ℕ). generate_frame_header settings_frame 0 0 n ++ write_settings settings)
        (sym len))
      (omega arith) (omega arith) (omega (arith, len, some)) (omega (arith, len, small))
      (frame_of_settings p settings all le)
parse-generate limit p (ping_message bytes) at (len, le) =
    one_frame p at ping_frame 0 0 bytes _ (generate_ping bytes)
      (ap (λ (n : ℕ). generate_frame_header ping_frame 0 0 n ++ bytes) (sym len)) (omega arith)
      (omega arith) (omega (arith, len)) (omega (arith, len)) (frame_of_ping p bytes len le).0
parse-generate limit p (ping_ack_message bytes) at (len, le) =
    one_frame p at ping_frame 1 0 bytes _ (generate_ping_ack bytes)
      (ap (λ (n : ℕ). generate_frame_header ping_frame 1 0 n ++ bytes) (sym len)) (omega arith)
      (omega arith) (omega (arith, len)) (omega (arith, len)) (frame_of_ping p bytes len le).1
parse-generate limit p (window_update_message sid size) at (lt, some, small, le) =
    one_frame p at window_update_frame 0 sid (write32 (size % 2 ^ 31)) _
      (generate_window_update sid size) refl (omega arith) lt (omega arith) (omega arith)
      (frame_of_window_update p sid size some small le)
