-- ===== src/Http2/Generator.antt =====
-- src/xzero/http/http2/Generator.cc. The sink is the bytes that are returned; the assertions on stream
-- ids and sizes are asked of the arguments where a theorem needs them.
use x.Base.{
  ℕ, zero, suc, ◌+◌, ◌-◌, ◌*◌, ◌%◌, ◌^◌, Bool, false, not, ◌&&◌, List, [], ◌∷◌, ◌++◌, Bytes, length,
  take, drop, min, leb, ltb, ◌==◌, if◌then◌else◌, Outcome, ok, ◌>>=◌,
}
use x.Http2.{
  FrameType, code, data_frame, headers_frame, priority_frame, reset_stream_frame, settings_frame,
  push_promise_frame, ping_frame, go_away_frame, window_update_frame, continuation_frame, write8,
  write16, write24, write32,
}
use x.Hpack.Parser.{Field}
use x.Hpack.Generator as Hpack

unfoldable pub generate_frame_header : FrameType → ℕ → ℕ → ℕ → Bytes
unfolding write8 write24 write32
generate_frame_header type flags sid size =
    write24 size ++ write8 (code type) ++ write8 flags ++ write32 (sid % 2 ^ 31)

-- `generateData` of `maxFrameSize_`, without its assertion that the stream is not 0. `fuel` bounds the rounds; the flag of a round is END_STREAM unless
-- more is to come and `last` was not asked for.
unfoldable pub data_loop : ℕ → ℕ → ℕ → Bytes → Bool → Bytes
unfolding generate_frame_header
data_loop zero limit sid bytes last = []
data_loop (suc fuel) limit sid bytes last =
    let size = min (length bytes) limit in
    let flags = if not last && ltb size (length bytes) then 0 else 1 in
    let rest = data_loop fuel limit sid (drop size bytes) last in
    generate_frame_header data_frame flags sid size
    ++ take size bytes
    ++ (if size == length bytes then [] else rest)

unfoldable pub generate_data : ℕ → ℕ → Bytes → Bool → Bytes
unfolding data_loop
generate_data limit sid bytes last = data_loop (suc (length bytes)) limit sid bytes last

-- `generateContinuations`.
unfoldable pub continuations : ℕ → ℕ → ℕ → Bytes → Bytes
unfolding generate_frame_header
continuations zero limit sid payload = []
continuations (suc fuel) limit sid payload =
    let rest = continuations fuel limit sid (drop limit payload) in
    if ltb limit (length payload)
    then generate_frame_header continuation_frame 0 sid limit ++ take limit payload ++ rest
    else generate_frame_header continuation_frame 4 sid (length payload) ++ payload

unfoldable pub generate_continuations : ℕ → ℕ → Bytes → Bytes
unfolding continuations
generate_continuations limit sid payload = continuations (suc (length payload)) limit sid payload

-- The dependency and the weight, which the length of the frame leaves out.
unfoldable pub dependency : ℕ → Bool → ℕ → Bytes
unfolding write8 write32
dependency depends_on exclusive weight =
    if depends_on == 0
    then []
    else write32 (if exclusive then depends_on % 2 ^ 31 + 2 ^ 31 else depends_on % 2 ^ 31)
      ++ write8 weight

-- `generateHeaders`, all parameters given. A block that fits one frame is not written.
unfoldable pub generate_headers_depending :
    ℕ
    → Hpack.Generator
    → ℕ
    → List (Bool × Field)
    → ℕ
    → Bool
    → ℕ
    → Bool
    → Outcome (Hpack.Generator × Bytes)
unfolding Hpack.clear_block Hpack.generate_headers generate_frame_header dependency
    generate_continuations
generate_headers_depending limit g sid headers depends_on exclusive weight last = do
  h ← Hpack.generate_headers headers (Hpack.clear_block g)
  let payload = h.header_block in
      let flags = (if last then 1 else 0) + (if depends_on == 0 then 0 else 32) in
      if leb (length payload) limit
      then ok (
        h,
        generate_frame_header headers_frame (flags + 4) sid (length payload)
            ++ dependency depends_on exclusive weight,
      )
      else ok (
        h,
        generate_frame_header headers_frame flags sid limit
            ++ dependency depends_on exclusive weight
            ++ take limit payload
            ++ generate_continuations limit sid (drop limit payload),
      )

-- `generateHeaders` with `last` alone, whose call gives the parameters in another order: `last` becomes
-- the stream that is depended on.
unfoldable pub generate_headers :
    ℕ → Hpack.Generator → ℕ → List (Bool × Field) → Bool → Outcome (Hpack.Generator × Bytes)
unfolding generate_headers_depending
generate_headers limit g sid headers last =
    generate_headers_depending limit g sid headers (if last then 1 else 0) false 0 false

unfoldable pub generate_priority : ℕ → Bool → ℕ → ℕ → Bytes
unfolding generate_frame_header write8 write32
generate_priority sid exclusive depends_on weight =
    generate_frame_header priority_frame 0 sid 5
    ++ write32 (if exclusive then depends_on % 2 ^ 31 + 2 ^ 31 else depends_on)
    ++ write8 (weight - 1)

unfoldable pub generate_reset_stream : ℕ → ℕ → Bytes
unfolding generate_frame_header write32
generate_reset_stream sid error = generate_frame_header reset_stream_frame 0 sid 4 ++ write32 error

unfoldable pub write_settings : List (ℕ × ℕ) → Bytes
unfolding write16 write32
write_settings [] = []
write_settings ((id, value) ∷ settings) = write16 id ++ write32 value ++ write_settings settings

unfoldable pub generate_settings : List (ℕ × ℕ) → Bytes
unfolding generate_frame_header write_settings
generate_settings settings =
    generate_frame_header settings_frame 0 0 (length settings * 6) ++ write_settings settings

unfoldable pub generate_settings_ack : Bytes
unfolding generate_frame_header
generate_settings_ack = generate_frame_header settings_frame 1 0 0

-- The end of `generatePushPromise`, once the header block is there.
unfoldable pub generate_promise : ℕ → ℕ → ℕ → Bytes → Bytes
unfolding generate_frame_header write32 generate_continuations
generate_promise limit sid promised payload =
    if leb (length payload) limit
    then generate_frame_header push_promise_frame 4 sid (length payload)
      ++ write32 (promised % 2 ^ 31)
      ++ payload
    else generate_frame_header push_promise_frame 0 sid limit
      ++ take limit payload
      ++ generate_continuations limit sid (drop limit payload)

-- `generatePing` and `generatePingAck` of eight bytes.
unfoldable pub generate_ping : Bytes → Bytes
unfolding generate_frame_header
generate_ping payload = generate_frame_header ping_frame 0 0 8 ++ payload

unfoldable pub generate_ping_ack : Bytes → Bytes
unfolding generate_frame_header
generate_ping_ack payload = generate_frame_header ping_frame 1 0 8 ++ payload

unfoldable pub generate_go_away : ℕ → ℕ → ℕ → Bytes → Bytes
unfolding generate_frame_header write32
generate_go_away limit last_sid error debug =
    let size = min (limit - 8) (length debug) in
    generate_frame_header go_away_frame 0 last_sid (size + 8)
    ++ write32 (last_sid % 2 ^ 31)
    ++ write32 error
    ++ take size debug

unfoldable pub generate_window_update : ℕ → ℕ → Bytes
unfolding generate_frame_header write32
generate_window_update sid size =
    generate_frame_header window_update_frame 0 sid 4 ++ write32 (size % 2 ^ 31)
