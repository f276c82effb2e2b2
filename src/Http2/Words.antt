-- ===== src/Http2/Words.antt =====
-- src/xzero/http/http2: the numbers of a frame are read as they were written, and a chunk that is one
-- frame is parsed in one round.
use x.Base.{
  ℕ, zero, suc, ◌+◌, ◌*◌, ◌/◌, ◌%◌, ◌^◌, ◌<◌, ◌≤◌, ◌≡◌, ◌∙◌, ap, arith, true, false, ◌++◌, Bytes,
  length, drop, ltb, refl, Outcome, ok, raise, ◌>>=◌,
}
use x.Http2.{
  FrameType, code, data_frame, headers_frame, priority_frame, reset_stream_frame, settings_frame,
  push_promise_frame, ping_frame, go_away_frame, window_update_frame, continuation_frame, write8,
  write24, write32, read24, read32,
}
use x.Http2.Generator.{generate_frame_header}
use x.Http2.State.{Parser, byte_at, framing}
use x.Http2.Parser.{parse_fragment, parse_frames, parse_frame, parse_frame_of}

pub read24-write24 : (v : ℕ) (rest : Bytes) → v < 2 ^ 24 → read24 (write24 v ++ rest) ≡ ok v
unfolding read24 write24
read24-write24 v rest h =
    ap ok {x = v / 65536 % 256 * 65536 + v / 256 % 256 * 256 + v % 256} {y = v} (omega arith)

pub word :
    (v : ℕ)
    → v < 2 ^ 32
    → v / 16777216 % 256 * 16777216 + v / 65536 % 256 * 65536 + v / 256 % 256 * 256 + v % 256 ≡ v
word v h = omega arith

pub read32-write32 : (v : ℕ) (rest : Bytes) → v < 2 ^ 32 → read32 (write32 v ++ rest) ≡ ok v
unfolding read32 write32
read32-write32 v rest h = ap ok (word v h)

code_lt : (t : FrameType) → code t % 256 ≡ code t
code_lt data_frame = refl
code_lt headers_frame = refl
code_lt priority_frame = refl
code_lt reset_stream_frame = refl
code_lt settings_frame = refl
code_lt push_promise_frame = refl
code_lt ping_frame = refl
code_lt go_away_frame = refl
code_lt window_update_frame = refl
code_lt continuation_frame = refl

-- Past the last whole header the loop ends, whatever the fuel.
pub parse_frames-end :
    (fuel : ℕ) (p : Parser) (chunk : Bytes) (offset : ℕ)
    → length chunk ≤ offset + 9
    → parse_frames fuel p chunk offset ≡ ok (p, offset)
unfolding parse_frames
parse_frames-end zero p chunk offset h = refl
parse_frames-end (suc fuel) p chunk offset h = rw (past h, parse_frames) refl
  where
    past : length chunk ≤ offset + 9 → ltb (offset + 9) (length chunk) ≡ false
    past h = ground arith

last_round :
    (fuel : ℕ) (chunk : Bytes) (offset : ℕ) (r : Outcome Parser)
    → length chunk ≤ offset + 9
    → (do q ← r; parse_frames fuel q chunk offset) ≡ (do q ← r; ok (q, offset))
last_round fuel chunk offset (ok q) h = parse_frames-end fuel q chunk offset h
last_round fuel chunk offset (raise e) h = refl

pub parse_frames-more :
    (fuel : ℕ) (p : Parser) (chunk : Bytes) (offset : ℕ)
    → offset + 9 < length chunk
    → parse_frames (suc fuel) p chunk offset ≡ (do
      size ← read24 (drop offset chunk)
      q ← parse_frame p (drop offset chunk)
      parse_frames fuel q chunk (offset + (size + 9)))
unfolding parse_frames
parse_frames-more fuel p chunk offset h = rw (before h, parse_frames) refl
  where
    before : offset + 9 < length chunk → ltb (offset + 9) (length chunk) ≡ true
    before h = ground arith

pub parse_fragment-framing :
    (p : Parser) (chunk : Bytes)
    → p.state ≡ framing
    → parse_fragment p chunk ≡ parse_frames (length chunk) p chunk 0
unfolding parse_fragment
parse_fragment-framing p chunk at = rw at refl

module _ (p : Parser) (t : FrameType) (flags sid : ℕ) (payload : Bytes) where
  abbrev pub frame : Bytes
  frame = generate_frame_header t flags sid (length payload) ++ payload

  pub length-frame : length frame ≡ 9 + length payload
  unfolding generate_frame_header write8 write24 write32
  length-frame = omega arith

  parse_frame_lem :
      flags < 256 → sid < 2 ^ 31 → parse_frame p frame ≡ parse_frame_of p (code t) flags sid payload
  unfolding parse_frame generate_frame_header write8 write24 write32 byte_at read32
  parse_frame_lem f s =
      let high : ℕ = sid % 2 ^ 31 in
      let read : ℕ =
        high / 16777216 % 256 * 16777216
        + high / 65536 % 256 * 65536
        + high / 256 % 256 * 256
        + high % 256 in
      ap (λ (n : ℕ). parse_frame_of p n (flags % 256) (read % 2 ^ 31) payload) (code_lt t)
      ∙ ap (λ (n : ℕ). parse_frame_of p (code t) n (read % 2 ^ 31) payload) {x = flags % 256}
          {y = flags} (omega arith)
      ∙ ap (λ (n : ℕ). parse_frame_of p (code t) flags n payload) {x = read % 2 ^ 31} {y = sid}
          (omega arith)

  read_size : length payload < 2 ^ 24 → read24 frame ≡ ok (length payload)
  unfolding generate_frame_header
  read_size small =
      read24-write24 (length payload)
        (write8 (code t) ++ write8 flags ++ write32 (sid % 2 ^ 31) ++ payload) small

  -- A chunk that is one frame, with a payload.
  pub parse_frames-one :
      (fuel : ℕ)
      → flags < 256
      → sid < 2 ^ 31
      → 0 < length payload
      → length payload < 2 ^ 24
      → parse_frames (suc fuel) p frame 0
        ≡ (do q ← parse_frame_of p (code t) flags sid payload; ok (q, length frame))
  parse_frames-one fuel f s some small =
      parse_frames-more fuel p frame 0 (omega (arith, length-frame, some))
      ∙ rw (read_size small, parse_frame_lem f s)
          (last_round fuel frame (0 + (length payload + 9))
              (parse_frame_of p (code t) flags sid payload) (omega (arith, length-frame))
            ∙ ap (λ (n : ℕ). (do q ← parse_frame_of p (code t) flags sid payload; ok (q, n)))
                (omega (arith, length-frame)))
