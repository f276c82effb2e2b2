-- ===== src/Http2/Payloads.antt =====
-- src/xzero/http/http2/Parser.cc: the payloads that Generator.cc wrote, as `parseFrame` reads them.
use x.Base.{
  ℕ, ◌+◌, ◌-◌, ◌*◌, ◌/◌, ◌%◌, ◌^◌, ◌<◌, ◌≤◌, ◌≡◌, refl, sym, ap, ◌∙◌, arith, true, false, List, [],
  ◌∷◌, ◌++◌, Bytes, length, All, ltb, ◌==◌, ◌&&◌, if◌then◌else◌, append_assoc, append-nil, Outcome,
  ok, raise, ◌>>=◌,
}
use x.Http2.{
  data_frame, reset_stream_frame, settings_frame, ping_frame, window_update_frame, Event, on_data,
  on_reset_stream, on_settings, on_ping, on_ping_ack, on_window_update, on_stream_error,
  protocol_violation, flow_control_violation, write16, write32,
}
use x.Http2.Generator.{write_settings}
use x.Http2.State.{Parser, emit}
use x.Http2.Control.{decode_loop, decode_settings, apply_settings}
use x.Http2.Parser.{parse_frame_of}
use x.Http2.Words.{word}
use x.Http2.Messages.{settings_message, IsSetting, remember, receive}

small_lem : (p : Parser) (n : ℕ) → n ≤ p.max_frame_size → ltb p.max_frame_size n ≡ false
small_lem p n h = ground arith

ne_zero : (n : ℕ) → 0 < n → (n == 0) ≡ false
ne_zero n h = ground arith

module _ (p : Parser) (sid : ℕ) where
  pub frame_of_data :
      (bytes : Bytes)
      → 0 < sid
      → length bytes ≤ p.max_frame_size
      → parse_frame_of p 0 1 sid bytes ≡ ok (remember data_frame sid p (on_data sid bytes true))
  unfolding parse_frame_of
  frame_of_data bytes h small = rw (small_lem p (length bytes) small, ne_zero sid h) refl

  pub frame_of_reset_stream :
      (error : ℕ)
      → 0 < sid
      → sid ≤ p.newest_stream_id
      → error < 2 ^ 32
      → 4 ≤ p.max_frame_size
      → parse_frame_of p 3 0 sid (write32 error)
        ≡ ok (remember reset_stream_frame sid p (on_reset_stream sid error))
  unfolding parse_frame_of write32
  frame_of_reset_stream error h seen e small =
      rw (small_lem p 4 small, ne_zero sid h, seen_lem seen)
        (ap (λ (n : ℕ). ok (remember reset_stream_frame sid p (on_reset_stream sid n)))
          (word error e))
    where
      seen_lem : sid ≤ p.newest_stream_id → ltb p.newest_stream_id sid ≡ false
      seen_lem h = ground arith

  pub frame_of_window_update :
      (size : ℕ)
      → 0 < size
      → size < 2 ^ 31
      → 4 ≤ p.max_frame_size
      → parse_frame_of p 8 0 sid (write32 (size % 2 ^ 31))
        ≡ ok (remember window_update_frame sid p (on_window_update sid size))
  unfolding parse_frame_of write32
  frame_of_window_update size h lt small = rw (small_lem p 4 small) (
      ap (λ (n : ℕ). ok (remember window_update_frame sid p (updated n))) {y = size}
        (ap (λ (n : ℕ). n % 2 ^ 31) (word (size % 2 ^ 31) (omega arith)) ∙ omega (arith, lt))
      ∙ rw (ne_zero size h) refl)
    where
      updated : ℕ → Event
      updated n = if n == 0 then on_stream_error sid protocol_violation else on_window_update sid n

pub frame_of_ping :
    (p : Parser) (bytes : Bytes)
    → length bytes ≡ 8
    → 8 ≤ p.max_frame_size
    → (parse_frame_of p 6 0 0 bytes ≡ ok (remember ping_frame 0 p (on_ping bytes)))
      × (parse_frame_of p 6 1 0 bytes ≡ ok (remember ping_frame 0 p (on_ping_ack bytes)))
unfolding parse_frame_of
frame_of_ping p bytes h small = rw (h, small_lem p 8 small) (refl, refl)

-- One round of `decode_loop`.
module _ (before : List (ℕ × ℕ)) (rest : Bytes) where
  abbrev decoded : ℕ → ℕ → List (ℕ × ℕ) × ℕ
  decoded id value =
      let known = decode_loop rest (before ++ (id, value) ∷ []) in
      if id == 4
      then (if ltb value (2 ^ 31 - 1) then known else (before, flow_control_violation))
      else if ltb 0 id && ltb id 7
      then known
      else decode_loop rest before

  decoded_lem :
      (id value : ℕ)
      → IsSetting (id, value)
      → decoded id value ≡ decode_loop rest (before ++ (id, value) ∷ [])
  decoded_lem id value h = ground (arith, h)

decode-write :
    (settings before : List (ℕ × ℕ))
    → All IsSetting settings
    → decode_loop (write_settings settings) before ≡ (before ++ settings, 0)
unfolding decode_loop write_settings write16 write32
decode-write [] before h = ap (λ (l : List (ℕ × ℕ)). (l, 0)) (sym (append-nil before))
decode-write ((id, value) ∷ settings) before (h, all) =
    ap
      (λ (n : ℕ). decoded before (write_settings settings) n (
        value / 16777216 % 256 * 16777216
        + value / 65536 % 256 * 65536
        + value / 256 % 256 * 256
        + value % 256))
      {x = id / 256 % 256 * 256 + id % 256} {y = id} (omega (arith, h))
    ∙ ap (decoded before (write_settings settings) id) (word value (omega (arith, h)))
    ∙ decoded_lem before (write_settings settings) id value h
    ∙ decode-write settings (before ++ (id, value) ∷ []) all
    ∙ ap (λ (l : List (ℕ × ℕ)). (l, 0)) (append_assoc before ((id, value) ∷ []) settings)

pub length-write_settings :
    (settings : List (ℕ × ℕ)) → length (write_settings settings) ≡ length settings * 6
unfolding write_settings write16 write32
length-write_settings [] = refl
length-write_settings ((id, value) ∷ settings) = omega (arith, length-write_settings settings)

decode_settings-write :
    (settings : List (ℕ × ℕ))
    → All IsSetting settings
    → decode_settings (write_settings settings) ≡ (settings, 0)
unfolding decode_settings
decode_settings-write settings h = rw (six settings) (decode-write settings [] h)
  where
    six : (settings : List (ℕ × ℕ)) → (length (write_settings settings) % 6 == 0) ≡ true
    six settings = ground (arith, length-write_settings settings)

applied :
    (settings : List (ℕ × ℕ)) (r : Outcome Parser)
    → (do
      q ← (do q ← r; ok (emit q (on_settings settings)))
      ok (record q { last_frame_type = settings_frame; last_stream_id = 0 }))
      ≡ (do q ← r; ok (remember settings_frame 0 q (on_settings settings)))
applied settings (ok q) = refl
applied settings (raise e) = refl

pub frame_of_settings :
    (p : Parser) (settings : List (ℕ × ℕ))
    → All IsSetting settings
    → length settings * 6 ≤ p.max_frame_size
    → parse_frame_of p 4 0 0 (write_settings settings) ≡ receive p (settings_message settings)
unfolding parse_frame_of
frame_of_settings p settings h small =
    rw
      (
        small_lem p (length (write_settings settings))
            (omega (arith, small, length-write_settings settings)),
        decode_settings-write settings h,
      )
      (applied settings (apply_settings p settings))
