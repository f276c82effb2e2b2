-- ===== src/Raft/Framing/Ends.antt =====
-- `parseFragment` ends on every input.
use x.Base.{
  ℕ, zero, suc, ◌-◌, ◌<◌, ◌≡◌, ◌≢◌, inl, inr, refl, arith, Bool, true, false, Option, none, some,
  Bytes, ◌++◌, length, length-drop, ltb, Outcome, ok, raise, >>=-eq-ok, Bool-cases,
}
use x.Wire.{try_parse_var_uint}
use x.Wire.VarUInt.{try_parse_var_uint_takes}
use x.Raft.Rpc.{Message}
use x.Raft.Parser.{parse_message}
use x.Raft.Parser.Progress.{Shrinks-message}
use x.Raft.Framing.{
  Parser, unread, deliver, parse_payload, parse_frame, Fragment, stuck, parse_frames, after_frame,
  parse_fragment,
}

length-unread-deliver :
    (p : Parser) (msg : Message) (rest : Bytes)
    → length rest < length (unread p)
    → length (unread (deliver p msg rest)) ≡ length rest
unfolding deliver
length-unread-deliver p msg rest h = ground (
  arith,
  length-drop (length p.input_buffer - length rest) p.input_buffer,
  length-drop p.input_offset p.input_buffer,
)

parse_payload_takes :
    (p q : Parser) (r : Option (ℕ × Bytes))
    → try_parse_var_uint (unread p) ≡ ok r
    → parse_payload p r ≡ ok (q, true)
    → length (unread q) < length (unread p)
unfolding parse_payload
parse_payload_takes p q none e e' = cc
parse_payload_takes p q (some (n, rest)) e e' = elim (Bool-cases (ltb (length rest) n)) [
  | inl short ↦ cc (rw (short, parse_payload) at e')
  | inr long ↦
      let (r, first, second) =
        >>=-eq-ok (parse_message rest) (λ (msg, rest'). ok (deliver p msg rest', true))
          (rw long at e') in
      let fewer = Shrinks-message.run rest r.0 r.1 first in
      let taken = try_parse_var_uint_takes (unread p) n rest e in
      ground (arith, length-unread-deliver p r.0 r.1 (omega arith))
]

parse_frame_takes :
    (p q : Parser) → parse_frame p ≡ ok (q, true) → length (unread q) < length (unread p)
unfolding parse_frame
parse_frame_takes p q e =
    let (r, first, second) = >>=-eq-ok (try_parse_var_uint (unread p)) (parse_payload p) e in
    parse_payload_takes p q r first second

after_frame-ne-stuck :
    (more : Parser → Fragment) (p : Parser) (count : ℕ) (r : Outcome (Parser × Bool))
    → ((q : Parser) → r ≡ ok (q, true) → more q ≢ stuck)
    → after_frame more p count r ≢ stuck
unfolding after_frame
after_frame-ne-stuck more p count (ok (q, true)) h = h q refl
after_frame-ne-stuck more p count (ok (q, false)) h = λ e. cc
after_frame-ne-stuck more p count (raise f) h = λ e. cc

parse_frames-ne-stuck :
    (fuel : ℕ) (p : Parser) (count : ℕ)
    → length (unread p) < fuel
    → parse_frames fuel p count ≢ stuck
unfolding parse_frames
parse_frames-ne-stuck zero p count h = absurd (omega arith)
parse_frames-ne-stuck (suc fuel) p count h =
    after_frame-ne-stuck _ p count (parse_frame p)
      λ q e. parse_frames-ne-stuck fuel q _ (omega (arith, parse_frame_takes p q e))

-- `parseFragment` ends on every input, in whatever state the parser is.
pub parse_fragment-ne-stuck : (p : Parser) (chunk : Bytes) → parse_fragment p chunk ≢ stuck
unfolding parse_fragment
parse_fragment-ne-stuck p chunk =
    parse_frames-ne-stuck (suc (length (p.input_buffer ++ chunk)))
      (record p { input_buffer = p.input_buffer ++ chunk }) 0
      (omega (arith, length-drop p.input_offset (p.input_buffer ++ chunk)))
