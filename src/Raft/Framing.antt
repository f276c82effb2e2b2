-- ===== src/Raft/Framing.antt =====
-- src/xzero/raft/Parser.cc: `parseFrame` and `parseFragment`, which cut a byte stream into messages.
-- `received` is what the listener has been given. A throw leaves `parseFragment` with the parser as
-- the frame found it; the frames before it have been delivered.
pub mod Frames
pub mod Chunks
pub mod Ends
use x.Base.{
  ℕ, zero, suc, ◌+◌, ◌-◌, ◌%◌, ◌^◌, Bool, true, false, Option, none, some, List, [], ◌∷◌, ◌++◌,
  Bytes, length, drop, ltb, if◌then◌else◌, Fault, Outcome, ok, raise, ◌>>=◌,
}
use x.Wire.{try_parse_var_uint}
use x.Raft.Rpc.{Message}
use x.Raft.Parser.{parse_message}

pub record Parser : Type 0 where
  pub input_buffer : Bytes
  pub input_offset : ℕ
  pub received : List Message

abbrev pub fresh : Parser
fresh = record { input_buffer = []; input_offset = 0; received = [] }

-- `inputBuffer_.ref(inputOffset_)`, the bytes that no frame has used yet.
abbrev pub unread : Parser → Bytes
unread p = drop p.input_offset p.input_buffer

abbrev pub pending : Parser → ℕ
pending p = length p.input_buffer - p.input_offset

-- The end of `parseFrame`: where the next frame begins, or an empty buffer.
unfoldable pub deliver : Parser → Message → Bytes → Parser
deliver p msg rest =
    if ltb 0 (length rest)
    then record p {
      input_offset = length p.input_buffer - length rest;
      received = p.received ++ msg ∷ [];
    }
    else record { input_buffer = []; input_offset = 0; received = p.received ++ msg ∷ [] }

-- The rest of `parseFrame`, once the length of the payload has been tried.
unfoldable pub parse_payload : Parser → Option (ℕ × Bytes) → Outcome (Parser × Bool)
unfolding deliver
parse_payload p none = ok (p, false)
parse_payload p (some (payload_len, rest)) =
    if ltb (length rest) payload_len
    then ok (p, false)
    else do (msg, rest') ← parse_message rest; ok (deliver p msg rest', true)

unfoldable pub parse_frame : Parser → Outcome (Parser × Bool)
unfolding parse_payload
parse_frame p = do r ← try_parse_var_uint (unread p); parse_payload p r

-- How `parseFragment` ends: with the count, or by a throw. `stuck` is not C++: out of fuel.
pub data Fragment : Type 0 where
  parsed : Parser → ℕ → Fragment
  thrown : Parser → Fault → Fragment
  stuck : Fragment

after_frame : (Parser → Fragment) → Parser → ℕ → Outcome (Parser × Bool) → Fragment
after_frame more p count (ok (p', true)) = more p'
after_frame more p count (ok (p', false)) = parsed p' count
after_frame more p count (raise e) = thrown p e

-- `while (parseFrame()) messageCount++`.
unfoldable pub parse_frames : ℕ → Parser → ℕ → Fragment
unfolding after_frame
parse_frames zero p count = stuck
parse_frames (suc fuel) p count =
    after_frame (λ p'. parse_frames fuel p' ((count + 1) % 2 ^ 32)) p count (parse_frame p)

-- Every frame takes a byte, so the bytes in the buffer bound the rounds.
unfoldable pub parse_fragment : Parser → Bytes → Fragment
unfolding parse_frames
parse_fragment p chunk =
    let q = record p { input_buffer = p.input_buffer ++ chunk } in
    parse_frames (suc (length q.input_buffer)) q 0
