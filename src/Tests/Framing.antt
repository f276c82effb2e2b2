-- ===== src/Tests/Framing.antt =====
-- Runs of the Raft wire format at concrete messages.
use x.Base.{ℕ, ◌≡◌, ◌≢◌, refl, arith, true, List, [], ◌∷◌, Bytes}
use x.Wire.{write_var_uint, write_string}
use x.Raft.Rpc.{Message, vote_response, hello_response}
use x.Raft.Generator.{generate, payload, vote_response_payload, hello_response_payload}
use x.Raft.Parser.{parse_message}
use x.Raft.Parser.RoundTrip.{parse_message_lem}
use x.Wire.Reader.{Reads}
use x.Raft.Framing.{Parser, parsed, stuck, fresh, unread, parse_fragment}
use x.Raft.Framing.Frames.{stream}
use x.Raft.Framing.Chunks.{feed, join, feed-stream}
use x.Raft.Framing.Ends.{parse_fragment-ne-stuck}

abbrev vote : Message
vote = vote_response (record { term = 300; vote_granted = true })

abbrev hello : Message
hello = hello_response (record { success = true; message = 104 ∷ 105 ∷ [] })

abbrev chunks : List Bytes
chunks = (4 ∷ 2 ∷ 172 ∷ []) ∷ (2 ∷ []) ∷ (1 ∷ 5 ∷ 8 ∷ []) ∷ (1 ∷ 2 ∷ 104 ∷ 105 ∷ []) ∷ []

stream_test : join chunks ≡ stream (vote ∷ hello ∷ [])
unfolding generate write_var_uint vote_response_payload hello_response_payload write_string
stream_test = refl

feed-stream_example :
    (q : Parser) × (n : ℕ) × (feed fresh chunks ≡ parsed q n)
    × (q.received ≡ vote ∷ hello ∷ [])
    × (unread q ≡ [])
unfolding payload vote_response_payload hello_response_payload write_var_uint write_string
feed-stream_example =
    feed-stream (vote ∷ hello ∷ []) chunks
      ((omega arith, omega arith), ((omega arith, omega arith), tt)) stream_test

parse_message_lem_example : Reads parse_message (payload vote) vote
parse_message_lem_example = parse_message_lem vote (omega arith)

parse_fragment-ne-stuck_example : parse_fragment fresh (0 ∷ 0 ∷ 1 ∷ []) ≢ stuck
parse_fragment-ne-stuck_example = parse_fragment-ne-stuck fresh (0 ∷ 0 ∷ 1 ∷ [])
