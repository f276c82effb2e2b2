-- ===== src/Raft/Server/Commit/Work.antt =====
-- raft/Server.cc: what a server does on its own and on the answers to its append requests, and what all
-- of that leaves as it is.
use x.Base.{ℕ, zero, suc, ◌+◌, ◌≡◌, refl, arith, Bytes, some}
use x.Raft.Rpc.{AppendEntriesResponse}
use x.Raft.Server.{Server, current_term}
use x.Raft.Server.Commit.{
  handle_append_entries_response, start_replication, replicate_logs_to, apply_logs, send_command,
}

-- One such piece of work; a command is taken, and an answer handled, without failure.
pub data Work (s : Server) : Server → Type 0 where
  append_response :
      (peer_id : ℕ) (resp : AppendEntriesResponse) {t : Server}
      → handle_append_entries_response peer_id s resp ≡ some t
      → Work s t
  replication : (peer_id : ℕ) → Work s (start_replication s peer_id)
  replicate : (peer_id : ℕ) → Work s (replicate_logs_to s peer_id).0
  apply : (fuel : ℕ) → Work s (apply_logs fuel s).0
  command : (bytes : Bytes) {t : Server} → send_command s bytes ≡ some t → Work s t

-- The server is in the same term and state, and its votes are the same.
pub record SameVotes (s t : Server) : Type 0 where
  pub id : t.id ≡ s.id
  pub state : t.state ≡ s.state
  pub votes_granted : t.votes_granted ≡ s.votes_granted
  pub voted_for : t.storage.voted_for ≡ s.storage.voted_for
  pub term : current_term t ≡ current_term s

apply_logs-SameVotes : (fuel : ℕ) (s : Server) → SameVotes s (apply_logs fuel s).0
unfolding apply_logs
apply_logs-SameVotes zero s = record {
  id = refl;
  state = refl;
  votes_granted = refl;
  voted_for = refl;
  term = refl;
}
apply_logs-SameVotes (suc fuel) s =
    let rest = apply_logs-SameVotes fuel (record s { last_applied = s.last_applied + 1 }) in
    ground (arith, rest.id, rest.state, rest.votes_granted, rest.voted_for, rest.term)

replicate_logs_to-SameVotes :
    (s : Server) (peer_id : ℕ) → SameVotes s (replicate_logs_to s peer_id).0
unfolding replicate_logs_to
replicate_logs_to-SameVotes s peer_id = ground arith

append_response-SameVotes :
    (s t : Server) (peer_id : ℕ) (resp : AppendEntriesResponse)
    → handle_append_entries_response peer_id s resp ≡ some t
    → SameVotes s t
unfolding handle_append_entries_response
append_response-SameVotes s t peer_id resp h = ground arith

command-SameVotes : (s t : Server) (bytes : Bytes) → send_command s bytes ≡ some t → SameVotes s t
unfolding send_command
command-SameVotes s t bytes h = ground arith

pub Work-SameVotes : {s t : Server} → Work s t → SameVotes s t
unfolding start_replication
Work-SameVotes {s} {t} (append_response peer_id resp h) =
    append_response-SameVotes s t peer_id resp h
Work-SameVotes (replication peer_id) = record {
  id = refl;
  state = refl;
  votes_granted = refl;
  voted_for = refl;
  term = refl;
}
Work-SameVotes {s} (replicate peer_id) = replicate_logs_to-SameVotes s peer_id
Work-SameVotes {s} (apply fuel) = apply_logs-SameVotes fuel s
Work-SameVotes {s} {t} (command bytes h) = command-SameVotes s t bytes h
