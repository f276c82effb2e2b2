-- ===== src/Tests/Servers.antt =====
-- Runs of a Raft server at concrete states.
use x.Base.{
  ℕ, ◌≡◌, ◌≢◌, ◌↔◌, ◌<◌, ◌≤◌, ◌+◌, ◌/◌, refl, arith, true, List, [], ◌∷◌, length, none, some,
}
use x.Raft.Rpc.{LogEntry, log_command, VoteRequest, AppendEntriesRequest}
use x.Raft.Storage.{memory_store, no_entry, latest_index}
use x.Raft.Server.{
  Server, follower, current_term, handle_append_entries, handle_append_entries_asserted,
  FollowerState, handle_vote_request, on_timeout, get_log_term,
}
use x.Raft.Server.Election.{Vote}
use x.Raft.Server.Election.History.{Run, start, next, vote_request, timeout, AllAgree, Run-AllAgree}
use x.Raft.Server.Replication.{handle_append_entries-accepted}
use x.Raft.Server.Replication.Answers.{handle_append_entries-conflict}
use x.Raft.Server.Commit.{compute_commit_index, count_stored}
use x.Raft.Server.Commit.Index.{compute_commit_index_lem}

abbrev entry_of : ℕ → LogEntry
entry_of term = record { term = term; type = log_command; command = term ∷ [] }

abbrev server : Server
server = record {
  id = 1;
  current_leader_id = 0;
  storage = record memory_store { log = no_entry ∷ entry_of 1 ∷ entry_of 1 ∷ entry_of 1 ∷ [] };
  state = follower;
  max_commands_per_message = 5;
  max_commands_size_per_message = 1024;
  commit_index = 2;
  last_applied = 0;
  votes_granted = 0;
  followers = [];
}

abbrev asks : ℕ → ℕ → VoteRequest
asks candidate term = record {
  term = term;
  candidate_id = candidate;
  last_log_index = 3;
  last_log_term = 1;
}

abbrev votes : List Vote
votes =
    record { term = 3; candidate = 1 }
    ∷ record { term = 2; candidate = 3 }
    ∷ record { term = 1; candidate = 2 }
    ∷ []

abbrev s1 : Server
s1 = (handle_vote_request server (asks 2 1)).0

abbrev s2 : Server
s2 = (handle_vote_request s1 (asks 3 1)).0

abbrev s3 : Server
s3 = (handle_vote_request s2 (asks 3 2)).0

abbrev s4 : Server
s4 = (on_timeout s3).0

history : Run 3 server s4 votes
unfolding handle_vote_request on_timeout
history =
    next
      (next (next (next start (vote_request (asks 2 1))) (vote_request (asks 3 1)))
        (vote_request (asks 3 2)))
      (timeout (omega arith))

Run-AllAgree_example : AllAgree votes
Run-AllAgree_example = Run-AllAgree history

abbrev extends : AppendEntriesRequest
extends = record {
  term = 2;
  leader_id = 2;
  prev_log_index = 1;
  prev_log_term = 1;
  leader_commit = 3;
  entries = entry_of 1 ∷ entry_of 1 ∷ entry_of 2 ∷ [];
}

handle_append_entries-accepted_example :
    ((handle_append_entries server extends).0.storage.log
      ≡ no_entry ∷ entry_of 1 ∷ entry_of 1 ∷ entry_of 1 ∷ entry_of 2 ∷ [])
    × (current_term (handle_append_entries server extends).0 ≡ 2)
    × ((handle_append_entries server extends).1.success ≡ true)
    × ((handle_append_entries_asserted server extends ≡ some (handle_append_entries server extends))
        ↔ (2 ≤ 3))
    × ((handle_append_entries_asserted server extends ≡ none) ↔ (3 < 2))
unfolding get_log_term
handle_append_entries-accepted_example =
    handle_append_entries-accepted server extends (no_entry ∷ entry_of 1 ∷ [])
      (entry_of 1 ∷ entry_of 1 ∷ []) (omega arith) refl refl (refl, (refl, tt)) (omega arith) refl

abbrev differs : AppendEntriesRequest
differs = record extends { entries = entry_of 1 ∷ entry_of 2 ∷ [] }

other_term : (entry_of 2).term ≢ (entry_of 1).term
other_term = λ e. absurd (omega arith)

handle_append_entries-conflict_example :
    ((handle_append_entries server differs).0.storage.log ≡ no_entry ∷ entry_of 1 ∷ entry_of 2 ∷ [])
    × (latest_index (handle_append_entries server differs).0.storage + 1 ≡ 3)
    × (handle_append_entries_asserted server differs ≡ none)
unfolding get_log_term
handle_append_entries-conflict_example =
    handle_append_entries-conflict server differs (no_entry ∷ entry_of 1 ∷ []) (entry_of 1 ∷ []) []
      (entry_of 1) (entry_of 1 ∷ []) [] (entry_of 2) (omega arith) refl refl refl (refl, tt) refl
      other_term (omega arith) refl

abbrev at_index : ℕ → FollowerState
at_index index = record { next_index = index + 1; match_index = index }

abbrev three : List (ℕ × FollowerState)
three = (2, at_index 7) ∷ (3, at_index 4) ∷ (5, at_index 6) ∷ []

compute_commit_index_lem_example :
    (n : ℕ) × (compute_commit_index three ≡ some n)
    × (length three / 2 + 1 ≤ count_stored n three)
    × ((k : ℕ) → length three / 2 + 1 ≤ count_stored k three → k ≤ n)
compute_commit_index_lem_example =
    compute_commit_index_lem 2 (at_index 7) ((3, at_index 4) ∷ (5, at_index 6) ∷ [])
