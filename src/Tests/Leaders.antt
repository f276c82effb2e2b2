-- ===== src/Tests/Leaders.antt =====
-- Runs of a leader, and of what it applies, at concrete states.
use x.Base.{ℕ, ◌≡◌, ◌≢◌, refl, arith, true, [], ◌∷◌, take, some}
use x.Raft.Rpc.{LogEntry, log_command, AppendEntriesRequest}
use x.Raft.Storage.{memory_store, no_entry}
use x.Raft.Server.{Server, leader, follower, handle_append_entries}
use x.Raft.Server.Commit.{
  apply_logs, applied, unfinished, try_load_log_entries, replicate_logs_to, follower_at,
}
use x.Raft.Server.Commit.Apply.{no_more, command_at, apply_logs-commands, apply_logs-ne-unfinished}
use x.Raft.Server.Commit.Load.{Loads, try_load_log_entries_lem}
use x.Raft.Server.Commit.Replicate.{replicate_logs_to-accepted}

abbrev entry_of : ℕ → LogEntry
entry_of term = record { term = term; type = log_command; command = term ∷ 0 ∷ [] }

-- A leader with three commands, of which it has committed two; its peer 2 is to get the second next.
abbrev leads : Server
leads = record {
  id = 1;
  current_leader_id = 1;
  storage = record memory_store {
    current_term = 3;
    log = no_entry ∷ entry_of 1 ∷ entry_of 2 ∷ entry_of 3 ∷ [];
  };
  state = leader;
  max_commands_per_message = 5;
  max_commands_size_per_message = 1024;
  commit_index = 2;
  last_applied = 0;
  votes_granted = 2;
  followers = (2, record { next_index = 2; match_index = 1 }) ∷ [];
}

abbrev follows : Server
follows = record leads {
  id = 2;
  state = follower;
  storage = record memory_store { log = no_entry ∷ entry_of 1 ∷ [] };
}

apply_logs-commands_example :
    apply_logs 3 leads
    ≡ (record leads { last_applied = 2 }, (1 ∷ 0 ∷ []) ∷ (2 ∷ 0 ∷ []) ∷ [], applied)
apply_logs-commands_example =
    apply_logs-commands 3 leads 2 ((1 ∷ 0 ∷ []) ∷ (2 ∷ 0 ∷ []) ∷ [])
      (command_at refl refl (command_at refl refl no_more)) refl (omega arith)

apply_logs-ne-unfinished_example : (apply_logs 3 leads).2 ≢ unfinished
apply_logs-ne-unfinished_example = apply_logs-ne-unfinished 3 leads (omega arith)

try_load_log_entries_lem_example :
    Loads leads.max_commands_size_per_message 2 0
      (entry_of 2 ∷ entry_of 3 ∷ [])
      (try_load_log_entries leads 2)
try_load_log_entries_lem_example = try_load_log_entries_lem leads 2 (omega arith)

replicate_logs_to-accepted_example :
    (req : AppendEntriesRequest) × (k : ℕ) × ((replicate_logs_to leads 2).1 ≡ some req)
    × ((handle_append_entries follows req).1.success ≡ true)
    × ((handle_append_entries follows req).0.storage.log
        ≡ no_entry ∷ entry_of 1 ∷ take k (entry_of 2 ∷ entry_of 3 ∷ []))
unfolding follower_at
replicate_logs_to-accepted_example =
    replicate_logs_to-accepted leads follows 2 (omega arith) (omega arith) (omega arith) refl
      (omega arith)
