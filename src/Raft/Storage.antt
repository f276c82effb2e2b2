-- ===== src/Raft/Storage.antt =====
-- src/xzero/raft/Storage.cc `MemoryStore`: the vote, the term and the log of a server.
-- The log has an entry at index 0 that stands for no entry; its term is 0.
use x.Base.{
  ℕ, ◌-◌, List, [], ◌∷◌, ◌++◌, length, get_elem?, take, ltb, if◌then◌else◌, Option, none, some,
}
use x.Raft.Rpc.{LogEntry, log_command}

pub record Storage : Type 0 where
  pub voted_for : Option (ℕ × ℕ)
  pub current_term : ℕ
  pub log : List LogEntry

-- `LogEntry()`.
abbrev pub no_entry : LogEntry
no_entry = record { term = 0; type = log_command; command = [] }

abbrev pub memory_store : Storage
memory_store = record { voted_for = none; current_term = 1; log = no_entry ∷ [] }

-- `MemoryStore::initialize`: `log_.resize(1)`.
unfoldable pub initialize : Storage → Storage
initialize s = record s { log = if ltb 0 (length s.log) then take 1 s.log else no_entry ∷ [] }

abbrev pub clear_voted_for : Storage → Storage
clear_voted_for s = record s { voted_for = none }

abbrev pub set_voted_for : Storage → ℕ → ℕ → Storage
set_voted_for s id term = record s { voted_for = some (id, term) }

abbrev pub set_current_term : Storage → ℕ → Storage
set_current_term s term = record s { current_term = term }

abbrev pub latest_index : Storage → ℕ
latest_index s = length s.log - 1

abbrev pub append_log_entry : Storage → LogEntry → Storage
append_log_entry s e = record s { log = s.log ++ e ∷ [] }

abbrev pub get_log_entry : Storage → ℕ → Option LogEntry
get_log_entry s index = if ltb (latest_index s) index then none else get_elem? s.log index

-- `log_.resize(last)`, with `last` within the log as the assertion says.
abbrev pub truncate_log : Storage → ℕ → Storage
truncate_log s last = record s { log = take last s.log }
