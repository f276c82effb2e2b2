-- ===== src/Raft/Rpc.antt =====
-- src/xzero/raft/rpc.h and MessageType.h: log entries and messages.
-- `Id` is a 32-bit number, `Term` and `Index` are 64-bit numbers; strings and commands are bytes.
-- A `LogType` is a number: the parser casts any number that it reads to the enumeration.
use x.Base.{ℕ, List, Bytes, Bool, length, All}
use x.Wire.{IsU32, IsU64}

abbrev pub log_command : ℕ
log_command = 1

abbrev pub log_peer_add : ℕ
log_peer_add = 2

abbrev pub log_peer_remove : ℕ
log_peer_remove = 3

pub record LogEntry : Type 0 where
  pub term : ℕ
  pub type : ℕ
  pub command : Bytes

pub record HelloRequest : Type 0 where
  pub server_id : ℕ
  pub psk : Bytes

pub record HelloResponse : Type 0 where
  pub success : Bool
  pub message : Bytes

pub record VoteRequest : Type 0 where
  pub term : ℕ
  pub candidate_id : ℕ
  pub last_log_index : ℕ
  pub last_log_term : ℕ

pub record VoteResponse : Type 0 where
  pub term : ℕ
  pub vote_granted : Bool

pub record AppendEntriesRequest : Type 0 where
  pub term : ℕ
  pub leader_id : ℕ
  pub prev_log_index : ℕ
  pub prev_log_term : ℕ
  pub leader_commit : ℕ
  pub entries : List LogEntry

pub record AppendEntriesResponse : Type 0 where
  pub term : ℕ
  pub last_log_index : ℕ
  pub success : Bool

pub record InstallSnapshotRequest : Type 0 where
  pub term : ℕ
  pub leader_id : ℕ
  pub last_included_index : ℕ
  pub last_included_term : ℕ
  pub offset : ℕ
  pub snapshot : Bytes
  pub done : Bool

pub record InstallSnapshotResponse : Type 0 where
  pub term : ℕ

-- A message; `Listener::receive` has an overload for each.
pub data Message : Type 0 where
  vote_request : VoteRequest → Message
  vote_response : VoteResponse → Message
  append_entries_request : AppendEntriesRequest → Message
  append_entries_response : AppendEntriesResponse → Message
  install_snapshot_request : InstallSnapshotRequest → Message
  install_snapshot_response : InstallSnapshotResponse → Message
  hello_request : HelloRequest → Message
  hello_response : HelloResponse → Message

-- The numbers of a log entry and of a message fit the types of their fields.
abbrev pub FitsEntry : LogEntry → Type 0
FitsEntry e = IsU64 e.term × IsU32 e.type × IsU64 (length e.command)

abbrev pub Fits : Message → Type 0
Fits (vote_request m) =
    IsU64 m.term × IsU32 m.candidate_id × IsU64 m.last_log_index × IsU64 m.last_log_term
Fits (vote_response m) = IsU64 m.term
Fits (append_entries_request m) =
    IsU64 m.term
    × IsU32 m.leader_id
    × IsU64 m.prev_log_index
    × IsU64 m.prev_log_term
    × IsU64 m.leader_commit
    × IsU64 (length m.entries)
    × All FitsEntry m.entries
Fits (append_entries_response m) = IsU64 m.term × IsU64 m.last_log_index
Fits (install_snapshot_request m) =
    IsU64 m.term
    × IsU32 m.leader_id
    × IsU64 m.last_included_index
    × IsU64 m.last_included_term
    × IsU64 m.offset
    × IsU64 (length m.snapshot)
Fits (install_snapshot_response m) = IsU64 m.term
Fits (hello_request m) = IsU32 m.server_id × IsU64 (length m.psk)
Fits (hello_response m) = IsU64 (length m.message)
