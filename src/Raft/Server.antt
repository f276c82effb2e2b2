-- ===== src/Raft/Server.antt =====
-- src/xzero/raft/Server.cc: the state of a server and its handlers, over the memory store.
-- Each function is one critical section under `serverLock_`. The timer, the wakeups of the worker
-- threads, the callbacks on a change of state or leader, and logging are not part of the state.
-- A message that a handler sends is part of its result.
pub mod Election
pub mod Replication
pub mod Commit
use x.Base.{
  ℕ, zero, suc, ◌+◌, ◌-◌, ◌/◌, ◌%◌, ◌^◌, min, Bool, true, false, not, ◌&&◌, List, [], ◌∷◌, ◌++◌,
  Bytes, length, take, get_elem?, ltb, leb, ◌==◌, if◌then◌else◌, Option, none, some,
}
use x.Raft.Rpc.{
  LogEntry, log_command, VoteRequest, VoteResponse, AppendEntriesRequest, AppendEntriesResponse,
}
use x.Raft.Storage.{
  Storage, clear_voted_for, set_voted_for, set_current_term, latest_index, append_log_entry,
  get_log_entry, truncate_log,
}

pub data ServerState : Type 0 where
  follower candidate leader : ServerState

pub record FollowerState : Type 0 where
  pub next_index : ℕ
  pub match_index : ℕ

pub record Server : Type 0 where
  pub id : ℕ
  pub current_leader_id : ℕ
  pub storage : Storage
  pub state : ServerState
  pub max_commands_per_message : ℕ
  pub max_commands_size_per_message : ℕ
  pub commit_index : ℕ
  pub last_applied : ℕ
  pub votes_granted : ℕ
  pub followers : List (ℕ × FollowerState)

abbrev pub current_term : Server → ℕ
current_term s = s.storage.current_term

-- `Server::quorum`, by the number of members that the discovery knows.
abbrev pub quorum : ℕ → ℕ
quorum total_member_count = total_member_count / 2 + 1

unfoldable pub get_log_term : Storage → ℕ → ℕ
get_log_term s index =
    if leb index (latest_index s)
    then elim (get_log_entry s index) [ some e ↦ e.term | none ↦ 0 ]
    else 0

-- `convertToFollower`.
unfoldable pub convert_to_follower : Server → ℕ → ℕ → Server
convert_to_follower s new_leader_id leader_term = record s {
  state = follower;
  storage = clear_voted_for (set_current_term s.storage leader_term);
  current_leader_id = new_leader_id;
}

-- What `handleRequest(VoteRequest)` decides once the terms are settled.
unfoldable pub cast_vote : Server → VoteRequest → Option (ℕ × ℕ) → Server × VoteResponse
cast_vote s req none = (
  record s { storage = set_voted_for s.storage req.candidate_id req.last_log_term },
  record { term = current_term s; vote_granted = true },
)
cast_vote s req (some (voted_id, voted_term)) =
    if req.candidate_id == voted_id && ltb voted_term req.last_log_term
    then (
      record s { storage = set_voted_for s.storage req.candidate_id req.last_log_term },
      record { term = current_term s; vote_granted = true },
    )
    else (s, record { term = current_term s; vote_granted = false })

unfoldable pub handle_vote_request : Server → VoteRequest → Server × VoteResponse
unfolding convert_to_follower cast_vote
handle_vote_request s req =
    if ltb req.term (current_term s)
    then (s, record { term = current_term s; vote_granted = false })
    else (let t =
          if ltb (current_term s) req.term
          then convert_to_follower s req.candidate_id req.term
          else s in
        cast_vote t req t.storage.voted_for)

-- `setupLeader`; the replication threads that it starts begin with `start_replication`.
unfoldable pub setup_leader : Server → Server
setup_leader s = record s { current_leader_id = s.id; state = leader }

unfoldable pub is_leader : ServerState → Bool
is_leader leader = true
is_leader _ = false

unfoldable pub is_candidate : ServerState → Bool
is_candidate candidate = true
is_candidate _ = false

unfoldable pub handle_vote_response : ℕ → Server → VoteResponse → Server
unfolding setup_leader is_leader is_candidate
handle_vote_response total_member_count s resp =
    if is_leader s.state
    then s
    else if resp.vote_granted
    then (let t = record s { votes_granted = s.votes_granted + 1 } in
        if leb (quorum total_member_count) t.votes_granted && is_candidate t.state
        then setup_leader t
        else t)
    else s

-- `sendVoteRequest`: the new state, and the request that goes to every other member.
unfoldable pub send_vote_request : Server → Server × VoteRequest
unfolding get_log_term
send_vote_request s =
    let term = (current_term s + 1) % 2 ^ 64 in
    let storage = set_voted_for (set_current_term s.storage term) s.id term in
    (
      record s { votes_granted = 0; storage = storage },
      record {
        term = term;
        candidate_id = s.id;
        last_log_index = latest_index storage;
        last_log_term = get_log_term storage (latest_index storage);
      },
    )

-- `onTimeout` of a running server. A leader has no timer: the source asserts that it is not called.
unfoldable pub on_timeout : Server → Server × Option VoteRequest
unfolding send_vote_request is_leader
on_timeout s =
    if is_leader s.state
    then (s, none)
    else (let r = send_vote_request (record s { state = candidate }) in (r.0, some r.1))

-- Step 3 of `handleRequest(AppendEntriesRequest)`: the log, perhaps cut, and the entries from `i` on. An
-- index that wrapped around to 0 makes the source ask for a log of 2^64 - 1 entries; here it is kept.
unfoldable pub find_conflict : Storage → ℕ → List LogEntry → Storage × List LogEntry
unfolding get_log_term
find_conflict st index [] = (st, [])
find_conflict st index (entry ∷ entries) =
    let same = find_conflict st ((index + 1) % 2 ^ 64) entries in
    if ltb (latest_index st) index
    then (st, entry ∷ entries)
    else if entry.term == get_log_term st index
    then same
    else (truncate_log st ((index + (2 ^ 64 - 1)) % 2 ^ 64), entry ∷ entries)

-- Step 4.
unfoldable pub append_new : Storage → List LogEntry → Storage
append_new st [] = st
append_new st (entry ∷ entries) = append_new (append_log_entry st entry) entries

-- `lastIndex`.
abbrev pub last_index : AppendEntriesRequest → ℕ
last_index req = (req.prev_log_index + length req.entries) % 2 ^ 64

-- Steps 3 and 4: `index` moves on with every entry that is passed over, and an entry is appended for
-- each value up to `lastIndex`. Where `lastIndex` is 2^64 - 1 the loop of the source goes on beyond the
-- entries; here it ends with them.
unfoldable pub store_entries : Storage → AppendEntriesRequest → Storage
unfolding find_conflict append_new
store_entries st req =
    let (cut, new) = find_conflict st ((req.prev_log_index + 1) % 2 ^ 64) req.entries in
    let index = (req.prev_log_index + 1 + (length req.entries - length new)) % 2 ^ 64 in
    append_new cut (take (suc (last_index req) - index) new)

-- `handleRequest(AppendEntriesRequest)` as it is compiled without assertions. Waiting for the apply
-- thread at the end is not part of it.
unfoldable pub handle_append_entries :
    Server → AppendEntriesRequest → Server × AppendEntriesResponse
unfolding get_log_term convert_to_follower store_entries
handle_append_entries s req =
    let refused : Server × AppendEntriesResponse = (
      s,
      record { term = current_term s; last_log_index = latest_index s.storage; success = false },
    ) in
    if ltb req.term (current_term s)
    then refused
    else if not (get_log_term s.storage req.prev_log_index == req.prev_log_term)
    then refused
    else (let t =
          if ltb (current_term s) req.term
          then convert_to_follower s req.leader_id req.term
          else s in
        let storage = store_entries t.storage req in
        let commit =
          if ltb t.commit_index req.leader_commit
          then min req.leader_commit (last_index req)
          else t.commit_index in
        (
          record t { storage = storage; commit_index = commit },
          record {
            term = storage.current_term;
            last_log_index = latest_index storage;
            success = true;
          },
        ))

-- `handleRequest(AppendEntriesRequest)` with assertions: `none` where `assert(lastIndex ==
-- latestIndex())` between steps 4 and 5 ends the program.
unfoldable pub handle_append_entries_asserted :
    Server → AppendEntriesRequest → Option (Server × AppendEntriesResponse)
unfolding handle_append_entries
handle_append_entries_asserted s req =
    let r = handle_append_entries s req in
    if (r.1).success && not (last_index req == latest_index (r.0).storage) then none else some r
