-- ===== src/Raft/Server/Commit.antt =====
-- raft/Server.cc: what a leader does: the index that it may commit, answers of the followers, the
-- entries that it loads and the requests that it sends.
-- The followers are the pairs of the hash map, listed by ascending key: the source uses them in no
-- order but that of the map, and what it computes from them does not depend on it.
pub mod Index
pub mod Apply
pub mod Load
pub mod Replicate
pub mod Work
use x.Base.{
  ℕ, zero, suc, ◌+◌, ◌-◌, ◌/◌, ◌%◌, ◌^◌, min, Bool, true, false, not, ◌&&◌, List, [], ◌∷◌, ◌++◌,
  Bytes, length, ltb, leb, ◌==◌, if◌then◌else◌, Option, none, some,
}
use x.Raft.Rpc.{LogEntry, log_command, AppendEntriesRequest, AppendEntriesResponse}
use x.Raft.Storage.{Storage, latest_index, append_log_entry, get_log_entry}
use x.Raft.Server.{Server, ServerState, FollowerState, current_term, get_log_term, is_leader}

abbrev pub Followers : Type 0
Followers = List (ℕ × FollowerState)

-- `std::min_element` and `std::max_element` over `matchIndex`, from the first element on.
unfoldable pub min_match : ℕ → Followers → ℕ
min_match low [] = low
min_match low ((id, f) ∷ fs) = min_match (if ltb f.match_index low then f.match_index else low) fs

unfoldable pub max_match : ℕ → Followers → ℕ
max_match high [] = high
max_match high ((id, f) ∷ fs) =
    max_match (if ltb high f.match_index then f.match_index else high) fs

-- The inner loop: how many followers have stored entry `n`.
unfoldable pub count_stored : ℕ → Followers → ℕ
count_stored n [] = 0
count_stored n ((id, f) ∷ fs) =
    let rest = count_stored n fs in if leb n f.match_index then rest + 1 else rest

-- The loop over `N`, with `steps` values from `n` on. With `high` the largest `Index` the loop of the
-- source would go on from 0; here it ends.
unfoldable pub commit_loop : ℕ → Followers → ℕ → ℕ → ℕ → ℕ
commit_loop quorum fs zero n result = result
commit_loop quorum fs (suc steps) n result =
    commit_loop quorum fs steps (n + 1)
      (if leb quorum (count_stored n fs) && ltb result n then n else result)

-- `computeCommitIndex`. Without a follower the source dereferences the end of the map.
unfoldable pub compute_commit_index : Followers → Option ℕ
unfolding min_match max_match commit_loop
compute_commit_index [] = none
compute_commit_index ((id, f) ∷ fs) =
    let all = (id, f) ∷ fs in
    let low = min_match f.match_index fs in
    let high = max_match f.match_index fs in
    some (commit_loop (length all / 2 + 1) all (suc high - low) low low)

-- `followers_[peerId]`, which inserts an empty state for a new peer.
unfoldable pub follower_at : ℕ → Followers → FollowerState
follower_at id [] = record { next_index = 0; match_index = 0 }
follower_at id ((k, f) ∷ fs) = let rest = follower_at id fs in if k == id then f else rest

-- The write to `followers_[peerId]`; the keys ascend.
unfoldable pub put_follower : ℕ → FollowerState → Followers → Followers
put_follower id g [] = (id, g) ∷ []
put_follower id g ((k, f) ∷ fs) =
    let rest = put_follower id g fs in
    if k == id then (id, g) ∷ fs else if ltb id k then (id, g) ∷ (k, f) ∷ fs else (k, f) ∷ rest

-- `handleResponse(AppendEntriesResponse)`; `none` where `computeCommitIndex` has no follower.
unfoldable pub handle_append_entries_response : ℕ → Server → AppendEntriesResponse → Option Server
unfolding put_follower compute_commit_index
handle_append_entries_response peer_id s resp =
    if not (is_leader s.state)
    then some s
    else (let f : FollowerState = record {
      next_index = (resp.last_log_index + 1) % 2 ^ 64;
      match_index = if resp.success then resp.last_log_index else 0;
    } in
        let followers = put_follower peer_id f s.followers in
        elim (compute_commit_index followers) [
          | some index ↦ some (record s { followers = followers; commit_index = index })
          | none ↦ none
        ])

-- The loop of `tryLoadLogEntries`, over `count` indices from `i` on; `none` when an entry is missing. The
-- sum of the sizes has no wrap-around: the commands are in memory together.
unfoldable pub load_entries : ℕ → Storage → ℕ → ℕ → ℕ → Option (List LogEntry)
load_entries limit st zero i total = some []
load_entries limit st (suc count) i total = elim (get_log_entry st i) [
  | none ↦ none
  | some e ↦
      let size = total + length e.command in
      let rest = load_entries limit st count (i + 1) size in
      if ltb limit size then some [] else elim rest [ some es ↦ some (e ∷ es) | none ↦ none ]
]

-- `tryLoadLogEntries`: the indices `first <= i <= first + count`.
unfoldable pub try_load_log_entries : Server → ℕ → Option (List LogEntry)
unfolding load_entries
try_load_log_entries s first =
    load_entries s.max_commands_size_per_message s.storage
      (suc (min s.max_commands_per_message (latest_index s.storage - first))) first 0

-- The first two assignments of `replicationLoop`.
unfoldable pub start_replication : Server → ℕ → Server
unfolding put_follower
start_replication s peer_id = record s {
  followers =
      put_follower peer_id (record { next_index = latest_index s.storage + 1; match_index = 0 })
        s.followers;
}

-- `replicateLogsTo`: the request that is sent, and the state after it; nothing is sent when the
-- entries cannot be loaded. A `nextIndex` of 0 wraps `prevLogIndex` around.
unfoldable pub replicate_logs_to : Server → ℕ → Server × Option AppendEntriesRequest
unfolding follower_at put_follower try_load_log_entries get_log_term
replicate_logs_to s peer_id =
    let f = follower_at peer_id s.followers in
    let prev = (f.next_index + (2 ^ 64 - 1)) % 2 ^ 64 in
    let loaded =
      if leb f.next_index (latest_index s.storage)
      then try_load_log_entries s f.next_index
      else some [] in
    elim loaded [
      | none ↦ (record s { followers = put_follower peer_id f s.followers }, none)
      | some es ↦ (
        record s {
          followers =
              put_follower peer_id (record f { next_index = f.next_index + length es }) s.followers;
        },
        some (record {
          term = current_term s;
          leader_id = s.id;
          prev_log_index = prev;
          prev_log_term = get_log_term s.storage prev;
          leader_commit = s.commit_index;
          entries = es;
        }),
      )
    ]

-- How `applyLogs` ends: everything committed is applied, an entry is missing, an entry is not a
-- command (`NotImplementedError`), or the fuel is used up.
pub data ApplyEnd : Type 0 where
  applied missing not_implemented unfinished : ApplyEnd

-- `applyLogs`, with fuel for its loop: the commands handed to the state machine, in order.
unfoldable pub apply_logs : ℕ → Server → Server × List Bytes × ApplyEnd
apply_logs zero s = (s, [], unfinished)
apply_logs (suc fuel) s =
    let index = s.last_applied + 1 in
    let (t, commands, end) = apply_logs fuel (record s { last_applied = index }) in
    if ltb s.last_applied s.commit_index
    then elim (get_log_entry s.storage index) [
      | none ↦ (s, [], missing)
      | some e ↦
          if e.type == log_command then (t, e.command ∷ commands, end) else (s, [], not_implemented)
    ]
    else (s, [], applied)

-- `sendCommandAsync`: `none` for `NotLeading`; the promise of the reply is not part of the state.
unfoldable pub send_command : Server → Bytes → Option Server
send_command s command =
    if is_leader s.state
    then some (record s {
      storage =
          append_log_entry s.storage
            (record { term = current_term s; type = log_command; command = command });
    })
    else none
