-- ===== src/Raft/Server/Replication.antt =====
-- raft/Server.cc `handleRequest(AppendEntriesRequest)`: the requests that are accepted.
pub mod Answers
pub mod Asserted
pub mod Stores
use mathlib.Core.Path.{subst}
use x.Base.{
  ℕ, zero, suc, ◌+◌, ◌-◌, ◌<◌, ◌≤◌, ◌≡◌, ◌≢◌, refl, sym, ap, ◌∙◌, arith, Bool, true, false, List,
  [], ◌∷◌, ◌++◌, length, get_elem?, take, drop, ltb, leb, ◌==◌, if◌then◌else◌, Option, none, some,
  inl, inr, Bool-cases, ltb-ge, ltb-false→ge, ==_iff, min, append_assoc, append-nil, length-append,
  length-drop, take-all, ◌↔◌, ◌^◌, ◌%◌,
}
use x.Raft.Rpc.{LogEntry, AppendEntriesRequest, AppendEntriesResponse}
use x.Raft.Storage.{Storage, latest_index, append_log_entry, get_log_entry, truncate_log}
use x.Raft.Server.Election.{store_entries-vote}
use x.Raft.Server.{
  Server, current_term, get_log_term, convert_to_follower, find_conflict, append_new, last_index,
  store_entries, handle_append_entries, handle_append_entries_asserted,
}
use x.Raft.Server.Replication.Asserted.{asserted_iff}
use x.Raft.Server.Replication.Stores.{SameTerms, NoWrap, store_entries-end, store_entries-same}

-- The server once the terms are settled.
unfoldable pub settle : Server → AppendEntriesRequest → Server
settle s req =
    if ltb (current_term s) req.term then convert_to_follower s req.leader_id req.term else s

pub settle-storage :
    (s : Server) (req : AppendEntriesRequest)
    → current_term s ≤ req.term
    → ((settle s req).storage.log ≡ s.storage.log) × (current_term (settle s req) ≡ req.term)
unfolding settle convert_to_follower
settle-storage s req term = elim (Bool-cases (ltb (current_term s) req.term)) [
  | inl newer ↦ rw newer (refl, refl)
  | inr equal ↦ rw equal (refl, omega (arith, ltb-false→ge (current_term s) req.term equal))
]

pub handle_append_entries-settle :
    (s : Server) (req : AppendEntriesRequest)
    → current_term s ≤ req.term
    → get_log_term s.storage req.prev_log_index ≡ req.prev_log_term
    → ((handle_append_entries s req).0.storage ≡ store_entries (settle s req).storage req)
      × ((handle_append_entries s req).1.success ≡ true)
unfolding handle_append_entries settle
handle_append_entries-settle s req term prev =
    rw
      (
        ltb-ge req.term (current_term s) term,
        (==_iff (get_log_term s.storage req.prev_log_index) req.prev_log_term).1 prev,
      )
      (refl, refl)

-- A request of the server's own or a newer term that names the entry at the end of the log is accepted,
-- and a front of its entries is appended.
pub handle_append_entries-end :
    (s : Server) (req : AppendEntriesRequest)
    → length s.storage.log ≡ req.prev_log_index + 1
    → req.prev_log_index + 1 < 2 ^ 64
    → current_term s ≤ req.term
    → get_log_term s.storage req.prev_log_index ≡ req.prev_log_term
    → (k : ℕ) × ((handle_append_entries s req).0.storage.log ≡ s.storage.log ++ take k req.entries)
      × ((handle_append_entries s req).1.success ≡ true)
handle_append_entries-end s req n small term prev =
    let (stored, success) = handle_append_entries-settle s req term prev in
    let (log, _) = settle-storage s req term in
    let (k, grown) = store_entries-end (settle s req).storage req (ap length log ∙ n) small in
    (
      k,
      ap Storage.log stored ∙ grown ∙ ap (λ (l : List LogEntry). l ++ take k req.entries) log,
      success,
    )

-- A request of the server's own or a newer term, whose indices stay below 2^64 and which names the term
-- of the entry before its entries, where no entry of it has another term than the entry in its place:
-- without assertions it is accepted, the log keeps all it had and ends with the new entries, and the
-- term is that of the request. With assertions the handler returns the same just when the request
-- reaches the end of the log, and its own assertion fails when the log goes on behind the request.
pub handle_append_entries-accepted :
    (s : Server) (req : AppendEntriesRequest) (xs ys : List LogEntry)
    → NoWrap req
    → s.storage.log ≡ xs ++ ys
    → length xs ≡ req.prev_log_index + 1
    → SameTerms ys req.entries
    → current_term s ≤ req.term
    → get_log_term s.storage req.prev_log_index ≡ req.prev_log_term
    → ((handle_append_entries s req).0.storage.log ≡ xs ++ ys ++ drop (length ys) req.entries)
      × (current_term (handle_append_entries s req).0 ≡ req.term)
      × ((handle_append_entries s req).1.success ≡ true)
      × ((handle_append_entries_asserted s req ≡ some (handle_append_entries s req))
          ↔ (length ys ≤ length req.entries))
      × ((handle_append_entries_asserted s req ≡ none) ↔ (length req.entries < length ys))
unfolding handle_append_entries
handle_append_entries-accepted s req xs ys fits h n same term prev =
    let (stored, success) = handle_append_entries-settle s req term prev in
    let (log, now) = settle-storage s req term in
    let (_, kept) = store_entries-vote (settle s req).storage req in
    let all =
      ap Storage.log stored
      ∙ store_entries-same (settle s req).storage req xs ys fits (log ∙ h) n same in
    let size = ap length all ∙ length-append (xs ++ ys) (drop (length ys) req.entries) in
    let tail = length-append xs ys in
    let kept_size = length-drop (length ys) req.entries in
    let settled =
      asserted_iff s req (length ys) (length req.entries)
        (λ short. omega (arith, size, tail, kept_size, fits, n, short))
        (λ long e. absurd (omega (arith, size, tail, kept_size, fits, n, long, e))) success in
    (all, ap Storage.current_term stored ∙ sym kept ∙ now, success, settled.0, settled.1)
