-- ===== src/Raft/Server/Commit/Replicate.antt =====
-- raft/Server.cc `replicateLogsTo` of a leader, and `handleRequest(AppendEntriesRequest)` of a follower.
use x.Base.{
  ℕ, zero, suc, ◌+◌, ◌-◌, ◌^◌, ◌%◌, ◌<◌, ◌≤◌, ◌≡◌, refl, sym, ap, ◌∙◌, arith, true, List, [], ◌∷◌,
  ◌++◌, length, get_elem?, take, drop, leb, if◌then◌else◌, some, inl, inr, Bool-cases, get_elem?-lt,
  get_elem?-bound, length-take, leb→le, take-take, min,
}
use x.Raft.Rpc.{LogEntry, AppendEntriesRequest}
use x.Raft.Storage.{Storage, latest_index}
use x.Raft.Server.{Server, current_term, get_log_term, handle_append_entries}
use x.Raft.Server.Replication.{handle_append_entries-end}
use x.Raft.Server.Commit.{try_load_log_entries, replicate_logs_to, follower_at}
use x.Raft.Server.Commit.Load.{try_load_log_entries_lem}

get_elem?-take :
    (n i : ℕ) (log : List LogEntry) → i < n → get_elem? (take n log) i ≡ get_elem? log i
get_elem?-take zero i log h = absurd (omega arith)
get_elem?-take (suc n) i [] h = refl
get_elem?-take (suc n) zero (e ∷ log) h = refl
get_elem?-take (suc n) (suc i) (e ∷ log) h = get_elem?-take n i log (omega arith)

get_log_term-at :
    (st : Storage) (i : ℕ) (e : LogEntry) → get_elem? st.log i ≡ some e → get_log_term st i ≡ e.term
unfolding get_log_term
get_log_term-at st i e h =
    let inside : i < length st.log = get_elem?-bound st.log i h in ground arith

loaded_lem :
    (s : Server) (next : ℕ)
    → 0 < length s.storage.log
    → next ≤ length s.storage.log
    → (k : ℕ) × ((if leb next (latest_index s.storage)
          then try_load_log_entries s next
          else some [])
        ≡ some (take k (drop next s.storage.log)))
loaded_lem s next pos h = elim (Bool-cases (leb next (latest_index s.storage))) [
  | inl more ↦
      let (k, loaded, _, _, _) =
        try_load_log_entries_lem s next
          (omega (arith, leb→le next (latest_index s.storage) more)) in
      (k, rw (more, loaded))
  | inr none_left ↦ (0, rw none_left)
]

-- The request that carries these entries to a peer.
abbrev request : Server → ℕ → List LogEntry → AppendEntriesRequest
request s peer_id entries =
    let prev = ((follower_at peer_id s.followers).next_index + (2 ^ 64 - 1)) % 2 ^ 64 in
    record {
      term = current_term s;
      leader_id = s.id;
      prev_log_index = prev;
      prev_log_term = get_log_term s.storage prev;
      leader_commit = s.commit_index;
      entries = entries;
    }

sends_lem :
    (s : Server) (peer_id : ℕ) (es : List LogEntry)
    → (if leb (follower_at peer_id s.followers).next_index (latest_index s.storage)
        then try_load_log_entries s (follower_at peer_id s.followers).next_index
        else some [])
      ≡ some es
    → (replicate_logs_to s peer_id).1 ≡ some (request s peer_id es)
unfolding replicate_logs_to
sends_lem s peer_id es h = rw (h, replicate_logs_to)

-- A leader that keeps a next index for a follower, positive, below 2^64 and at most one past the end
-- of its log, and that follower, whose term is no later and whose log is that of the leader up to the
-- next index: the leader sends a request, the follower accepts it, and its log is then that of the
-- leader up to there and some of the entries that follow, in order.
pub replicate_logs_to-accepted :
    (s t : Server) (peer_id : ℕ)
    → 0 < (follower_at peer_id s.followers).next_index
    → (follower_at peer_id s.followers).next_index < 2 ^ 64
    → (follower_at peer_id s.followers).next_index ≤ length s.storage.log
    → t.storage.log ≡ take (follower_at peer_id s.followers).next_index s.storage.log
    → current_term t ≤ current_term s
    → (req : AppendEntriesRequest) × (k : ℕ) × ((replicate_logs_to s peer_id).1 ≡ some req)
      × ((handle_append_entries t req).1.success ≡ true)
      × ((handle_append_entries t req).0.storage.log
          ≡ take (follower_at peer_id s.followers).next_index s.storage.log
            ++ take k (drop (follower_at peer_id s.followers).next_index s.storage.log))
replicate_logs_to-accepted s t peer_id pos small inside same terms =
    let next = (follower_at peer_id s.followers).next_index in
    let prev = (next + (2 ^ 64 - 1)) % 2 ^ 64 in
    let before : prev ≡ next - 1 = omega arith in
    let (k, loaded) = loaded_lem s next (omega arith) inside in
    let entries = take k (drop next s.storage.log) in
    let req = request s peer_id entries in
    let (e, at_prev) = get_elem?-lt s.storage.log prev (omega arith) in
    let there : get_elem? t.storage.log prev ≡ some e =
      ap (λ (l : List LogEntry). get_elem? l prev) same
      ∙ get_elem?-take next prev s.storage.log (omega arith)
      ∙ at_prev in
    let agrees : get_log_term t.storage prev ≡ get_log_term s.storage prev =
      get_log_term-at t.storage prev e there ∙ sym (get_log_term-at s.storage prev e at_prev) in
    let size : length t.storage.log ≡ prev + 1 =
      omega (arith, ap length same, length-take next s.storage.log) in
    let (n, log, success) =
      handle_append_entries-end t req size (omega (arith, before, small, pos)) terms agrees in
    (
      req,
      min n k,
      sends_lem s peer_id entries loaded,
      success,
      log
          ∙ ap (λ (l : List LogEntry). l ++ take n entries) same
          ∙ ap (λ (l : List LogEntry). take next s.storage.log ++ l)
              (take-take n k (drop next s.storage.log)),
    )
