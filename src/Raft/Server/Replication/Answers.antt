-- ===== src/Raft/Server/Replication/Answers.antt =====
-- raft/Server.cc `handleRequest(AppendEntriesRequest)`: refusals and conflicts.
use x.Base.{
  suc, ◌+◌, ◌-◌, ◌<◌, ◌≤◌, ◌≡◌, ◌≢◌, ◌⊎◌, refl, ap, ◌∙◌, arith, false, List, ◌∷◌, ◌++◌, length,
  take, none, ◌==◌, inl, inr, Bool-cases, length-append, length-take, lt→ltb, ==_iff,
}
use x.Raft.Rpc.{LogEntry, AppendEntriesRequest}
use x.Raft.Storage.{Storage, latest_index}
use x.Raft.Server.{
  Server, current_term, get_log_term, handle_append_entries, handle_append_entries_asserted,
}
use x.Raft.Server.Replication.{settle, settle-storage, handle_append_entries-settle}
use x.Raft.Server.Replication.Asserted.{asserted_fails}
use x.Raft.Server.Replication.Stores.{SameTerms, NoWrap, store_entries-differs}

-- A request of an older term, or one whose previous entry has another term than the entry of the
-- log, is refused, and changes nothing.
pub handle_append_entries-refused :
    (s : Server) (req : AppendEntriesRequest)
    → (req.term < current_term s) ⊎ (get_log_term s.storage req.prev_log_index ≢ req.prev_log_term)
    → handle_append_entries s req ≡ (
      s,
      record { term = current_term s; last_log_index = latest_index s.storage; success = false },
    )
unfolding handle_append_entries
handle_append_entries-refused s req (inl old) = rw (lt→ltb req.term (current_term s) old) refl
handle_append_entries-refused s req (inr other) =
    elim (Bool-cases (get_log_term s.storage req.prev_log_index == req.prev_log_term)) [
      | inl same ↦
          absurd
            (other ((==_iff (get_log_term s.storage req.prev_log_index) req.prev_log_term).0 same))
      | inr differ ↦ ground (arith, differ)
    ]

-- A request that names the term of the entry before its entries, of the server's own or a newer term,
-- whose indices stay below 2^64, with an entry whose term differs from that of the entry in its place:
-- with assertions the handler's own assertion fails. Without them the log ends with the new entries,
-- but the entry before the first of them is gone as well, so that the last index is one less than that
-- of the last entry of the request.
pub handle_append_entries-conflict :
    (s : Server) (req : AppendEntriesRequest) (xs ys rest : List LogEntry) (old : LogEntry)
    (same fresh : List LogEntry) (new : LogEntry)
    → NoWrap req
    → s.storage.log ≡ xs ++ (ys ++ old ∷ rest)
    → length xs ≡ req.prev_log_index + 1
    → req.entries ≡ same ++ new ∷ fresh
    → SameTerms ys same
    → length ys ≡ length same
    → new.term ≢ old.term
    → current_term s ≤ req.term
    → get_log_term s.storage req.prev_log_index ≡ req.prev_log_term
    → ((handle_append_entries s req).0.storage.log
        ≡ take (length (xs ++ ys) - 1) (xs ++ (ys ++ old ∷ rest)) ++ new ∷ fresh)
      × (latest_index (handle_append_entries s req).0.storage + 1
          ≡ req.prev_log_index + length req.entries)
      × (handle_append_entries_asserted s req ≡ none)
handle_append_entries-conflict s req xs ys rest old same fresh new fits h n es agree size other term
      prev =
    let (stored, success) = handle_append_entries-settle s req term prev in
    let (log, _) = settle-storage s req term in
    let all =
      ap Storage.log stored
      ∙ store_entries-differs (settle s req).storage req xs ys rest old same fresh new fits
          (log ∙ h) n es agree size other in
    let old_log = xs ++ (ys ++ old ∷ rest) in
    let size_old : length old_log ≡ length xs + length ys + suc (length rest) =
      omega (arith, length-append xs (ys ++ old ∷ rest), length-append ys (old ∷ rest)) in
    let size_new =
      ap length all ∙ length-append (take (length (xs ++ ys) - 1) old_log) (new ∷ fresh) in
    let size_cut = length-take (length (xs ++ ys) - 1) old_log in
    let sent = ap length es ∙ length-append same (new ∷ fresh) in
    let short : latest_index (handle_append_entries s req).0.storage + 1
        ≡ req.prev_log_index + length req.entries =
      omega (arith, size_old, size_new, size_cut, sent, length-append xs ys) in
    (all, short, asserted_fails s req success (λ e. absurd (omega (arith, short, fits, e))))
