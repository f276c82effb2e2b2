-- ===== src/Raft/Server/Commit/Load.antt =====
-- raft/Server.cc `tryLoadLogEntries` and `replicateLogsTo`: what a leader sends, and a follower that
-- takes it.
use x.Base.{
  ℕ, zero, suc, ◌+◌, ◌-◌, ◌<◌, ◌≤◌, ◌≡◌, refl, ap, ◌∙◌, arith, List, [], ◌∷◌, length, get_elem?,
  take, drop, ltb, Option, some, ◌⊎◌, ltb→lt, ltb-false→ge, inr, inl, Bool-cases, min, get_elem?-lt,
  ltb-ge,
}
use x.Raft.Rpc.{LogEntry}
use x.Raft.Storage.{Storage, latest_index}
use x.Raft.Server.{Server}
use x.Raft.Server.Commit.{load_entries, try_load_log_entries}

drop-at :
    (log : List LogEntry) (i : ℕ) (e : LogEntry)
    → get_elem? log i ≡ some e
    → drop i log ≡ e ∷ drop (suc i) log
drop-at [] i e h = cc
drop-at (x ∷ log) zero e h = ground arith
drop-at (x ∷ log) (suc i) e h = drop-at log i e h

-- The bytes of the commands of some entries.
abbrev pub sizes : List LogEntry → ℕ
sizes [] = 0
sizes (e ∷ es) = length e.command + sizes es

-- The result is the first `k` of the entries `es`, of which `count` may be taken at most: they fit in what
-- is left of the limit, and with the next one they would not, unless there are `count` of them.
abbrev pub Loads : ℕ → ℕ → ℕ → List LogEntry → Option (List LogEntry) → Type 0
Loads limit count total es result =
    (k : ℕ) × (result ≡ some (take k es))
    × (k ≤ count)
    × (total + sizes (take k es) ≤ limit)
    × ((k ≡ count) ⊎ (limit < total + sizes (take (suc k) es)))

load_entries_lem :
    (limit : ℕ) (st : Storage) (count i total : ℕ)
    → i + count ≤ length st.log
    → total ≤ limit
    → Loads limit count total (drop i st.log) (load_entries limit st count i total)
unfolding load_entries
load_entries_lem limit st zero i total h fits = (0, refl, omega arith, omega arith, inl refl)
load_entries_lem limit st (suc count) i total h within =
    let (e, at_i) = get_elem?-lt st.log i (omega arith) in
    let inside = ltb-ge (latest_index st) i (omega arith) in
    let next : suc i ≡ i + 1 = omega arith in
    let split : drop i st.log ≡ e ∷ drop (i + 1) st.log =
      drop-at st.log i e at_i ∙ ap (λ (n : ℕ). e ∷ drop n st.log) next in
    elim (Bool-cases (ltb limit (total + length e.command))) [
      | inl full ↦ (
        0,
        rw (inside, load_entries) (rw (at_i, full)),
        omega arith,
        omega arith,
        inr (rw split (omega (arith, ltb→lt limit (total + length e.command) full))),
      )
      | inr fits ↦
          let (k, loaded, bound, small, last) =
            load_entries_lem limit st count (i + 1) (total + length e.command) (omega arith)
              (ltb-false→ge limit (total + length e.command) fits) in
          (
            suc k,
            rw (inside, load_entries) (rw (at_i, fits, loaded, split)),
            omega arith,
            rw split (omega (arith, small)),
            elim last [
              | inl all ↦ inl (ap suc all)
              | inr over ↦ inr (rw split (omega (arith, over)))
            ],
          )
    ]

-- The entries from an index of the log on load without failure: they are the log's own, in order. Their
-- commands together have at most the bytes that the server allows in a message. The loading goes on as
-- long as it can: it ends at the end of the log, or at one entry more than the server allows in a
-- message, or where the next entry's command would be beyond the allowed bytes.
pub try_load_log_entries_lem :
    (s : Server) (first : ℕ)
    → first < length s.storage.log
    → Loads s.max_commands_size_per_message
        (suc (min s.max_commands_per_message (latest_index s.storage - first)))
        0
        (drop first s.storage.log)
        (try_load_log_entries s first)
unfolding try_load_log_entries
try_load_log_entries_lem s first h =
    load_entries_lem s.max_commands_size_per_message s.storage
      (suc (min s.max_commands_per_message (latest_index s.storage - first))) first 0 (omega arith)
      (omega arith)
