-- ===== src/Raft/Server/Commit/Apply.antt =====
-- raft/Server.cc `applyLogs`: which commands reach the state machine, and that the loop ends.
use x.Base.{
  ℕ, zero, suc, ◌+◌, ◌-◌, ◌<◌, ◌≡◌, ◌≢◌, arith, List, [], ◌∷◌, Bytes, ap, some, ltb-ge, lt→ltb,
  ==_iff,
}
use x.Raft.Rpc.{LogEntry, log_command}
use x.Raft.Storage.{Storage, get_log_entry}
use x.Raft.Server.{Server}
use x.Raft.Server.Commit.{applied, unfinished, apply_logs}

-- The commands that the log has at `count` places from `first` on.
pub data CommandsAt (st : Storage) : ℕ → ℕ → List Bytes → Type 0 where
  no_more : {first : ℕ} → CommandsAt st first 0 []
  command_at :
      {first count : ℕ} {e : LogEntry} {commands : List Bytes}
      → get_log_entry st first ≡ some e
      → e.type ≡ log_command
      → CommandsAt st (first + 1) count commands
      → CommandsAt st first (suc count) (e.command ∷ commands)

-- With one round more than there are entries to apply, `applyLogs` ends, whatever the log is.
pub apply_logs-ne-unfinished :
    (fuel : ℕ) (s : Server)
    → s.commit_index - s.last_applied < fuel
    → (apply_logs fuel s).2 ≢ unfinished
unfolding apply_logs
apply_logs-ne-unfinished zero s h = absurd (omega arith)
apply_logs-ne-unfinished (suc fuel) s h =
    let rest = apply_logs-ne-unfinished fuel (record s { last_applied = s.last_applied + 1 }) in
    λ e. ground (arith, rest)

-- When everything committed and not yet applied is a command in the log, `applyLogs` hands exactly
-- those commands to the state machine, in the order of the log, and has then applied all that is
-- committed; its loop makes one round for each, given one more.
pub apply_logs-commands :
    (fuel : ℕ) (s : Server) (count : ℕ) (commands : List Bytes)
    → CommandsAt s.storage (s.last_applied + 1) count commands
    → s.last_applied + count ≡ s.commit_index
    → count < fuel
    → apply_logs fuel s ≡ (record s { last_applied = s.commit_index }, commands, applied)
unfolding apply_logs
apply_logs-commands zero s count commands c n h = absurd (omega arith)
apply_logs-commands (suc fuel) s _ _ no_more n h =
    rw (ltb-ge s.last_applied s.commit_index (omega arith)) (
      ap (λ (n : ℕ). (record s { last_applied = n }, [], applied))
        (let same : s.last_applied ≡ s.commit_index = omega arith in same))
apply_logs-commands (suc fuel) s _ _
      (command_at {count = count} {e = e} {commands = commands} found is_command more) n h =
    let later =
      apply_logs-commands fuel (record s { last_applied = s.last_applied + 1 }) count commands more
        (omega arith) (omega arith) in
    rw (
      lt→ltb s.last_applied s.commit_index (omega arith),
      found,
      (==_iff e.type log_command).1 is_command,
      later,
    )
