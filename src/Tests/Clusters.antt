-- ===== src/Tests/Clusters.antt =====
-- Elections in clusters of three and five members.
use x.Base.{ℕ, ◌≤◌, ◌≡◌, refl, arith, List, [], ◌∷◌, ◌++◌, take, drop}
use x.Raft.Storage.{memory_store}
use x.Raft.Server.{
  Server, leader, follower, current_term, handle_vote_request, handle_vote_response, on_timeout,
}
use x.Raft.Cluster.{
  Cluster, time_out, run_task, execute_deferred_tasks, waiting_tasks, start, next, timeout,
}
use x.Raft.Cluster.Tally.{occurs, listed}
use x.Raft.Cluster.Invariant.{IsFresh}
use x.Raft.Cluster.Executor.{Run-trans, execute_deferred_tasks-Run}
use x.Raft.Cluster.Safety.{one_leader}
use x.Raft.Cluster.Liveness.{time_out-elects}
use x.Raft.Cluster.Elected.{Elected}

abbrev fresh_member : ℕ → Server
fresh_member id = record {
  id = id;
  current_leader_id = 0;
  storage = memory_store;
  state = follower;
  max_commands_per_message = 5;
  max_commands_size_per_message = 1024;
  commit_index = 0;
  last_applied = 0;
  votes_granted = 0;
  followers = [];
}

abbrev three : Cluster
three = record { members = 1 ∷ 2 ∷ 3 ∷ []; server = fresh_member; tasks = [] }

three-distinct : (j : ℕ) → occurs j three.members ≤ 1
unfolding occurs
three-distinct j = ground arith

abbrev after_election : Cluster
after_election = execute_deferred_tasks 6 (time_out three 1)

three-IsFresh : IsFresh three
three-IsFresh = record {
  distinct = three-distinct;
  quiet = refl;
  id = λ j. refl;
  state = λ j. refl;
  votes_granted = λ j. refl;
}

time_out-elects_example :
    (dl : Cluster) × (execute_deferred_tasks 6 (time_out three 1) ≡ dl)
    × Elected three.members 1 2 dl
unfolding listed
time_out-elects_example =
    time_out-elects three 1 6 refl three-distinct (omega arith) refl refl (λ e. cc) (omega arith)
      (λ j h. omega arith) (omega arith)

one_leader_example : ◌≡◌ {A = ℕ} 1 1
unfolding time_out execute_deferred_tasks on_timeout handle_vote_request handle_vote_response
    waiting_tasks
one_leader_example =
    one_leader three after_election 1 1 three-IsFresh
      (Run-trans (next start (timeout 1 (λ j. refl) (omega arith)))
        (execute_deferred_tasks-Run 6 (time_out three 1)))
      refl refl refl

abbrev five : Cluster
five = record { members = 1 ∷ 2 ∷ 3 ∷ 4 ∷ 5 ∷ []; server = fresh_member; tasks = [] }

-- Runs the tasks at these places of the queue, one after the other.
abbrev run_at : List ℕ → Cluster → Cluster
run_at [] cl = cl
run_at (i ∷ places) cl = elim (drop i cl.tasks) [
  | [] ↦ cl
  | task ∷ rest ↦ run_at places (run_task (record cl { tasks = take i cl.tasks ++ rest }) task)
]

-- A candidate whose answers are late stands again, and counts them for the new term; another
-- candidate gets the votes of that term.
abbrev stale_votes : Cluster
stale_votes =
    let stood = run_at (0 ∷ 0 ∷ 0 ∷ 0 ∷ []) (time_out five 1) in
    let leads = run_at (0 ∷ 0 ∷ 0 ∷ []) (time_out stood 1) in
    run_at (6 ∷ 6 ∷ 6 ∷ 6 ∷ 6 ∷ 6 ∷ []) (time_out leads 2)

stale_votes-leaders :
    ((stale_votes.server 1).state ≡ leader)
    × ((stale_votes.server 2).state ≡ leader)
    × (current_term (stale_votes.server 1) ≡ current_term (stale_votes.server 2))
unfolding time_out run_task on_timeout handle_vote_request handle_vote_response
stale_votes-leaders = (refl, refl, refl)
