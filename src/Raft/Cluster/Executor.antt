-- ===== src/Raft/Cluster/Executor.antt =====
-- executor/LocalExecutor.cc: what the executor does is a run of the cluster.
use x.Base.{ℕ, zero, suc, ◌≡◌, refl, List, [], ◌∷◌}
use x.Raft.Cluster.{Cluster, Task, run_task, execute_deferred_tasks, run, Run, start, next}

pub Run-trans : {cl dl el : Cluster} → Run cl dl → Run dl el → Run cl el
Run-trans r start = r
Run-trans r (next s step) = next (Run-trans r s) step

front-Run :
    (fuel : ℕ) (cl : Cluster) (tasks : List Task)
    → cl.tasks ≡ tasks
    → ((dl : Cluster) → Run dl (execute_deferred_tasks fuel dl))
    → Run cl (elim tasks [
      | [] ↦ cl
      | task ∷ rest ↦ execute_deferred_tasks fuel (run_task (record cl { tasks = rest }) task)
    ])
front-Run fuel cl [] e rounds = start
front-Run fuel cl (task ∷ rest) e rounds =
    Run-trans (next start (run [] task rest e))
      (rounds (run_task (record cl { tasks = rest }) task))

pub execute_deferred_tasks-Run : (fuel : ℕ) (cl : Cluster) → Run cl (execute_deferred_tasks fuel cl)
unfolding execute_deferred_tasks
execute_deferred_tasks-Run zero cl = start
execute_deferred_tasks-Run (suc fuel) cl =
    front-Run fuel cl cl.tasks refl (execute_deferred_tasks-Run fuel)
