-- ===== src/Raft/Cluster.antt =====
-- raft/LocalTransport.cc and executor/LocalExecutor.cc: several servers, and the tasks by which a
-- vote request and its answer travel between them.
-- Every member is a peer of every transport, so that `getPeer` finds it.
pub mod Tally
mod Keeps
mod Elections
mod Tasks
mod Answers
mod Timeouts
pub mod Invariant
pub mod Executor
pub mod Safety
pub mod Rounds
mod Hearing
pub mod Elected
pub mod Liveness
use x.Base.{
  ℕ, zero, suc, ◌+◌, ◌^◌, ◌<◌, ◌≡◌, refl, Bool, false, List, [], ◌∷◌, ◌++◌, length, ◌==◌,
  if◌then◌else◌, Option, none, some, arith, ==_iff,
}
use x.Raft.Rpc.{VoteRequest, VoteResponse, AppendEntriesRequest}
use x.Raft.Server.Commit.Work.{Work}
use x.Raft.Server.{
  Server, current_term, handle_vote_request, handle_vote_response, handle_append_entries,
  on_timeout,
}

-- What `LocalTransport::send` hands to the executor: the request on its way to a server, and the
-- answer of that server on its way back.
pub data Task : Type 0 where
  ask : (target : ℕ) → VoteRequest → Task
  answer : (sender target : ℕ) → VoteResponse → Task

pub record Cluster : Type 0 where
  pub members : List ℕ
  pub server : ℕ → Server
  pub tasks : List Task

unfoldable pub update {ℓ} : {A : Type ℓ} → (ℕ → A) → ℕ → A → ℕ → A
update f i a j = if j == i then a else f j

pub update_self {ℓ} : {A : Type ℓ} (f : ℕ → A) (k : ℕ) (a : A) → update f k a k ≡ a
unfolding update
update_self f k a = ground (arith, ==_iff k k)

pub update_other {ℓ} :
    {A : Type ℓ} (f : ℕ → A) (k : ℕ) (a : A) (j : ℕ) → (j == k) ≡ false → update f k a j ≡ f j
unfolding update
update_other f k a j h = rw h refl

-- The loop of `sendVoteRequest` over the members, with the task of each `send`.
unfoldable pub send_to_peers : ℕ → VoteRequest → List ℕ → List Task
send_to_peers id req [] = []
send_to_peers id req (peer_id ∷ ids) =
    let rest = send_to_peers id req ids in if peer_id == id then rest else ask peer_id req ∷ rest

abbrev pub sent : ℕ → List ℕ → Option VoteRequest → List Task
sent id members none = []
sent id members (some req) = send_to_peers id req members

-- `onTimeout` of server `i`, with what it sends.
unfoldable pub time_out : Cluster → ℕ → Cluster
unfolding update send_to_peers
time_out cl i =
    let r = on_timeout (cl.server i) in
    record cl {
      server = update cl.server i r.0;
      tasks = cl.tasks ++ sent (cl.server i).id cl.members r.1;
    }

-- What a task does, once it is taken from the queue.
unfoldable pub run_task : Cluster → Task → Cluster
unfolding update
run_task cl (ask target req) =
    let r = handle_vote_request (cl.server target) req in
    record cl {
      server = update cl.server target r.0;
      tasks = cl.tasks ++ answer req.candidate_id target r.1 ∷ [];
    }
run_task cl (answer sender target resp) = record cl {
  server =
      update cl.server sender (handle_vote_response (length cl.members) (cl.server sender) resp);
}

abbrev pub receive_append : Cluster → ℕ → AppendEntriesRequest → Cluster
receive_append cl i req = record cl {
  server = update cl.server i (handle_append_entries (cl.server i) req).0;
}

-- `executeDeferredTasks`, for at most so many tasks: the one in front first.
unfoldable pub execute_deferred_tasks : ℕ → Cluster → Cluster
unfolding run_task
execute_deferred_tasks zero cl = cl
execute_deferred_tasks (suc fuel) cl = elim cl.tasks [
  | [] ↦ cl
  | task ∷ tasks ↦ execute_deferred_tasks fuel (run_task (record cl { tasks = tasks }) task)
]

-- The tasks of an election of candidate `c` that concern member `j`.
unfoldable pub concerns : ℕ → ℕ → Task → ℕ
concerns c j (ask target req) = if req.candidate_id == c then (if target == j then 1 else 0) else 0
concerns c j (answer sender target resp) = if sender == c then (if target == j then 1 else 0) else 0

unfoldable pub waiting_tasks : ℕ → ℕ → List Task → ℕ
unfolding concerns
waiting_tasks c j [] = 0
waiting_tasks c j (task ∷ tasks) = concerns c j task + waiting_tasks c j tasks

-- One event in the cluster: a timeout, any task that waits, a request to append that reaches a
-- server, or work of a server on its log and its followers. A server whose earlier vote requests are still on their way does not time out, and its
-- term does not reach 2^64.
pub data Step (cl : Cluster) : Cluster → Type 0 where
  timeout :
      (i : ℕ)
      → ((j : ℕ) → waiting_tasks i j cl.tasks ≡ 0)
      → current_term (cl.server i) + 1 < 2 ^ 64
      → Step cl (time_out cl i)
  run :
      (before : List Task) (task : Task) (after : List Task)
      → cl.tasks ≡ before ++ task ∷ after
      → Step cl (run_task (record cl { tasks = before ++ after }) task)
  append_request : (i : ℕ) (req : AppendEntriesRequest) → Step cl (receive_append cl i req)
  work :
      (i : ℕ) {t : Server}
      → Work (cl.server i) t
      → Step cl (record cl { server = update cl.server i t })

pub data Run (cl : Cluster) : Cluster → Type 0 where
  start : Run cl cl
  next : {dl el : Cluster} → Run cl dl → Step dl el → Run cl el
