-- ===== src/Raft/Cluster/Tasks.antt =====
-- raft/LocalTransport.cc: what becomes of an election when one of its tasks is done, or new ones come.
use x.Base.{ℕ, ◌+◌, ◌≡◌, refl, arith, true, List, [], ◌∷◌, ◌++◌, All, All-append}
use x.Raft.Rpc.{VoteRequest, VoteResponse}
use x.Raft.Server.{Server}
use x.Raft.Server.Election.{Vote}
use x.Raft.Cluster.{Task, ask, answer, waiting_tasks, concerns}
use x.Raft.Cluster.Elections.{Voted, Waits, Election}

pub waiting_tasks-append :
    (c j : ℕ) (xs ys : List Task)
    → waiting_tasks c j (xs ++ ys) ≡ waiting_tasks c j xs + waiting_tasks c j ys
unfolding waiting_tasks
waiting_tasks-append c j [] ys = omega arith
waiting_tasks-append c j (task ∷ xs) ys = omega (arith, waiting_tasks-append c j xs ys)

pub waiting_tasks-take_out :
    (c j : ℕ) (before : List Task) (task : Task) (after : List Task)
    → waiting_tasks c j (before ++ task ∷ after)
      ≡ concerns c j task + waiting_tasks c j (before ++ after)
unfolding waiting_tasks
waiting_tasks-take_out c j before task after =
    omega
      (arith, waiting_tasks-append c j before (task ∷ after), waiting_tasks-append c j before after)

module _ {ℓ κ} {A : Type ℓ} (P : A → Type κ) where
  All-take_out : (xs : List A) (y : A) (ys : List A) → All P (xs ++ y ∷ ys) → P y × All P (xs ++ ys)
  All-take_out [] y ys h = h
  All-take_out (x ∷ xs) y ys (p, h) = let (q, r) = All-take_out xs y ys h in (q, (p, r))

module _ (members : List ℕ) (c : ℕ) (s : Server) (votes : ℕ → List Vote) (before : List Task)
    (task : Task) (after : List Task)
    (e : Election members c s votes (before ++ task ∷ after)) where
  pub Election-done : Election members c s votes (before ++ after)
  Election-done = record {
    counted = e.counted;
    own = e.own;
    tallied = e.tallied;
    honest = e.honest;
    once = λ j. omega (arith, e.once j, waiting_tasks-take_out c j before task after);
    waiting = (All-take_out (Waits members c s votes) before task after e.waiting).1;
    won = e.won;
  }

  -- A task in the place of another of the same member.
  pub Election-replaced :
      (new : Task)
      → ((j : ℕ) → concerns c j new ≡ concerns c j task)
      → Waits members c s votes new
      → Election members c s votes ((before ++ after) ++ new ∷ [])
  unfolding waiting_tasks
  Election-replaced new same w = record {
    counted = e.counted;
    own = e.own;
    tallied = e.tallied;
    honest = e.honest;
    once = λ j. omega (
      arith,
      e.once j,
      waiting_tasks-take_out c j before task after,
      same j,
      waiting_tasks-append c j (before ++ after) (new ∷ []),
    );
    waiting =
        All-append (Waits members c s votes) (before ++ after) (new ∷ [])
          (All-take_out (Waits members c s votes) before task after e.waiting).1 (w, tt);
    won = e.won;
  }

  pub Election-Waits : Waits members c s votes task
  Election-Waits = (All-take_out (Waits members c s votes) before task after e.waiting).0

-- The answer of a server takes the place of the request.
pub Election-asked :
    (members : List ℕ) (c : ℕ) (s : Server) (votes : ℕ → List Vote) (before : List Task)
    (target : ℕ) (req : VoteRequest) (after : List Task) (resp : VoteResponse)
    → Election members c s votes (before ++ ask target req ∷ after)
    → (resp.vote_granted ≡ true → Voted req.term req.candidate_id (votes target))
    → Election members c s votes ((before ++ after) ++ answer req.candidate_id target resp ∷ [])
unfolding concerns
Election-asked members c s votes before target req after resp e voted =
    Election-replaced members c s votes before (ask target req) after e
      (answer req.candidate_id target resp) (λ j. refl)
      (λ own.
        let (there, term) = Election-Waits members c s votes before (ask target req) after e own in
        (there, λ granted active. rw (← own) (rw (← term active) (voted granted))))
