-- ===== src/Raft/Cluster/Invariant.antt =====
-- What every event in a cluster keeps: the history of each server, and the election of each.
use mathlib.Core.Path.{subst}
use x.Base.{
  ℕ, ◌+◌, ◌^◌, ◌<◌, ◌≤◌, ◌≡◌, refl, arith, true, false, List, [], ◌∷◌, ◌++◌, length, inl, inr, ◌==◌,
  Bool-cases, ==_iff, sym,
}
use x.Raft.Rpc.{VoteRequest, VoteResponse}
use x.Raft.Server.{
  Server, follower, current_term, handle_vote_request, handle_vote_response, handle_append_entries,
  on_timeout,
}
use x.Raft.Server.Election.{Vote, granted, own_vote}
use x.Raft.Server.Election.History as History
use x.Raft.Cluster.{
  Cluster, Task, ask, answer, waiting_tasks, update, update_self, time_out, run_task, sent, Step,
  timeout, run, append_request, work, Run, start, next,
}
use x.Raft.Cluster.Tally.{occurs}
use x.Raft.Cluster.Keeps.{
  Keeps, Work-Keeps, handle_vote_request-Keeps, handle_append_entries-Keeps, granted-term,
}
use x.Raft.Cluster.Elections.{Voted, Voted-append, Election, Election-Keeps, Election-grows}
use x.Raft.Cluster.Tasks.{Election-done, Election-asked}
use x.Raft.Cluster.Answers.{Election-answered}
use x.Raft.Cluster.Timeouts.{Election-timeout, Election-other}

-- A cluster before its first election: no server is listed twice, no vote has been asked for, and
-- all servers are followers.
pub record IsFresh (cl : Cluster) : Type 0 where
  pub distinct : (j : ℕ) → occurs j cl.members ≤ 1
  pub quiet : cl.tasks ≡ []
  pub id : (j : ℕ) → (cl.server j).id ≡ j
  pub state : (j : ℕ) → (cl.server j).state ≡ follower
  pub votes_granted : (j : ℕ) → (cl.server j).votes_granted ≡ 0

pub record Invariant (first : ℕ → Server) (cl : Cluster) : Type 0 where
  pub votes : ℕ → List Vote
  pub distinct : (j : ℕ) → occurs j cl.members ≤ 1
  pub history : (j : ℕ) → History.Run (length cl.members) (first j) (cl.server j) (votes j)
  pub election : (c : ℕ) → Election cl.members c (cl.server c) votes cl.tasks

module _ {ℓ κ} {A : Type ℓ} (P : ℕ → A → Type κ) (f : ℕ → A) (k : ℕ) (a : A) where
  update-all : ((j : ℕ) → (j == k) ≡ false → P j (f j)) → P k a → (j : ℕ) → P j (update f k a j)
  unfolding update
  update-all others here j = elim (Bool-cases (j == k)) [
    | inl same ↦ rw same (subst (λ i. P i a) (sym ((==_iff j k).0 same)) here)
    | inr other ↦ rw other (others j other)
  ]

granted-Voted :
    (req : VoteRequest) (resp : VoteResponse) (votes : List Vote)
    → resp.vote_granted ≡ true
    → resp.term ≡ req.term
    → Voted req.term req.candidate_id (granted req resp ++ votes)
granted-Voted req resp votes g same = rw g (inl (same, refl))

module _ (first : ℕ → Server) (cl : Cluster) (inv : Invariant first cl) where
  -- Server `k` takes a step, and gives new votes.
  votes_after : ℕ → List Vote → ℕ → List Vote
  votes_after k new = update inv.votes k (new ++ inv.votes k)

  history_after :
      (k : ℕ) (t : Server) (new : List Vote)
      → History.Step (length cl.members) (cl.server k) t new
      → (j : ℕ)
      → History.Run (length cl.members) (first j) (update cl.server k t j) (votes_after k new j)
  unfolding update votes_after
  history_after k t new step j = elim (Bool-cases (j == k)) [
    | inl same ↦ rw same (
        subst (λ i. History.Run (length cl.members) (first i) t (new ++ inv.votes k))
          (sym ((==_iff j k).0 same)) (History.next (inv.history k) step))
    | inr other ↦ rw other (inv.history j)
  ]

  grows :
      (k : ℕ) (new : List Vote) (c j term : ℕ)
      → Voted term c (inv.votes j)
      → Voted term c (votes_after k new j)
  unfolding update votes_after
  grows k new c j term h = elim (Bool-cases (j == k)) [
    | inl same ↦ rw same (Voted-append term c new (inv.votes k) (rw (← (==_iff j k).0 same) h))
    | inr other ↦ rw other h
  ]

  ask-Invariant :
      (before : List Task) (target : ℕ) (req : VoteRequest) (after : List Task)
      → cl.tasks ≡ before ++ ask target req ∷ after
      → Invariant first (run_task (record cl { tasks = before ++ after }) (ask target req))
  unfolding run_task votes_after
  ask-Invariant before target req after there =
      let r = handle_vote_request (cl.server target) req in
      let votes' = votes_after target (granted req r.1) in
      let tasks' = (before ++ after) ++ answer req.candidate_id target r.1 ∷ [] in
      let voted : r.1.vote_granted ≡ true → Voted req.term req.candidate_id (votes' target) = λ g.
        rw (update_self inv.votes target (granted req r.1 ++ inv.votes target))
          (granted-Voted req r.1 (inv.votes target) g (granted-term (cl.server target) req g)) in
      let old : (c : ℕ) → Election cl.members c (cl.server c) votes' tasks' = λ c.
        Election-asked cl.members c (cl.server c) votes' before target req after r.1
          (subst (Election cl.members c (cl.server c) votes') there (
            Election-grows cl.members c (cl.server c) inv.votes votes'
              (grows target (granted req r.1) c) (inv.election c)))
          voted in
      record {
        votes = votes';
        distinct = inv.distinct;
        history = history_after target r.0 (granted req r.1) (History.vote_request req);
        election =
            update-all (λ c s. Election cl.members c s votes' tasks') cl.server target r.0
              (λ c _. old c)
              (Election-Keeps cl.members target (cl.server target) r.0 votes'
                (handle_vote_request-Keeps (cl.server target) req) (old target));
      }

  answer-Invariant :
      (before : List Task) (sender target : ℕ) (resp : VoteResponse) (after : List Task)
      → cl.tasks ≡ before ++ answer sender target resp ∷ after
      → Invariant first
          (run_task (record cl { tasks = before ++ after }) (answer sender target resp))
  unfolding run_task votes_after
  answer-Invariant before sender target resp after there =
      let t = handle_vote_response (length cl.members) (cl.server sender) resp in
      let old : (c : ℕ)
          → Election cl.members c (cl.server c) (votes_after sender [])
              (before ++ answer sender target resp ∷ after) =
        λ c. subst (Election cl.members c (cl.server c) (votes_after sender [])) there (
          Election-grows cl.members c (cl.server c) inv.votes (votes_after sender [])
            (grows sender [] c) (inv.election c)) in
      record {
        votes = votes_after sender [];
        distinct = inv.distinct;
        history = history_after sender t [] (History.vote_response resp);
        election =
            update-all (λ c s. Election cl.members c s (votes_after sender []) (before ++ after))
              cl.server sender t
              (λ c _.
                Election-done cl.members c (cl.server c) (votes_after sender []) before
                  (answer sender target resp) after (old c))
              (Election-answered cl.members sender (cl.server sender) (votes_after sender []) before
                target resp after (old sender));
      }

  -- Server `i` does something that neither gives a vote nor touches the tasks.
  step-Invariant :
      (i : ℕ) (t : Server)
      → Keeps (cl.server i) t
      → History.Step (length cl.members) (cl.server i) t []
      → Invariant first (record cl { server = update cl.server i t })
  unfolding votes_after
  step-Invariant i t keeps step =
      let old : (c : ℕ) → Election cl.members c (cl.server c) (votes_after i []) cl.tasks = λ c.
        Election-grows cl.members c (cl.server c) inv.votes (votes_after i []) (grows i [] c)
          (inv.election c) in
      record {
        votes = votes_after i [];
        distinct = inv.distinct;
        history = history_after i t [] step;
        election =
            update-all (λ c s. Election cl.members c s (votes_after i []) cl.tasks) cl.server i t
              (λ c _. old c)
              (Election-Keeps cl.members i (cl.server i) t (votes_after i []) keeps (old i));
      }

  timeout-Invariant :
      (i : ℕ)
      → ((j : ℕ) → waiting_tasks i j cl.tasks ≡ 0)
      → current_term (cl.server i) + 1 < 2 ^ 64
      → Invariant first (time_out cl i)
  unfolding time_out votes_after
  timeout-Invariant i idle bound =
      let s = cl.server i in
      let r = on_timeout s in
      let new = own_vote s r.1 in
      let votes' = votes_after i new in
      let tasks' = cl.tasks ++ sent s.id cl.members r.1 in
      record {
        votes = votes';
        distinct = inv.distinct;
        history = history_after i r.0 new (History.timeout bound);
        election =
            update-all (λ c s. Election cl.members c s votes' tasks') cl.server i r.0
              (λ c other.
                Election-other cl.members c (cl.server c) s votes' cl.tasks
                  (ground
                    (arith, other, (inv.election i).own, ==_iff i c, ==_iff c i, ==_iff s.id c))
                  (Election-grows cl.members c (cl.server c) inv.votes votes' (grows i new c)
                    (inv.election c)))
              (Election-timeout cl.members i s inv.votes votes' cl.tasks inv.distinct idle
                (grows i new i) (inv.election i));
      }

Step-Invariant :
    (first : ℕ → Server) {cl dl : Cluster} → Step cl dl → Invariant first cl → Invariant first dl
Step-Invariant first {cl = cl} (timeout i idle bound) inv =
    timeout-Invariant first cl inv i idle bound
Step-Invariant first {cl = cl} (run before (ask target req) after there) inv =
    ask-Invariant first cl inv before target req after there
Step-Invariant first {cl = cl} (run before (answer sender target resp) after there) inv =
    answer-Invariant first cl inv before sender target resp after there
Step-Invariant first {cl = cl} (append_request i req) inv =
    step-Invariant first cl inv i (handle_append_entries (cl.server i) req).0
      (handle_append_entries-Keeps (cl.server i) req) (History.append_request req)
Step-Invariant first {cl = cl} (work i {t = t} w) inv =
    step-Invariant first cl inv i t (Work-Keeps w) (History.work w)

IsFresh-Invariant : (cl : Cluster) → IsFresh cl → Invariant cl.server cl
unfolding waiting_tasks
IsFresh-Invariant cl fresh = record {
  votes = λ _. [];
  distinct = fresh.distinct;
  history = λ j. History.start;
  election = λ c. record {
    counted = λ _. false;
    own = fresh.id c;
    tallied = omega (arith, fresh.votes_granted c);
    honest = λ j h a. cc;
    once = λ j. rw fresh.quiet (omega arith);
    waiting = rw fresh.quiet tt;
    won = λ l. absurd (ground (arith, fresh.state c, l));
  };
}

pub Run-Invariant : {cl dl : Cluster} → IsFresh cl → Run cl dl → Invariant cl.server dl
Run-Invariant {cl} fresh start = IsFresh-Invariant cl fresh
Run-Invariant {cl} fresh (next r step) = Step-Invariant cl.server step (Run-Invariant fresh r)
