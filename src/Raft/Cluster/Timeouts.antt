-- ===== src/Raft/Cluster/Timeouts.antt =====
-- raft/Server.cc `sendVoteRequest`: a new election, and what it leaves of those of other servers.
use x.Base.{
  ℕ, ◌≤◌, ◌≡◌, refl, arith, true, false, List, [], ◌∷◌, ◌++◌, inl, inr, All, All-append, ◌==◌,
  Bool-cases, ==_iff, append-nil,
}
use x.Raft.Rpc.{VoteRequest}
use x.Raft.Server.{Server, candidate, current_term, on_timeout, send_vote_request, is_leader}
use x.Raft.Server.Election.{Vote}
use x.Raft.Cluster.{Task, ask, answer, waiting_tasks, concerns, send_to_peers, sent}
use x.Raft.Cluster.Tally.{listed, occurs, All-listed}
use x.Raft.Cluster.Elections.{Voted, Waits, Election}
use x.Raft.Cluster.Tasks.{waiting_tasks-append}

waiting_tasks-sent_own :
    (c j id : ℕ) (req : VoteRequest) (ms : List ℕ)
    → waiting_tasks c j (send_to_peers id req ms) ≤ occurs j ms
unfolding waiting_tasks concerns send_to_peers occurs
waiting_tasks-sent_own c j id req [] = omega arith
waiting_tasks-sent_own c j id req (m ∷ ms) = ground (arith, waiting_tasks-sent_own c j id req ms)

waiting_tasks-sent_other :
    (c j id : ℕ) (req : VoteRequest) (ms : List ℕ)
    → (req.candidate_id == c) ≡ false
    → waiting_tasks c j (send_to_peers id req ms) ≡ 0
unfolding waiting_tasks concerns send_to_peers
waiting_tasks-sent_other c j id req [] h = refl
waiting_tasks-sent_other c j id req (m ∷ ms) h =
    ground (arith, waiting_tasks-sent_other c j id req ms h)

module _ (members : List ℕ) (c : ℕ) (s : Server) (votes : ℕ → List Vote) where
  -- No task of the candidate waits.
  idle-Waits :
      (tasks : List Task)
      → ((j : ℕ) → waiting_tasks c j tasks ≡ 0)
      → All (Waits members c s votes) tasks
  unfolding waiting_tasks concerns
  idle-Waits [] idle = tt
  idle-Waits (ask target req ∷ tasks) idle = (
    λ own. absurd (ground (arith, idle target, ==_iff target target, ==_iff req.candidate_id c)),
    idle-Waits tasks (λ j. omega (arith, idle j)),
  )
  idle-Waits (answer sender target resp ∷ tasks) idle = (
    λ own. absurd (ground (arith, idle target, ==_iff target target, ==_iff sender c)),
    idle-Waits tasks (λ j. omega (arith, idle j)),
  )

  sent-Waits :
      (id : ℕ) (req : VoteRequest) (ms : List ℕ)
      → (req.candidate_id ≡ c → req.term ≡ current_term s)
      → All (λ m. listed m members ≡ true) ms
      → All (Waits members c s votes) (send_to_peers id req ms)
  unfolding send_to_peers
  sent-Waits id req [] term there = tt
  sent-Waits id req (m ∷ ms) term (h, there) = elim (Bool-cases (m == id)) [
    | inl self ↦ rw self (sent-Waits id req ms term there)
    | inr peer ↦ rw peer ((λ own. (h, λ _. term own)), sent-Waits id req ms term there)
  ]

-- A timeout of the candidate itself, when nothing of its earlier election waits.
pub Election-timeout :
    (members : List ℕ) (c : ℕ) (s : Server) (votes votes' : ℕ → List Vote) (tasks : List Task)
    → ((j : ℕ) → occurs j members ≤ 1)
    → ((j : ℕ) → waiting_tasks c j tasks ≡ 0)
    → ((j term : ℕ) → Voted term c (votes j) → Voted term c (votes' j))
    → Election members c s votes tasks
    → Election members c (on_timeout s).0 votes' (tasks ++ sent s.id members (on_timeout s).1)
unfolding on_timeout send_vote_request
Election-timeout members c s votes votes' tasks distinct idle grows e =
    elim (Bool-cases (is_leader s.state)) [
      | inl leads ↦ rw leads (
          rw (append-nil tasks) (record {
            counted = e.counted;
            own = e.own;
            tallied = e.tallied;
            honest = λ j h a. grows j (current_term s) (e.honest j h a);
            once = e.once;
            waiting = idle-Waits members c s votes' tasks idle;
            won = e.won;
          }))
      | inr runs ↦ rw runs (
          let r = send_vote_request (record s { state = candidate }) in
          let new = send_to_peers s.id r.1 members in
          record {
            counted = λ _. false;
            own = e.own;
            tallied = omega arith;
            honest = λ j h a. cc;
            once = λ j. omega (
              arith,
              waiting_tasks-append c j tasks new,
              idle j,
              waiting_tasks-sent_own c j s.id r.1 members,
              distinct j,
            );
            waiting =
                All-append (Waits members c r.0 votes') tasks new
                  (idle-Waits members c r.0 votes' tasks idle)
                  (sent-Waits members c r.0 votes' s.id r.1 members (λ _. refl)
                    (All-listed members));
            won = λ l. cc;
          })
    ]

-- A timeout of another server.
pub Election-other :
    (members : List ℕ) (c : ℕ) (s t : Server) (votes : ℕ → List Vote) (tasks : List Task)
    → (t.id == c) ≡ false
    → Election members c s votes tasks
    → Election members c s votes (tasks ++ sent t.id members (on_timeout t).1)
unfolding on_timeout send_vote_request
Election-other members c s t votes tasks other e = elim (Bool-cases (is_leader t.state)) [
  | inl leads ↦ rw leads (rw (append-nil tasks) e)
  | inr runs ↦ rw runs (
      let r = send_vote_request (record t { state = candidate }) in
      let new = send_to_peers t.id r.1 members in
      record {
        counted = e.counted;
        own = e.own;
        tallied = e.tallied;
        honest = e.honest;
        once = λ j. omega (
          arith,
          waiting_tasks-append c j tasks new,
          waiting_tasks-sent_other c j t.id r.1 members other,
          e.once j,
        );
        waiting = All-append (Waits members c s votes) tasks new e.waiting (
            sent-Waits members c s votes t.id r.1 members
              (λ own. absurd (ground (arith, ==_iff t.id c))) (All-listed members));
        won = e.won;
      })
]
