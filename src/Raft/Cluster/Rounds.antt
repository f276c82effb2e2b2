-- ===== src/Raft/Cluster/Rounds.antt =====
-- executor/LocalExecutor.cc `executeDeferredTasks`, on the tasks of one election: first every member
-- is asked, then every answer is heard.
use x.Base.{
  ℕ, zero, suc, ◌+◌, ◌-◌, ◌<◌, ◌≤◌, ◌≡◌, ◌≢◌, refl, arith, true, false, List, [], ◌∷◌, ◌++◌, length,
  inl, inr, All, ◌==◌, if◌then◌else◌, Bool-cases, ==_iff, ◌∙◌, append_assoc, append-nil, some,
  lt→ltb, ltb-ge, ap,
}
use x.Raft.Rpc.{VoteRequest, VoteResponse}
use x.Raft.Server.{Server, follower, current_term, handle_vote_request}
use x.Raft.Cluster.{Task, answer, update, send_to_peers, execute_deferred_tasks}
use x.Raft.Cluster.Tally.{listed, occurs}

abbrev pub grant : ℕ → VoteResponse
grant term = record { term = term; vote_granted = true }

-- The answers to the requests of `send_to_peers`, when all grant their vote.
unfoldable pub grants : ℕ → ℕ → List ℕ → List Task
grants i term [] = []
grants i term (m ∷ ms) =
    let rest = grants i term ms in if m == i then rest else answer i m (grant term) ∷ rest

-- The servers after all these members were asked.
pub asked : (ℕ → Server) → ℕ → VoteRequest → List ℕ → ℕ → Server
asked f i req [] = f
asked f i req (m ∷ ms) =
    let self = asked f i req ms in
    let peer = asked (update f m (handle_vote_request (f m) req).0) i req ms in
    if m == i then self else peer

pub length-grants : (i term : ℕ) (ms : List ℕ) → length (grants i term ms) + occurs i ms ≡ length ms
unfolding grants occurs
length-grants i term [] = omega arith
length-grants i term (m ∷ ms) = ground (arith, length-grants i term ms)

pub length-send_to_peers :
    (i : ℕ) (req : VoteRequest) (ms : List ℕ)
    → length (send_to_peers i req ms) + occurs i ms ≡ length ms
unfolding send_to_peers occurs
length-send_to_peers i req [] = omega arith
length-send_to_peers i req (m ∷ ms) = ground (arith, length-send_to_peers i req ms)

-- A follower that voted for candidate `i` in the term.
abbrev pub Follows : ℕ → ℕ → Server → Type 0
Follows i term s =
    (s.state ≡ follower)
    × (current_term s ≡ term)
    × (last : ℕ) × (s.storage.voted_for ≡ some (i, last))

-- A server whose term is over gives its vote, and is a follower.
pub handle_vote_request-newer :
    (s : Server) (req : VoteRequest)
    → current_term s < req.term
    → ((handle_vote_request s req).1 ≡ grant req.term)
      × Follows req.candidate_id req.term (handle_vote_request s req).0
unfolding handle_vote_request
handle_vote_request-newer s req h =
    rw (ltb-ge req.term (current_term s) (omega arith))
      (rw (lt→ltb (current_term s) req.term h) (refl, (refl, refl, req.last_log_term, refl)))

-- The member is the candidate itself, or its term is over.
abbrev pub Older : (ℕ → Server) → ℕ → ℕ → ℕ → Type 0
Older f i term m = m ≢ i → current_term (f m) < term

Older-update :
    (f : ℕ → Server) (i term m : ℕ) (s : Server) (ms : List ℕ)
    → occurs m ms ≡ 0
    → All (Older f i term) ms
    → All (Older (update f m s) i term) ms
unfolding occurs update
Older-update f i term m s [] apart h = tt
Older-update f i term m s (k ∷ ms) apart (p, h) = elim (Bool-cases (k == m)) [
  | inl same ↦ absurd (ground arith)
  | inr other ↦ (λ q. rw other (p q), Older-update f i term m s ms (ground arith) h)
]

-- Every member is asked, in turn; what waited behind the requests comes first then.
pub execute-asks :
    (members : List ℕ) (req : VoteRequest) (ms : List ℕ) (fuel : ℕ) (f : ℕ → Server)
    (tasks : List Task)
    → ((j : ℕ) → occurs j ms ≤ 1)
    → All (Older f req.candidate_id req.term) ms
    → length (send_to_peers req.candidate_id req ms) ≤ fuel
    → execute_deferred_tasks fuel (record {
      members = members;
      server = f;
      tasks = send_to_peers req.candidate_id req ms ++ tasks;
    })
      ≡ execute_deferred_tasks (fuel - length (send_to_peers req.candidate_id req ms)) (record {
        members = members;
        server = asked f req.candidate_id req ms;
        tasks = tasks ++ grants req.candidate_id req.term ms;
      })
unfolding execute_deferred_tasks send_to_peers asked grants occurs
execute-asks members req [] fuel f tasks distinct older enough = rw (append-nil tasks) (
    ap
      (λ (k : ℕ).
        execute_deferred_tasks k (record { members = members; server = f; tasks = tasks }))
      (omega arith))
execute-asks members req (m ∷ ms) zero f tasks distinct older enough =
    elim (Bool-cases (m == req.candidate_id)) [
      | inl self ↦ rw self (
          execute-asks members req ms zero f tasks (λ j. ground (arith, distinct j)) older.1
            (ground (arith, enough)))
      | inr peer ↦ absurd (ground (arith, enough))
    ]
execute-asks members req (m ∷ ms) (suc fuel) f tasks distinct older enough =
    elim (Bool-cases (m == req.candidate_id)) [
      | inl self ↦ rw self (
          execute-asks members req ms (suc fuel) f tasks (λ j. ground (arith, distinct j)) older.1
            (ground (arith, enough)))
      | inr peer ↦ rw peer (
          let r = handle_vote_request (f m) req in
          let newer =
            handle_vote_request-newer (f m) req
              (older.0 (λ e. ground (arith, ==_iff m req.candidate_id))) in
          let f' = update f m r.0 in
          let back = answer req.candidate_id m (grant req.term) in
          let rest =
            execute-asks members req ms fuel f' (tasks ++ back ∷ [])
              (λ j. ground (arith, distinct j))
              (Older-update f req.candidate_id req.term m r.0 ms
                (ground (arith, distinct m, ==_iff m m)) older.1)
              (ground (arith, enough)) in
          rw newer.0 (
            rw (append_assoc (send_to_peers req.candidate_id req ms) tasks (back ∷ [])) (
              rest
              ∙ rw (append_assoc tasks (back ∷ []) (grants req.candidate_id req.term ms)) (
                  ap
                    (λ (k : ℕ). execute_deferred_tasks k (record {
                      members = members;
                      server = asked f' req.candidate_id req ms;
                      tasks = tasks ++ back ∷ grants req.candidate_id req.term ms;
                    }))
                    (omega arith)))))
    ]

-- What asking leaves of the candidate, and makes of the others.
pub asked_self :
    (f : ℕ → Server) (i : ℕ) (req : VoteRequest) (ms : List ℕ) → asked f i req ms i ≡ f i
unfolding asked update
asked_self f i req [] = refl
asked_self f i req (m ∷ ms) = elim (Bool-cases (m == i)) [
  | inl self ↦ rw self (asked_self f i req ms)
  | inr peer ↦ rw peer (
      asked_self (update f m (handle_vote_request (f m) req).0) i req ms
      ∙ ground (arith, ==_iff i m, ==_iff m i))
]

pub asked_apart :
    (f : ℕ → Server) (i : ℕ) (req : VoteRequest) (ms : List ℕ) (j : ℕ)
    → occurs j ms ≡ 0
    → asked f i req ms j ≡ f j
unfolding asked update occurs
asked_apart f i req [] j h = refl
asked_apart f i req (m ∷ ms) j h = elim (Bool-cases (m == i)) [
  | inl self ↦ rw self (asked_apart f i req ms j (ground arith))
  | inr peer ↦ rw peer (
      asked_apart (update f m (handle_vote_request (f m) req).0) i req ms j (ground arith)
      ∙ ground (arith, ==_iff j m, ==_iff m j))
]

pub asked_at :
    (f : ℕ → Server) (i : ℕ) (req : VoteRequest) (ms : List ℕ) (j : ℕ)
    → (j == i) ≡ false
    → listed j ms ≡ true
    → ((k : ℕ) → occurs k ms ≤ 1)
    → asked f i req ms j ≡ (handle_vote_request (f j) req).0
unfolding asked update listed occurs
asked_at f i req [] j other there distinct = cc
asked_at f i req (m ∷ ms) j other there distinct = elim (Bool-cases (m == i)) [
  | inl self ↦
      rw self
        (asked_at f i req ms j other (ground (arith, ==_iff m j)) (λ k. ground (arith, distinct k)))
  | inr peer ↦
      (let f' = update f m (handle_vote_request (f m) req).0 in
        rw peer (elim (Bool-cases (m == j)) [
          | inl here ↦
              (let same : m ≡ j = (==_iff m j).0 here in
                asked_apart f' i req ms j (ground (arith, distinct j, ==_iff m j))
                ∙ rw same (ground (arith, ==_iff j j)))
          | inr later ↦
              asked_at f' i req ms j other (ground arith) (λ k. ground (arith, distinct k))
              ∙ ground (arith, ==_iff j m, ==_iff m j)
        ]))
]
