-- ===== src/Raft/Cluster/Hearing.antt =====
-- executor/LocalExecutor.cc `executeDeferredTasks`, on the answers of an election: the candidate hears
-- every one.
use x.Base.{
  ℕ, zero, suc, ◌+◌, ◌<◌, ◌≤◌, ◌≡◌, ◌≢◌, refl, arith, List, [], ◌∷◌, length, inl, inr, ◌==◌, leb,
  if◌then◌else◌, Bool-cases, ==_iff, ◌∙◌, ap,
}
use x.Raft.Rpc.{VoteResponse}
use x.Raft.Server.{
  Server, leader, candidate, current_term, quorum, handle_vote_response, is_leader, is_candidate,
  setup_leader,
}
use x.Raft.Cluster.{update, update_self, execute_deferred_tasks}
use x.Raft.Cluster.Rounds.{grant, grants}

-- The servers after server `i` heard all their answers, in a cluster of `n` members.
pub heard : (ℕ → Server) → ℕ → ℕ → ℕ → List ℕ → ℕ → Server
heard f n i term [] = f
heard f n i term (m ∷ ms) =
    let self = heard f n i term ms in
    let peer = heard (update f i (handle_vote_response n (f i) (grant term))) n i term ms in
    if m == i then self else peer

-- Every answer is heard, in turn.
pub execute-answers :
    (members : List ℕ) (i term : ℕ) (ms : List ℕ) (fuel : ℕ) (f : ℕ → Server)
    → length (grants i term ms) ≤ fuel
    → execute_deferred_tasks fuel
        (record { members = members; server = f; tasks = grants i term ms })
      ≡ record { members = members; server = heard f (length members) i term ms; tasks = [] }
unfolding execute_deferred_tasks heard grants
execute-answers members i term [] zero f enough = refl
execute-answers members i term [] (suc fuel) f enough = refl
execute-answers members i term (m ∷ ms) zero f enough = elim (Bool-cases (m == i)) [
  | inl self ↦ rw self (execute-answers members i term ms zero f (ground (arith, enough)))
  | inr peer ↦ absurd (ground (arith, enough))
]
execute-answers members i term (m ∷ ms) (suc fuel) f enough = elim (Bool-cases (m == i)) [
  | inl self ↦ rw self (execute-answers members i term ms (suc fuel) f (ground (arith, enough)))
  | inr peer ↦ rw peer (
      execute-answers members i term ms fuel
        (update f i (handle_vote_response (length members) (f i) (grant term)))
        (ground (arith, enough)))
]

-- Hearing an answer changes the candidate alone.
pub heard_other :
    (f : ℕ → Server) (n i term : ℕ) (ms : List ℕ) (j : ℕ) → j ≢ i → heard f n i term ms j ≡ f j
unfolding heard update
heard_other f n i term [] j h = refl
heard_other f n i term (m ∷ ms) j h = elim (Bool-cases (m == i)) [
  | inl self ↦ rw self (heard_other f n i term ms j h)
  | inr peer ↦ rw peer (
      heard_other (update f i (handle_vote_response n (f i) (grant term))) n i term ms j h
      ∙ ground (arith, ==_iff j i))
]

-- One answer: a leader does not change, and a candidate counts it, and leads with a quorum.
handle_vote_response-leader :
    (n : ℕ) (s : Server) (resp : VoteResponse)
    → s.state ≡ leader
    → handle_vote_response n s resp ≡ s
unfolding handle_vote_response is_leader
handle_vote_response-leader n s resp h = ground (arith, h)

handle_vote_response-candidate :
    (n term : ℕ) (s : Server)
    → s.state ≡ candidate
    → (handle_vote_response n s (grant term)).state
      ≡ (if leb (quorum n) (s.votes_granted + 1) then leader else candidate)
unfolding handle_vote_response is_leader is_candidate setup_leader
handle_vote_response-candidate n term s h = ground (arith, h)

handle_vote_response-counts :
    (n term : ℕ) (s : Server)
    → s.state ≢ leader
    → ((handle_vote_response n s (grant term)).votes_granted ≡ s.votes_granted + 1)
      × (current_term (handle_vote_response n s (grant term)) ≡ current_term s)
unfolding handle_vote_response is_leader is_candidate setup_leader
handle_vote_response-counts n term s h = ground (arith, h)

-- A leader stays one, and a candidate with enough answers becomes one; the term is as before.
module _ (n i term : ℕ) where
  heard-leader : (f : ℕ → Server) (ms : List ℕ) → (f i).state ≡ leader → heard f n i term ms i ≡ f i
  unfolding heard
  heard-leader f [] leads = refl
  heard-leader f (m ∷ ms) leads = elim (Bool-cases (m == i)) [
    | inl self ↦ rw self (heard-leader f ms leads)
    | inr peer ↦ rw peer (
        let t = handle_vote_response n (f i) (grant term) in
        let here : t ≡ f i = handle_vote_response-leader n (f i) (grant term) leads in
        let now = update_self f i t ∙ here in
        heard-leader (update f i t) ms (ap (λ (s : Server). s.state) now ∙ leads) ∙ now)
  ]

  pub heard-candidate :
      (f : ℕ → Server) (ms : List ℕ)
      → (f i).state ≡ candidate
      → (f i).votes_granted < quorum n
      → quorum n ≤ (f i).votes_granted + length (grants i term ms)
      → ((heard f n i term ms i).state ≡ leader)
        × (current_term (heard f n i term ms i) ≡ current_term (f i))
  unfolding heard grants
  heard-candidate f [] runs few enough = absurd (omega arith)
  heard-candidate f (m ∷ ms) runs few enough = elim (Bool-cases (m == i)) [
    | inl self ↦ rw self (heard-candidate f ms runs few (ground (arith, enough)))
    | inr peer ↦ rw peer (
        let t = handle_vote_response n (f i) (grant term) in
        let g = update f i t in
        let now : g i ≡ t = update_self f i t in
        let state = handle_vote_response-candidate n term (f i) runs in
        let counts = handle_vote_response-counts n term (f i) (λ l. ground (arith, l, runs)) in
        elim (Bool-cases (leb (quorum n) ((f i).votes_granted + 1))) [
          | inl wins ↦
              (let leads = ap (λ (s : Server). s.state) now ∙ state ∙ rw wins refl in
                let stays = heard-leader g ms leads in
                (
                  ap (λ (s : Server). s.state) stays ∙ leads,
                  ap (λ (s : Server). current_term s) (stays ∙ now) ∙ counts.1,
                ))
          | inr waits ↦
              (let votes = ap (λ (s : Server). s.votes_granted) now ∙ counts.0 in
                let (leads, same) =
                  heard-candidate g ms (ap (λ (s : Server). s.state) now ∙ state ∙ rw waits refl)
                    (ground (arith, votes, waits)) (ground (arith, votes, enough)) in
                (leads, same ∙ ap (λ (s : Server). current_term s) now ∙ counts.1))
        ])
  ]
