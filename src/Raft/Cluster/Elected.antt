-- ===== src/Raft/Cluster/Elected.antt =====
-- executor/LocalExecutor.cc, on the tasks of one election, when no other term is ahead of it: all of
-- them are done, and the candidate leads.
use x.Base.{
  ℕ, ◌-◌, ◌*◌, ◌<◌, ◌≤◌, ◌≡◌, ◌≢◌, refl, arith, true, false, List, [], ◌∷◌, length, All, ◌==◌,
  ==_iff, sym, ◌∙◌, ap, append-nil,
}
use x.Raft.Rpc.{VoteRequest}
use x.Raft.Server.{Server, leader, candidate, current_term}
use x.Raft.Cluster.{Cluster, Task, send_to_peers, execute_deferred_tasks}
use x.Raft.Cluster.Tally.{listed, occurs}
use x.Raft.Cluster.Rounds.{
  Older, Follows, asked, length-grants, length-send_to_peers, execute-asks, asked_self, asked_at,
  handle_vote_request-newer,
}
use x.Raft.Cluster.Hearing.{heard, execute-answers, heard_other, heard-candidate}

-- All is done, server `i` leads in the term, and the other members follow it.
abbrev pub Elected : List ℕ → ℕ → ℕ → Cluster → Type 0
Elected members i term cl =
    (cl.tasks ≡ [])
    × ((cl.server i).state ≡ leader)
    × (current_term (cl.server i) ≡ term)
    × ((j : ℕ) → listed j members ≡ true → j ≢ i → Follows i term (cl.server j))

listed-occurs : (j : ℕ) (ms : List ℕ) → listed j ms ≡ true → 1 ≤ occurs j ms
unfolding listed occurs
listed-occurs j [] h = cc
listed-occurs j (m ∷ ms) h = ground (arith, listed-occurs j ms)

module _ (members : List ℕ) (req : VoteRequest) (f : ℕ → Server) (fuel : ℕ)
    (distinct : (j : ℕ) → occurs j members ≤ 1) (there : listed req.candidate_id members ≡ true)
    (older : All (Older f req.candidate_id req.term) members)
    (enough : 2 * length members ≤ fuel) where
  -- What is left when all tasks of the election are done.
  pub ended :
      execute_deferred_tasks fuel (record {
        members = members;
        server = f;
        tasks = send_to_peers req.candidate_id req members;
      })
      ≡ record {
        members = members;
        server =
            heard
              (asked f req.candidate_id req members)
              (length members)
              req.candidate_id
              req.term
              members;
        tasks = [];
      }
  ended =
      let i = req.candidate_id in
      let once = listed-occurs i members there in
      ap
        (λ (ts : List Task).
          execute_deferred_tasks fuel (record { members = members; server = f; tasks = ts }))
        (sym (append-nil (send_to_peers i req members)))
      ∙ execute-asks members req members fuel f [] distinct older
          (omega (arith, length-send_to_peers i req members, once))
      ∙ execute-answers members i req.term members (fuel - length (send_to_peers i req members))
          (asked f i req members)
          (omega
            (arith, length-send_to_peers i req members, length-grants i req.term members, once))

  leads :
      (f req.candidate_id).state ≡ candidate
      → (f req.candidate_id).votes_granted ≡ 0
      → 3 ≤ length members
      → ((heard
            (asked f req.candidate_id req members)
            (length members)
            req.candidate_id
            req.term
            members
            req.candidate_id).state
          ≡ leader)
        × (current_term (
              heard
                (asked f req.candidate_id req members)
                (length members)
                req.candidate_id
                req.term
                members
                req.candidate_id)
            ≡ current_term (f req.candidate_id))
  leads runs none_yet three =
      let i = req.candidate_id in
      let now = asked_self f i req members in
      let votes = ap (λ (s : Server). s.votes_granted) now ∙ none_yet in
      let (l, t) =
        heard-candidate (length members) i req.term (asked f i req members) members
          (ap (λ (s : Server). s.state) now ∙ runs) (omega (arith, votes))
          (omega (arith, votes, length-grants i req.term members, distinct i)) in
      (l, t ∙ ap (λ (s : Server). current_term s) now)

  follows :
      (j : ℕ)
      → listed j members ≡ true
      → (j == req.candidate_id) ≡ false
      → current_term (f j) < req.term
      → Follows req.candidate_id req.term (
          heard
            (asked f req.candidate_id req members)
            (length members)
            req.candidate_id
            req.term
            members
            j)
  follows j member other h =
      let i = req.candidate_id in
      rw
        (heard_other (asked f i req members) (length members) i req.term members j
          (λ e. ground (arith, ==_iff j i)))
        (rw (asked_at f i req members j other member distinct)
          (handle_vote_request-newer (f j) req h).1)

  unfoldable pub final : Cluster
  final = record {
    members = members;
    server =
        heard (asked f req.candidate_id req members) (length members) req.candidate_id req.term
          members;
    tasks = [];
  }

  pub elected :
      (f req.candidate_id).state ≡ candidate
      → (f req.candidate_id).votes_granted ≡ 0
      → 3 ≤ length members
      → current_term (f req.candidate_id) ≡ req.term
      → ((j : ℕ)
          → listed j members ≡ true
          → (j == req.candidate_id) ≡ false
          → current_term (f j) < req.term)
      → Elected members req.candidate_id req.term final
  unfolding final
  elected runs none_yet three same behind =
      let (l, t) = leads runs none_yet three in
      (
        refl,
        l,
        t ∙ same,
        λ j member apart.
            (let other : (j == req.candidate_id) ≡ false =
                ground (arith, ==_iff j req.candidate_id, apart) in
              follows j member other (behind j member other)),
      )
