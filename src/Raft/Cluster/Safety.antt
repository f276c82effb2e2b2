-- ===== src/Raft/Cluster/Safety.antt =====
-- raft/Server.cc, with the tasks of raft/LocalTransport.cc: how many servers lead in a term.
use x.Base.{
  ℕ, ◌≡◌, ◌≢◌, arith, true, false, List, [], ◌∷◌, length, inl, inr, All, ◌==◌, Bool-cases, ==_iff,
  sym, ◌∙◌,
}
use x.Raft.Server.{Server, leader, current_term}
use x.Raft.Server.Election.{Vote}
use x.Raft.Server.Election.History.{Agree, AllAgree, Run-AllAgree}
use x.Raft.Cluster.{Cluster, Run}
use x.Raft.Cluster.Tally.{tally-disjoint, two_quorums}
use x.Raft.Cluster.Elections.{Voted, IsActive}
use x.Raft.Cluster.Invariant.{IsFresh, Invariant, Run-Invariant}

Agree-Voted :
    (term c : ℕ) (v : Vote) (votes : List Vote)
    → v.term ≡ term
    → All (Agree v) votes
    → Voted term c votes
    → v.candidate ≡ c
Agree-Voted term c v [] now agree h = absurd h
Agree-Voted term c v (w ∷ votes) now (a, agree) (inl (same, who)) = a (now ∙ sym same) ∙ who
Agree-Voted term c v (w ∷ votes) now (a, agree) (inr h) = Agree-Voted term c v votes now agree h

-- Votes that agree are for one candidate in each term.
AllAgree-Voted :
    (term c d : ℕ) (votes : List Vote)
    → AllAgree votes
    → Voted term c votes
    → Voted term d votes
    → c ≡ d
AllAgree-Voted term c d [] agree h k = absurd h
AllAgree-Voted term c d (v ∷ votes) (a, agree) (inl (now, e)) (inl (_, f)) = sym e ∙ f
AllAgree-Voted term c d (v ∷ votes) (a, agree) (inl (now, e)) (inr k) =
    sym e ∙ Agree-Voted term d v votes now a k
AllAgree-Voted term c d (v ∷ votes) (a, agree) (inr h) (inl (now, f)) =
    sym (Agree-Voted term c v votes now a h) ∙ f
AllAgree-Voted term c d (v ∷ votes) (a, agree) (inr h) (inr k) =
    AllAgree-Voted term c d votes agree h k

leader-IsActive : (s : Server) → s.state ≡ leader → IsActive s
leader-IsActive s h = λ f. cc

module _ (first : ℕ → Server) (cl : Cluster) (inv : Invariant first cl) (i j : ℕ)
    (leads_i : (cl.server i).state ≡ leader) (leads_j : (cl.server j).state ≡ leader)
    (same : current_term (cl.server i) ≡ current_term (cl.server j)) where
  -- No member gave its vote to both.
  no_common :
      i ≢ j → (m : ℕ) → (inv.election i).counted m ≡ true → (inv.election j).counted m ≡ false
  no_common apart m h = elim (Bool-cases ((inv.election j).counted m)) [
    | inr no_vote ↦ no_vote
    | inl k ↦ absurd (
        apart (
          AllAgree-Voted (current_term (cl.server i)) i j (inv.votes m)
            (Run-AllAgree (inv.history m))
            ((inv.election i).honest m h (leader-IsActive (cl.server i) leads_i))
            (rw same ((inv.election j).honest m k (leader-IsActive (cl.server j) leads_j)))))
  ]

  Invariant-one_leader : i ≡ j
  Invariant-one_leader = elim (Bool-cases (i == j)) [
    | inl e ↦ (==_iff i j).0 e
    | inr apart ↦ absurd (
        omega (
          arith,
          (inv.election i).won leads_i,
          (inv.election i).tallied,
          (inv.election j).won leads_j,
          (inv.election j).tallied,
          two_quorums (length cl.members) (cl.server i).votes_granted (cl.server j).votes_granted,
          tally-disjoint (inv.election i).counted (inv.election j).counted cl.members
              (no_common (λ e. ground (arith, ==_iff i j))),
        ))
  ]

-- From a fresh cluster (no member listed twice, all servers followers that nobody has voted for yet),
-- in whatever order the tasks of the transport run, whatever requests to append and answers to them
-- come in between, whatever the servers do on their logs and followers, and whenever a server times
-- out whose earlier vote requests and their answers have all been dealt with (its next term below
-- 2^64): two servers that lead in the same term are the same server.
pub one_leader :
    (cl dl : Cluster) (i j : ℕ)
    → IsFresh cl
    → Run cl dl
    → (dl.server i).state ≡ leader
    → (dl.server j).state ≡ leader
    → current_term (dl.server i) ≡ current_term (dl.server j)
    → i ≡ j
one_leader cl dl i j fresh r = Invariant-one_leader cl.server dl (Run-Invariant fresh r) i j
