-- ===== src/Raft/Cluster/Answers.antt =====
-- raft/Server.cc `handleResponse(VoteResponse)`: an answer that arrives, and who is counted then.
use x.Base.{
  ℕ, ◌+◌, ◌≤◌, ◌≡◌, ◌≢◌, refl, arith, Bool, true, false, List, ◌∷◌, ◌++◌, length, inl, inr, All-map,
  ◌==◌, Bool-cases, ==_iff, ◌∙◌, leb, leb→le, ◌&&◌,
}
use x.Raft.Rpc.{VoteResponse}
use x.Raft.Server.{
  Server, ServerState, follower, leader, candidate, current_term, quorum, handle_vote_response,
  is_leader, is_candidate, setup_leader,
}
use x.Raft.Server.Election.{Vote}
use x.Raft.Cluster.{Task, ask, answer, waiting_tasks, concerns}
use x.Raft.Cluster.Tally.{including, tally-including}
use x.Raft.Cluster.Elections.{Voted, IsActive, Waits, bit, Election}
use x.Raft.Cluster.Tasks.{waiting_tasks-take_out, Election-done, Election-Waits}

module _ (members : List ℕ) (c : ℕ) (s t : Server) (votes : ℕ → List Vote)
    (active : IsActive t → IsActive s) (term : current_term s ≡ current_term t) where
  Waits-same : (task : Task) → Waits members c s votes task → Waits members c t votes task
  Waits-same (ask target req) w =
      λ own. (let (there, h) = w own in (there, λ a. h (active a) ∙ term))
  Waits-same (answer sender target resp) w =
      λ own. (let (there, h) = w own in (there, λ g a. rw (← term) (h g (active a))))

is_leader-eq : (st : ServerState) → is_leader st ≡ false → st ≢ leader
unfolding is_leader
is_leader-eq follower h = λ e. cc
is_leader-eq candidate h = λ e. cc
is_leader-eq leader h = λ e. cc

wins_quorum : (a b : Bool) → (a && b) ≡ true → a ≡ true
wins_quorum true b h = refl
wins_quorum false b h = cc

wins_candidate : (a : Bool) (st : ServerState) → (a && is_candidate st) ≡ true → st ≢ follower
unfolding is_candidate
wins_candidate a follower h = λ _. ground arith
wins_candidate a candidate h = λ e. cc
wins_candidate a leader h = λ e. cc

-- The server after a vote that is counted, with no quorum or with one.
abbrev counts : Server → Server
counts s = record s { votes_granted = s.votes_granted + 1 }

module _ (members : List ℕ) (c : ℕ) (s t : Server) (votes : ℕ → List Vote) (before : List Task)
    (target : ℕ) (resp : VoteResponse) (after : List Task)
    (e : Election members c s votes (before ++ answer c target resp ∷ after))
    (granted : resp.vote_granted ≡ true) (id : t.id ≡ s.id)
    (count : t.votes_granted ≡ s.votes_granted + 1) (term : current_term s ≡ current_term t)
    (active : IsActive t → IsActive s)
    (won : t.state ≡ leader → quorum (length members) ≤ t.votes_granted) where
  only : (j : ℕ) → waiting_tasks c j (before ++ after) + bit (including e.counted target j) ≤ 1
  unfolding concerns including
  only j = ground (
    arith,
    e.once j,
    waiting_tasks-take_out c j before (answer c target resp) after,
    ==_iff c c,
    ==_iff j target,
    ==_iff target j,
  )

  new : e.counted target ≡ false
  unfolding concerns
  new =
      ground
        (arith, e.once target, waiting_tasks-take_out c target before (answer c target resp) after)

  honest :
      (j : ℕ)
      → including e.counted target j ≡ true
      → IsActive t
      → Voted (current_term t) c (votes j)
  unfolding including
  honest j h a = elim (Bool-cases (j == target)) [
    | inl same ↦
        (let eq : j ≡ target = (==_iff j target).0 same in
          rw eq (
            rw (← term) (
              (Election-Waits members c s votes before (answer c target resp) after e refl).1
                granted (active a))))
    | inr other ↦ rw (← term) (e.honest j (ground arith) (active a))
  ]

  Election-counted : Election members c t votes (before ++ after)
  Election-counted = record {
    counted = including e.counted target;
    own = id ∙ e.own;
    tallied = omega (
      arith,
      e.tallied,
      tally-including e.counted target members new
          (Election-Waits members c s votes before (answer c target resp) after e refl).0,
    );
    honest = honest;
    once = only;
    waiting =
        All-map (before ++ after) (Waits-same members c s t votes active term)
          (Election-done members c s votes before (answer c target resp) after e).waiting;
    won = won;
  }

pub Election-answered :
    (members : List ℕ) (c : ℕ) (s : Server) (votes : ℕ → List Vote) (before : List Task)
    (target : ℕ) (resp : VoteResponse) (after : List Task)
    → Election members c s votes (before ++ answer c target resp ∷ after)
    → Election members c (handle_vote_response (length members) s resp) votes (before ++ after)
unfolding handle_vote_response setup_leader
Election-answered members c s votes before target resp after e =
    let done = Election-done members c s votes before (answer c target resp) after e in
    elim (Bool-cases (is_leader s.state)) [
      | inl leads ↦ rw leads done
      | inr runs ↦ rw runs (elim (Bool-cases resp.vote_granted) [
        | inr no_vote ↦ rw no_vote done
        | inl granted ↦
            rw granted
              (elim (Bool-cases
                (leb (quorum (length members)) (s.votes_granted + 1) && is_candidate s.state)) [
                  | inl wins ↦ rw wins (
                      Election-counted members c s (setup_leader (counts s)) votes before target
                        resp after e granted refl refl refl (λ a f. wins_candidate _ s.state wins f)
                        (λ _.
                          leb→le (quorum (length members)) (s.votes_granted + 1)
                            (wins_quorum _ _ wins)))
                  | inr waits ↦ rw waits (
                      Election-counted members c s (counts s) votes before target resp after e
                        granted refl refl refl (λ a. a) (λ l. absurd (is_leader-eq s.state runs l)))
                ])
      ])
    ]
