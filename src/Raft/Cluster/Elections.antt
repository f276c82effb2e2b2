-- ===== src/Raft/Cluster/Elections.antt =====
-- What the servers of a cluster keep of an election: who has been counted for it, which of its tasks
-- still wait, and which votes the members gave.
use x.Base.{
  ℕ, ◌+◌, ◌≤◌, ◌≡◌, ◌≢◌, ◌⊎◌, arith, Bool, true, List, [], ◌∷◌, ◌++◌, length, inl, inr, All,
  All-map, sym, ◌∙◌, if◌then◌else◌,
}
use x.Raft.Server.{Server, follower, leader, current_term, quorum}
use x.Raft.Server.Election.{Vote}
use x.Raft.Cluster.{Task, ask, answer, waiting_tasks}
use x.Raft.Cluster.Keeps.{Keeps}
use x.Raft.Cluster.Tally.{tally, listed}

-- Among these votes there is one for the candidate in the term.
abbrev pub Voted : ℕ → ℕ → List Vote → Type 0
Voted term c [] = ⊥
Voted term c (v ∷ votes) = ((v.term ≡ term) × (v.candidate ≡ c)) ⊎ Voted term c votes

pub Voted-append :
    (term c : ℕ) (new votes : List Vote) → Voted term c votes → Voted term c (new ++ votes)
Voted-append term c [] votes h = h
Voted-append term c (v ∷ new) votes h = inr (Voted-append term c new votes h)

abbrev pub IsActive : Server → Type 0
IsActive s = s.state ≢ follower

-- A task of candidate `c` is about its present term, unless it has become a follower, and an answer
-- that grants a vote stands for a vote that was given.
abbrev pub Waits : List ℕ → ℕ → Server → (ℕ → List Vote) → Task → Type 0
Waits members c s votes (ask target req) =
    req.candidate_id ≡ c → (listed target members ≡ true) × (IsActive s → req.term ≡ current_term s)
Waits members c s votes (answer sender target resp) =
    sender ≡ c
    → (listed target members ≡ true)
      × (resp.vote_granted ≡ true → IsActive s → Voted (current_term s) c (votes target))

abbrev pub bit : Bool → ℕ
bit b = if b then 1 else 0

-- The election of candidate `c`, a server in state `s`.
pub record Election (members : List ℕ) (c : ℕ) (s : Server) (votes : ℕ → List Vote)
    (tasks : List Task) : Type 0 where
  pub counted : ℕ → Bool
  pub own : s.id ≡ c
  pub tallied : s.votes_granted ≤ tally counted members
  pub honest : (j : ℕ) → counted j ≡ true → IsActive s → Voted (current_term s) c (votes j)
  pub once : (j : ℕ) → waiting_tasks c j tasks + bit (counted j) ≤ 1
  pub waiting : All (Waits members c s votes) tasks
  pub won : s.state ≡ leader → quorum (length members) ≤ s.votes_granted

module _ (members : List ℕ) (c : ℕ) (s t : Server) (votes : ℕ → List Vote) (k : Keeps s t) where
  Waits-Keeps : (task : Task) → Waits members c s votes task → Waits members c t votes task
  Waits-Keeps (ask target req) w = λ own.
      let (there, term) = w own in
      (
        there,
        λ active. elim k.state [
          | inl f ↦ absurd (active f)
          | inr (state, same) ↦ term (λ f. active (state ∙ f)) ∙ sym same
        ],
      )
  Waits-Keeps (answer sender target resp) w = λ own.
      let (there, term) = w own in
      (
        there,
        λ granted active. elim k.state [
          | inl f ↦ absurd (active f)
          | inr (state, same) ↦ rw same (term granted (λ f. active (state ∙ f)))
        ],
      )

  pub Election-Keeps :
      {tasks : List Task} → Election members c s votes tasks → Election members c t votes tasks
  Election-Keeps {tasks = tasks} e = record {
    counted = e.counted;
    own = k.id ∙ e.own;
    tallied = rw k.votes_granted e.tallied;
    honest = λ j h active. elim k.state [
      | inl f ↦ absurd (active f)
      | inr (state, same) ↦ rw same (e.honest j h (λ f. active (state ∙ f)))
    ];
    once = e.once;
    waiting = All-map tasks Waits-Keeps e.waiting;
    won = λ leads. elim k.state [
      | inl f ↦ ground arith
      | inr (state, _) ↦ rw k.votes_granted (e.won (sym state ∙ leads))
    ];
  }

module _ (members : List ℕ) (c : ℕ) (s : Server) (votes votes' : ℕ → List Vote)
    (grows : (j term : ℕ) → Voted term c (votes j) → Voted term c (votes' j)) where
  Waits-grows : (task : Task) → Waits members c s votes task → Waits members c s votes' task
  Waits-grows (ask target req) w = w
  Waits-grows (answer sender target resp) w = λ own.
      let (there, term) = w own in
      (there, λ granted active. grows target (current_term s) (term granted active))

  pub Election-grows :
      {tasks : List Task} → Election members c s votes tasks → Election members c s votes' tasks
  Election-grows {tasks = tasks} e = record {
    counted = e.counted;
    own = e.own;
    tallied = e.tallied;
    honest = λ j h active. grows j (current_term s) (e.honest j h active);
    once = e.once;
    waiting = All-map tasks Waits-grows e.waiting;
    won = e.won;
  }
