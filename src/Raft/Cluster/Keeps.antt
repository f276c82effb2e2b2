-- ===== src/Raft/Cluster/Keeps.antt =====
-- raft/Server.cc: what a request leaves of an election of the server that handles it.
use x.Base.{
  ℕ, ◌≡◌, ◌⊎◌, refl, arith, true, ltb, inl, inr, ◌==◌, Bool-cases, Option, none, some, ◌&&◌, sym,
  ◌∙◌,
}
use x.Raft.Rpc.{VoteRequest, AppendEntriesRequest}
use x.Raft.Server.{
  Server, follower, current_term, handle_vote_request, cast_vote, convert_to_follower,
  handle_append_entries, get_log_term,
}
use x.Raft.Server.Commit.Work.{Work, Work-SameVotes}
use x.Raft.Server.Election.{store_entries-vote}

-- The server is a follower afterwards, or its term and state are as before.
pub record Keeps (s t : Server) : Type 0 where
  pub id : t.id ≡ s.id
  pub votes_granted : t.votes_granted ≡ s.votes_granted
  pub state : (t.state ≡ follower) ⊎ ((t.state ≡ s.state) × (current_term t ≡ current_term s))

same-Keeps : (s : Server) → Keeps s s
same-Keeps s = record { id = refl; votes_granted = refl; state = inr (refl, refl) }

cast_vote-Keeps :
    (s : Server) (req : VoteRequest) (old : Option (ℕ × ℕ)) → Keeps s (cast_vote s req old).0
unfolding cast_vote
cast_vote-Keeps s req none = record { id = refl; votes_granted = refl; state = inr (refl, refl) }
cast_vote-Keeps s req (some (id, term)) =
    elim (Bool-cases (req.candidate_id == id && ltb term req.last_log_term)) [
      | inl same ↦ rw same (record { id = refl; votes_granted = refl; state = inr (refl, refl) })
      | inr other ↦ rw other (same-Keeps s)
    ]

-- What a follower keeps, it is a follower.
Keeps-follower :
    (r s t : Server)
    → s.id ≡ r.id
    → s.votes_granted ≡ r.votes_granted
    → s.state ≡ follower
    → Keeps s t
    → Keeps r t
Keeps-follower r s t i v f k = record {
  id = k.id ∙ i;
  votes_granted = k.votes_granted ∙ v;
  state = elim k.state [ inl g ↦ inl g | inr (same, _) ↦ inl (same ∙ f) ];
}

pub handle_vote_request-Keeps :
    (s : Server) (req : VoteRequest) → Keeps s (handle_vote_request s req).0
unfolding handle_vote_request
handle_vote_request-Keeps s req = elim (Bool-cases (ltb req.term (current_term s))) [
  | inl stale ↦ rw stale (same-Keeps s)
  | inr fresh ↦ rw fresh (elim (Bool-cases (ltb (current_term s) req.term)) [
    | inl newer ↦ rw newer (
        let t = convert_to_follower s req.candidate_id req.term in
        Keeps-follower s t _ refl refl refl (cast_vote-Keeps t req none))
    | inr equal ↦ rw equal (cast_vote-Keeps s req s.storage.voted_for)
  ])
]

pub handle_append_entries-Keeps :
    (s : Server) (req : AppendEntriesRequest) → Keeps s (handle_append_entries s req).0
unfolding handle_append_entries
handle_append_entries-Keeps s req = elim (Bool-cases (ltb req.term (current_term s))) [
  | inl stale ↦ rw stale (same-Keeps s)
  | inr fresh ↦
      rw fresh (elim (Bool-cases (get_log_term s.storage req.prev_log_index == req.prev_log_term)) [
        | inr mismatch ↦ rw mismatch (same-Keeps s)
        | inl match ↦ rw match (elim (Bool-cases (ltb (current_term s) req.term)) [
          | inl newer ↦ rw newer (record { id = refl; votes_granted = refl; state = inl refl })
          | inr equal ↦ rw equal (record {
            id = refl;
            votes_granted = refl;
            state = inr (refl, sym ((store_entries-vote s.storage req).1));
          })
        ])
      ])
]

-- A vote is for the term that was asked for.
cast_vote-term :
    (s : Server) (req : VoteRequest) (old : Option (ℕ × ℕ))
    → (cast_vote s req old).1.term ≡ current_term s
unfolding cast_vote
cast_vote-term s req none = refl
cast_vote-term s req (some (id, term)) = ground arith

pub granted-term :
    (s : Server) (req : VoteRequest)
    → (handle_vote_request s req).1.vote_granted ≡ true
    → (handle_vote_request s req).1.term ≡ req.term
unfolding handle_vote_request convert_to_follower
granted-term s req = ground (
  arith,
  cast_vote-term s req s.storage.voted_for,
  cast_vote-term (convert_to_follower s req.candidate_id req.term) req none,
)

pub Work-Keeps : {s t : Server} → Work s t → Keeps s t
Work-Keeps w =
    let k = Work-SameVotes w in
    record { id = k.id; votes_granted = k.votes_granted; state = inr (k.state, k.term) }
