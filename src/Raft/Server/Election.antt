-- ===== src/Raft/Server/Election.antt =====
-- raft/Server.cc: what the handlers keep of the votes that a server gave.
pub mod History
use x.Base.{
  ℕ, zero, suc, ◌+◌, ◌%◌, ◌^◌, ◌<◌, ◌≤◌, ◌≡◌, ◌⊎◌, refl, arith, Bool, true, false, List, [], ◌∷◌,
  ◌++◌, ◌-◌, length, take, ltb, if◌then◌else◌, Option, none, some, inl, inr, not, ◌==◌, ◌&&◌,
  Bool-cases, ltb→lt, sym, ◌∙◌, ==_iff, All,
}
use x.Raft.Rpc.{LogEntry, VoteRequest, VoteResponse, AppendEntriesRequest}
use x.Raft.Storage.{Storage, set_voted_for, append_log_entry, truncate_log}
use x.Raft.Server.{
  Server, ServerState, current_term, convert_to_follower, cast_vote, handle_vote_request,
  handle_vote_response, setup_leader, get_log_term, send_vote_request, on_timeout, find_conflict,
  append_new, last_index, store_entries, handle_append_entries, is_leader, is_candidate,
}

-- A vote: the term it is for, and the candidate.
pub record Vote : Type 0 where
  pub term : ℕ
  pub candidate : ℕ

-- The votes that the answer to a request gives.
abbrev pub granted : VoteRequest → VoteResponse → List Vote
granted req resp =
    if resp.vote_granted then record { term = resp.term; candidate = req.candidate_id } ∷ [] else []

-- The vote that a server gives itself when it times out.
abbrev pub own_vote : Server → Option VoteRequest → List Vote
own_vote s none = []
own_vote s (some req) = record { term = req.term; candidate = s.id } ∷ []

-- What a server knows of a vote that it gave: the term is over, or it stands for that candidate.
abbrev pub Stands : Server → Vote → Type 0
Stands s v =
    (v.term ≡ current_term s) × (last : ℕ) × (s.storage.voted_for ≡ some (v.candidate, last))

abbrev pub Remembers : Server → Vote → Type 0
Remembers s v = (v.term < current_term s) ⊎ Stands s v

cast_vote-Remembers :
    (s : Server) (req : VoteRequest) (old : Option (ℕ × ℕ)) (v : Vote)
    → s.storage.voted_for ≡ old
    → Remembers s v
    → Remembers (cast_vote s req old).0 v
unfolding cast_vote
cast_vote-Remembers s req none v e (inl past) = inl past
cast_vote-Remembers s req none v e (inr (now, last, voted)) = cc
cast_vote-Remembers s req (some (id, term)) v e h =
    elim (Bool-cases (req.candidate_id == id && ltb term req.last_log_term)) [
      | inl same ↦ rw same (elim h [
        | inl past ↦ inl past
        | inr (now, last, voted) ↦ inr (
          now,
          req.last_log_term,
          (let who : req.candidate_id ≡ id = ground (arith, ==_iff req.candidate_id id) in cc),
        )
      ])
      | inr other ↦ rw other h
    ]

convert-Remembers :
    (s : Server) (id term : ℕ) (v : Vote)
    → current_term s < term
    → Remembers s v
    → Remembers (convert_to_follower s id term) v
unfolding convert_to_follower
convert-Remembers s id term v h (inl past) = inl (omega arith)
convert-Remembers s id term v h (inr (now, _, _)) = inl (omega arith)

pub handle_vote_request-Remembers :
    (s : Server) (req : VoteRequest) (v : Vote)
    → Remembers s v
    → Remembers (handle_vote_request s req).0 v
unfolding handle_vote_request
handle_vote_request-Remembers s req v h = elim (Bool-cases (ltb req.term (current_term s))) [
  | inl stale ↦ rw stale h
  | inr fresh ↦ rw fresh (elim (Bool-cases (ltb (current_term s) req.term)) [
    | inl newer ↦ rw newer (
        let t = convert_to_follower s req.candidate_id req.term in
        cast_vote-Remembers t req t.storage.voted_for v refl (
          convert-Remembers s req.candidate_id req.term v (ltb→lt (current_term s) req.term newer)
            h))
    | inr equal ↦ rw equal (cast_vote-Remembers s req s.storage.voted_for v refl h)
  ])
]

-- What a server knows of its votes is about these two fields.
pub Remembers-same :
    (s t : Server) (v : Vote)
    → s.storage.voted_for ≡ t.storage.voted_for
    → current_term s ≡ current_term t
    → Remembers s v
    → Remembers t v
Remembers-same s t v voted term (inl past) = inl (omega arith)
Remembers-same s t v voted term (inr (now, last, h)) = inr (now ∙ term, last, sym voted ∙ h)

find_conflict-vote :
    (st : Storage) (i : ℕ) (es : List LogEntry)
    → (st.voted_for ≡ (find_conflict st i es).0.voted_for)
      × (st.current_term ≡ (find_conflict st i es).0.current_term)
unfolding find_conflict
find_conflict-vote st i [] = (refl, refl)
find_conflict-vote st i (e ∷ es) = ground (arith, find_conflict-vote st ((i + 1) % 2 ^ 64) es)

append_new-vote :
    (st : Storage) (es : List LogEntry)
    → (st.voted_for ≡ (append_new st es).voted_for)
      × (st.current_term ≡ (append_new st es).current_term)
unfolding append_new
append_new-vote st [] = (refl, refl)
append_new-vote st (e ∷ es) = append_new-vote (append_log_entry st e) es

pub store_entries-vote :
    (st : Storage) (req : AppendEntriesRequest)
    → (st.voted_for ≡ (store_entries st req).voted_for)
      × (st.current_term ≡ (store_entries st req).current_term)
unfolding store_entries
store_entries-vote st req =
    let start = (req.prev_log_index + 1) % 2 ^ 64 in
    let (cut, new) = find_conflict st start req.entries in
    let (v1, t1) = find_conflict-vote st start req.entries in
    let (v2, t2) = append_new-vote cut (
      take
        (suc (last_index req)
          - (req.prev_log_index + 1 + (length req.entries - length new)) % 2 ^ 64)
        new) in
    (v1 ∙ v2, t1 ∙ t2)

pub handle_append_entries-Remembers :
    (s : Server) (req : AppendEntriesRequest) (v : Vote)
    → Remembers s v
    → Remembers (handle_append_entries s req).0 v
unfolding handle_append_entries
handle_append_entries-Remembers s req v h = elim (Bool-cases (ltb req.term (current_term s))) [
  | inl stale ↦ rw stale h
  | inr fresh ↦
      rw fresh (elim (Bool-cases (get_log_term s.storage req.prev_log_index == req.prev_log_term)) [
        | inr mismatch ↦ rw mismatch h
        | inl match ↦ rw match (elim (Bool-cases (ltb (current_term s) req.term)) [
          | inl newer ↦ rw newer (
              let t = convert_to_follower s req.leader_id req.term in
              let (voted, term) = store_entries-vote t.storage req in
              Remembers-same t (record t { storage = store_entries t.storage req }) v voted term
                (convert-Remembers s req.leader_id req.term v
                  (ltb→lt (current_term s) req.term newer) h))
          | inr equal ↦ rw equal (
              let (voted, term) = store_entries-vote s.storage req in
              Remembers-same s (record s { storage = store_entries s.storage req }) v voted term h)
        ])
      ])
]

pub handle_vote_response-storage :
    (n : ℕ) (s : Server) (resp : VoteResponse) → s.storage ≡ (handle_vote_response n s resp).storage
unfolding handle_vote_response setup_leader
handle_vote_response-storage n s resp = ground arith

pub on_timeout-Remembers :
    (s : Server) (v : Vote)
    → current_term s + 1 < 2 ^ 64
    → Remembers s v
    → Remembers (on_timeout s).0 v
unfolding on_timeout send_vote_request
on_timeout-Remembers s v bound h = elim (Bool-cases (is_leader s.state)) [
  | inl leads ↦ rw leads h
  | inr runs ↦
      rw runs (elim h [ inl past ↦ inl (omega arith) | inr (now, _, _) ↦ inl (omega arith) ])
]

cast_vote-granted :
    (s : Server) (req : VoteRequest) (old : Option (ℕ × ℕ))
    → All (Stands (cast_vote s req old).0) (granted req (cast_vote s req old).1)
unfolding cast_vote
cast_vote-granted s req none = ((refl, req.last_log_term, refl), tt)
cast_vote-granted s req (some (id, term)) =
    elim (Bool-cases (req.candidate_id == id && ltb term req.last_log_term)) [
      | inl same ↦ rw same ((refl, req.last_log_term, refl), tt)
      | inr other ↦ rw other tt
    ]

pub handle_vote_request-granted :
    (s : Server) (req : VoteRequest)
    → All (Stands (handle_vote_request s req).0) (granted req (handle_vote_request s req).1)
unfolding handle_vote_request
handle_vote_request-granted s req = elim (Bool-cases (ltb req.term (current_term s))) [
  | inl stale ↦ rw stale tt
  | inr fresh ↦ rw fresh (
      let t =
        if ltb (current_term s) req.term
        then convert_to_follower s req.candidate_id req.term
        else s in
      cast_vote-granted t req t.storage.voted_for)
]

pub on_timeout-own_vote : (s : Server) → All (Stands (on_timeout s).0) (own_vote s (on_timeout s).1)
unfolding on_timeout send_vote_request
on_timeout-own_vote s = elim (Bool-cases (is_leader s.state)) [
  | inl leads ↦ rw leads tt
  | inr runs ↦ rw runs ((refl, (current_term s + 1) % 2 ^ 64, refl), tt)
]
