-- ===== src/Raft/Server/Election/History.antt =====
-- raft/Server.cc: votes over every sequence of events at one server: the handlers of vote requests,
-- append requests and their responses, the election timeout, and what a server does on its own, in
-- any order.
use mathlib.Core.Path.{subst}
use x.Base.{
  ℕ, ◌+◌, ◌^◌, ◌<◌, ◌≡◌, arith, sym, List, [], ◌∷◌, ◌++◌, inl, inr, All, All-append, All-map,
}
use x.Raft.Rpc.{VoteRequest, VoteResponse, AppendEntriesRequest}
use x.Raft.Storage.{Storage}
use x.Raft.Server.{
  Server, current_term, handle_vote_request, handle_vote_response, on_timeout,
  handle_append_entries,
}
use x.Raft.Server.Commit.Work.{Work, Work-SameVotes}
use x.Raft.Server.Election.{
  Vote, granted, own_vote, Stands, Remembers, Remembers-same, handle_vote_request-Remembers,
  handle_append_entries-Remembers, handle_vote_response-storage, on_timeout-Remembers,
  handle_vote_request-granted, on_timeout-own_vote,
}

-- One event at a server, in a cluster of `n` members, and the votes that it gives. The term of a
-- candidate does not reach 2^64.
pub data Step (n : ℕ) (s : Server) : Server → List Vote → Type 0 where
  vote_request :
      (req : VoteRequest)
      → Step n s (handle_vote_request s req).0 (granted req (handle_vote_request s req).1)
  append_request : (req : AppendEntriesRequest) → Step n s (handle_append_entries s req).0 []
  vote_response : (resp : VoteResponse) → Step n s (handle_vote_response n s resp) []
  work : {t : Server} → Work s t → Step n s t []
  timeout : current_term s + 1 < 2 ^ 64 → Step n s (on_timeout s).0 (own_vote s (on_timeout s).1)

-- Any number of events, and all the votes that they gave.
pub data Run (n : ℕ) (s : Server) : Server → List Vote → Type 0 where
  start : Run n s s []
  next :
      {t u : Server} {votes new : List Vote}
      → Run n s t votes
      → Step n t u new
      → Run n s u (new ++ votes)

Step-old :
    {n : ℕ} {s t : Server} {new : List Vote} (v : Vote)
    → Step n s t new
    → Remembers s v
    → Remembers t v
Step-old {s = s} v (vote_request req) h = handle_vote_request-Remembers s req v h
Step-old {s = s} v (append_request req) h = handle_append_entries-Remembers s req v h
Step-old {n = n} {s = s} v (vote_response resp) h =
    subst (λ (st : Storage). Remembers (record s { storage = st }) v)
      (handle_vote_response-storage n s resp) h
Step-old {s = s} {t = t} v (work w) h =
    let k = Work-SameVotes w in Remembers-same s t v (sym k.voted_for) (sym k.term) h
Step-old {s = s} v (timeout bound) h = on_timeout-Remembers s v bound h

Step-new : {n : ℕ} {s t : Server} {new : List Vote} → Step n s t new → All (Stands t) new
Step-new {s = s} (vote_request req) = handle_vote_request-granted s req
Step-new (append_request req) = tt
Step-new (vote_response resp) = tt
Step-new (work w) = tt
Step-new {s = s} (timeout bound) = on_timeout-own_vote s

All-Step :
    {n : ℕ} {s t : Server} {new : List Vote} (votes : List Vote)
    → Step n s t new
    → All (Remembers s) votes
    → All (Remembers t) (new ++ votes)
All-Step {t = t} {new = new} votes step h =
    All-append (Remembers t) new votes (All-map new (λ v. inr) (Step-new step))
      (All-map votes (λ v. Step-old v step) h)

Run-Remembers :
    {n : ℕ} {s t : Server} {votes : List Vote} → Run n s t votes → All (Remembers t) votes
Run-Remembers start = tt
Run-Remembers (next {votes = votes} run step) = All-Step votes step (Run-Remembers run)

-- Two votes for the same term are for the same candidate.
abbrev pub Agree : Vote → Vote → Type 0
Agree v w = v.term ≡ w.term → v.candidate ≡ w.candidate

-- Any two votes of the list agree.
abbrev pub AllAgree : List Vote → Type 0
AllAgree [] = Unit
AllAgree (v ∷ votes) = All (Agree v) votes × AllAgree votes

Stands-Agree : (s : Server) (v w : Vote) → Stands s v → Remembers s w → Agree v w
Stands-Agree s v w h (inl past) same = absurd (omega (arith, h))
Stands-Agree s v w (now, last, voted) (inr (now', last', voted')) same = cc

AllAgree-append :
    (s : Server) (new votes : List Vote)
    → All (Stands s) new
    → All (Remembers s) (new ++ votes)
    → AllAgree votes
    → AllAgree (new ++ votes)
AllAgree-append s [] votes n r a = a
AllAgree-append s (v ∷ new) votes (h, n) (_, r) a =
    (All-map (new ++ votes) (λ w. Stands-Agree s v w h) r, AllAgree-append s new votes n r a)

-- In every run of a server, from any state and whatever the order of vote requests, append requests,
-- vote and append responses, timeouts, and of its own work on log and followers is, it votes for at most one candidate in a term, as long as the terms
-- that it stands in stay below 2^64: any two of its votes for the same term, those for itself
-- included, are for the same candidate.
pub Run-AllAgree : {n : ℕ} {s t : Server} {votes : List Vote} → Run n s t votes → AllAgree votes
Run-AllAgree start = tt
Run-AllAgree (next {t = t} {u = u} {votes = votes} {new = new} run step) =
    AllAgree-append u new votes (Step-new step) (All-Step votes step (Run-Remembers run))
      (Run-AllAgree run)
