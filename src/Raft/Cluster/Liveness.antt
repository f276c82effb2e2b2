-- ===== src/Raft/Cluster/Liveness.antt =====
-- raft/Server.cc, with raft/LocalTransport.cc and executor/LocalExecutor.cc: an election that no other
-- disturbs ends with a leader.
use mathlib.Core.Path.{subst}
use x.Base.{
  ℕ, ◌+◌, ◌*◌, ◌^◌, ◌<◌, ◌≤◌, ◌≡◌, ◌≢◌, refl, arith, true, false, [], length, All-map, ◌==◌, ==_iff,
  sym, ◌∙◌, ap,
}
use x.Raft.Rpc.{VoteRequest}
use x.Raft.Server.{
  Server, ServerState, leader, follower, candidate, current_term, on_timeout, send_vote_request,
  is_leader,
}
use x.Raft.Cluster.{
  Cluster, update, update_self, update_other, time_out, send_to_peers, execute_deferred_tasks,
}
use x.Raft.Cluster.Tally.{listed, occurs, All-listed}
use x.Raft.Cluster.Elected.{Elected, ended, final, elected}

-- A timeout of a server that does not lead.
starts : Server → Server × VoteRequest
starts s = send_vote_request (record s { state = candidate })

is_leader-false : (st : ServerState) → st ≢ leader → is_leader st ≡ false
unfolding is_leader
is_leader-false follower h = refl
is_leader-false candidate h = refl
is_leader-false leader h = absurd (h refl)

time_out-starts :
    (cl : Cluster) (i : ℕ)
    → cl.tasks ≡ []
    → (cl.server i).state ≢ leader
    → time_out cl i ≡ record {
      members = cl.members;
      server = update cl.server i (starts (cl.server i)).0;
      tasks = send_to_peers (cl.server i).id (starts (cl.server i)).1 cl.members;
    }
unfolding time_out on_timeout starts
time_out-starts cl i quiet h = rw (is_leader-false (cl.server i).state h) (rw quiet refl)

starts_lem :
    (s : Server)
    → current_term s + 1 < 2 ^ 64
    → ((starts s).0.state ≡ candidate)
      × ((starts s).0.votes_granted ≡ 0)
      × (current_term (starts s).0 ≡ current_term s + 1)
      × ((starts s).1.term ≡ current_term s + 1)
unfolding starts send_vote_request
starts_lem s bound = (refl, refl, omega arith, omega arith)

starts-candidate_id : (s : Server) → (starts s).1.candidate_id ≡ s.id
unfolding starts send_vote_request
starts-candidate_id s = refl

-- In a quiet cluster of at least three members, none listed twice, a member times out that does not
-- lead and whose term no other member is ahead of (its next term below 2^64). When the executor has
-- run the tasks that come of it, the first in the queue first, and twice as many as there are
-- members are enough, then no task is left, that member leads in the next term, and every other
-- member is a follower in that term which voted for it.
pub time_out-elects :
    (cl : Cluster) (i rounds : ℕ)
    → cl.tasks ≡ []
    → ((j : ℕ) → occurs j cl.members ≤ 1)
    → 3 ≤ length cl.members
    → listed i cl.members ≡ true
    → (cl.server i).id ≡ i
    → (cl.server i).state ≢ leader
    → current_term (cl.server i) + 1 < 2 ^ 64
    → ((j : ℕ)
        → listed j cl.members ≡ true
        → current_term (cl.server j) ≤ current_term (cl.server i))
    → 2 * length cl.members ≤ rounds
    → (dl : Cluster) × (execute_deferred_tasks rounds (time_out cl i) ≡ dl)
      × Elected cl.members i (current_term (cl.server i) + 1) dl
unfolding final
time_out-elects cl i rounds quiet distinct three there id apart bound first enough =
    let s = cl.server i in
    let req = (starts s).1 in
    let f = update cl.server i (starts s).0 in
    let (runs, none_yet, now, asks) = starts_lem s bound in
    let own : req.candidate_id ≡ i = starts-candidate_id s ∙ id in
    let self = ap f own ∙ update_self cl.server i (starts s).0 in
    let behind : (j : ℕ)
        → listed j cl.members ≡ true
        → (j == req.candidate_id) ≡ false
        → current_term (f j) < req.term =
      λ j member other.
        rw (update_other cl.server i (starts s).0 j (subst (λ k. (j == k) ≡ false) own other))
          (omega (arith, first j member, asks)) in
    let older =
      All-map cl.members (λ m h p. behind m h (ground (arith, ==_iff m req.candidate_id, p)))
        (All-listed cl.members) in
    let member = subst (λ k. listed k cl.members ≡ true) (sym own) there in
    (
      final cl.members req f rounds distinct member older enough,
      ap (execute_deferred_tasks rounds) (time_out-starts cl i quiet apart)
          ∙ ap
              (λ (k : ℕ). execute_deferred_tasks rounds (record {
                members = cl.members;
                server = f;
                tasks = send_to_peers k req cl.members;
              }))
              (sym (starts-candidate_id s))
          ∙ ended cl.members req f rounds distinct member older enough,
      subst
          (λ k.
            Elected cl.members k (current_term s + 1)
              (final cl.members req f rounds distinct member older enough))
          own
          (rw (← asks) (
            elected cl.members req f rounds distinct member older enough
              (ap (λ (t : Server). t.state) self ∙ runs)
              (ap (λ (t : Server). t.votes_granted) self ∙ none_yet) three
              (ap (λ (t : Server). current_term t) self ∙ now ∙ sym asks) behind)),
    )
