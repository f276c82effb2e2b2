-- ===== src/Balancer.antt =====
-- src/xzero/http/client: how HttpCluster.cc gives a request to a backend, with HttpClusterScheduler.cc,
-- the `tryProcess` of HttpClusterMember.cc, and a node of the token shaper.
-- `process` of a member always returns true, so the branch of `tryProcess` for a request that it did
-- not take is never run; what comes of the request is reported later, by other calls. The response 503
-- that `serviceUnavailable` writes is an outcome here. Of the request only its number is kept: a
-- backend and one token are recorded in it where the outcome is `served`, and neither where it is not.
pub mod Answers
pub mod Best
pub mod Rounds
pub mod Gives
pub mod Tokens
pub mod Waits
use x.Base.{
  ℕ, zero, suc, ◌+◌, ◌-◌, ◌%◌, ◌^◌, Bool, true, false, not, ◌&&◌, ◌||◌, List, [], ◌∷◌, ◌++◌, length,
  get_elem?, ltb, leb, ◌==◌, if◌then◌else◌, Option, none, some,
}
use x.Shaper.{Node, Frame, bucket, get, put}
use x.Shaper.Queue.{Waiting, enqueue}

pub data Status : Type 0 where
  success unavailable overloaded : Status

pub record Member : Type 0 where
  pub enabled : Bool
  pub is_online : Bool
  pub capacity : ℕ
  pub load : ℕ

-- `tryProcess`; a capacity of 0 is no limit.
unfoldable pub try_process : Member → Member × Status
try_process m =
    if not m.enabled
    then (m, unavailable)
    else if not m.is_online
    then (m, unavailable)
    else if ltb 0 m.capacity && leb m.capacity m.load
    then (m, overloaded)
    else (record m { load = (m.load + 1) % 2 ^ 64 }, success)

unfoldable pub set_member : List Member → ℕ → Member → List Member
set_member [] i m = []
set_member (k ∷ ms) zero m = m ∷ ms
set_member (k ∷ ms) (suc i) m = k ∷ set_member ms i m

-- `RoundRobin::schedule`: the members afterwards, `next_`, and the status.
pub record Scheduled : Type 0 where
  pub members : List Member
  pub next : ℕ
  pub status : Status

-- Its loop, with `left` rounds to go. The access is in range, since `limit` is the number of members.
unfoldable pub schedule_loop : ℕ → List Member → ℕ → ℕ → ℕ → Scheduled
unfolding try_process set_member
schedule_loop zero members limit next count = record {
  members = members;
  next = next;
  status = if count == limit then unavailable else overloaded;
}
schedule_loop (suc left) members limit next count =
    let i = if leb limit next then 0 else next in
    elim (get_elem? members i) [
      | none ↦ record { members = members; next = i; status = overloaded }
      | some m ↦ elim ((try_process m).1) [
        | success ↦ record {
          members = set_member members i (try_process m).0;
          next = i;
          status = success;
        }
        | unavailable ↦ schedule_loop left members limit (i + 1) (count + 1)
        | overloaded ↦ schedule_loop left members limit (i + 1) count
      ]
    ]

unfoldable pub round_robin : List Member → ℕ → Scheduled
unfolding schedule_loop
round_robin members next = schedule_loop (length members) members (length members) next 0

-- The part of `HttpCluster` that a request of one bucket meets: the bucket in the tree of the shaper,
-- with its queue, and the backends. `posted` holds the requests that timed out in the queue and whose
-- answer 504 an executor has yet to run: only that call counts them in `dropped_`.
pub record HttpCluster : Type 0 where
  pub enabled : Bool
  pub enqueue_on_unavailable : Bool
  pub queue_limit : ℕ
  pub members : List Member
  pub next : ℕ
  pub queued : ℕ
  pub dropped : ℕ
  pub waiting : Waiting
  pub posted : List ℕ

-- What becomes of a request: a backend has it, it waits, or it is answered with 503.
pub data Outcome : Type 0 where
  served enqueued refused : Outcome

unfoldable pub service_unavailable : HttpCluster → HttpCluster × Outcome
service_unavailable cl = (record cl { dropped = (cl.dropped + 1) % 2 ^ 64 }, refused)

-- `onTimeout`, which the queue calls for a request that it gives up.
unfoldable pub on_queue_timeout : ℕ → HttpCluster → HttpCluster
on_queue_timeout cr cl = record cl {
  queued = (cl.queued + (2 ^ 64 - 1)) % 2 ^ 64;
  posted = cl.posted ++ cr ∷ [];
}

-- Its calls for several requests, in turn.
unfoldable pub on_queue_timeouts : List ℕ → HttpCluster → HttpCluster
unfolding on_queue_timeout
on_queue_timeouts [] cl = cl
on_queue_timeouts (cr ∷ crs) cl = on_queue_timeouts crs (on_queue_timeout cr cl)

-- `HttpCluster::enqueue` of request `cr`, at a time that the clock shows twice. The queue of the bucket
-- gives up what has waited too long before `queued_` counts the request itself.
unfoldable pub enqueue_request : ℕ → ℕ → ℕ → HttpCluster → HttpCluster × Outcome
unfolding service_unavailable on_queue_timeouts
enqueue_request cr now later cl =
    let r = enqueue cr now later cl.waiting in
    let timed = on_queue_timeouts r.1 (record cl { waiting = r.0 }) in
    if ltb cl.waiting.queued cl.queue_limit
    then (record timed { queued = (timed.queued + 1) % 2 ^ 64 }, enqueued)
    else service_unavailable cl

-- What `schedule` does when the backends did not take the request.
unfoldable pub not_taken : ℕ → ℕ → ℕ → Status → HttpCluster → HttpCluster × Outcome
unfolding service_unavailable enqueue_request
not_taken cr now later unavailable cl =
    if not cl.enqueue_on_unavailable
    then service_unavailable cl
    else enqueue_request cr now later cl
not_taken cr now later status cl = enqueue_request cr now later cl

-- What `schedule` does with a token that was got at the bucket: the bucket at its place, the cluster,
-- and the outcome; `none` where an assertion of `put` fails.
unfoldable pub with_token :
    ℕ → ℕ → ℕ → HttpCluster → Node → List Frame → Option (Node × List Frame × HttpCluster × Outcome)
unfolding round_robin not_taken
with_token cr now later cl d gs =
    let s = round_robin cl.members cl.next in
    let tried = record cl { members = s.members; next = s.next } in
    elim s.status [
      | success ↦ some (d, gs, tried, served)
      | _ ↦ elim (put 1 d gs) [
        | some (e, hs) ↦ (let r = not_taken cr now later s.status tried in some (e, hs, r.0, r.1))
        | none ↦ none
      ]
    ]

-- Without a token; a bucket whose limit is no token takes no request.
unfoldable pub no_token : ℕ → ℕ → ℕ → HttpCluster → Node → HttpCluster × Outcome
unfolding service_unavailable enqueue_request
no_token cr now later cl c =
    if ltb 0 (bucket c).ceil || cl.enqueue_on_unavailable
    then enqueue_request cr now later cl
    else service_unavailable cl

-- `HttpCluster::schedule` at a bucket.
unfoldable pub schedule :
    ℕ → ℕ → ℕ → HttpCluster → Node → List Frame → Option (Node × List Frame × HttpCluster × Outcome)
unfolding service_unavailable no_token with_token
schedule cr now later cl c fs =
    if not cl.enabled
    then (let r = service_unavailable cl in some (c, fs, r.0, r.1))
    else elim (get 1 c fs) [
      | some (d, gs) ↦ with_token cr now later cl d gs
      | none ↦ (let r = no_token cr now later cl c in some (c, fs, r.0, r.1))
    ]
