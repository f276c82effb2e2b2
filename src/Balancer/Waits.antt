-- ===== src/Balancer/Waits.antt =====
-- xzero/http/client/HttpCluster.cc: what becomes of a request that no backend took, and of the queue.
use x.Base.{
  ℕ, suc, All, Option, ◌+◌, ◌%◌, ◌^◌, ◌≡◌, refl, ◌++◌, [], ◌∷◌, length, append-nil, append_assoc,
  arith, Bool, true, false, not, List, ltb, if◌then◌else◌, some, Bool-cases, inl, inr, sym, ◌∙◌,
  ◌≢◌, ap,
}
use x.Shaper.{Node, Frame, get}
use x.Shaper.Queue.{QueueItem, enqueue}
use x.Shaper.Queue.Order.{tokens}
use x.Shaper.Queue.Timeouts.{IsOld, IsTimed, packet, enqueue_lem}
use x.Balancer.Gives.{Given}
use x.Balancer.{
  Status, success, unavailable, overloaded, HttpCluster, Member, on_queue_timeout,
  on_queue_timeouts, Outcome, served, enqueued, refused, service_unavailable, enqueue_request,
  not_taken,
}

-- The tokens of the tree: a request that is served has one, got at its bucket, and no other has.
abbrev pub Takes : Node → List Frame → Outcome → Node → List Frame → Type 0
Takes c fs served d gs = get 1 c fs ≡ some (d, gs)
Takes c fs enqueued d gs = (d ≡ c) × (gs ≡ fs)
Takes c fs refused d gs = (d ≡ c) × (gs ≡ fs)

-- The backends, the queue and the counters of the cluster, for a request `cr` that comes at `now`. Where
-- it waits, the requests in front of the queue, perhaps `cr` itself, that `later` have waited as long as
-- the timeout says are posted their answers and no longer counted as queued; the next one has time left.
abbrev pub Counts : ℕ → ℕ → ℕ → HttpCluster → Outcome → HttpCluster → Type 0
Counts cr now later cl served cl' =
    Given cl.members success cl'.members
    × (cl'.queued ≡ cl.queued)
    × (cl'.dropped ≡ cl.dropped)
    × (cl'.waiting ≡ cl.waiting)
    × (cl'.posted ≡ cl.posted)
Counts cr now later cl enqueued cl' =
    (cl'.members ≡ cl.members)
    × (cl'.dropped ≡ cl.dropped)
    × (old : List QueueItem) × (timer : Option ℕ) × (cl.waiting.queue ++ packet cr now ∷ []
        ≡ old ++ cl'.waiting.queue)
    × All (IsOld later cl.waiting.queue_timeout) old
    × IsTimed later cl.waiting.queue_timeout cl'.waiting.queue timer
    × (cl'.posted ≡ cl.posted ++ tokens old)
    × ((cl'.queued + length old) % 2 ^ 64 ≡ (cl.queued + 1) % 2 ^ 64)
Counts cr now later cl refused cl' =
    (cl'.members ≡ cl.members)
    × (cl'.queued ≡ cl.queued)
    × (cl'.dropped ≡ (cl.dropped + 1) % 2 ^ 64)
    × (cl'.waiting ≡ cl.waiting)
    × (cl'.posted ≡ cl.posted)

length-tokens : (items : List QueueItem) → length (tokens items) ≡ length items
length-tokens [] = refl
length-tokens (item ∷ items) = ap suc (length-tokens items)

on_queue_timeouts-keeps :
    (crs : List ℕ) (cl : HttpCluster)
    → ((on_queue_timeouts crs cl).members ≡ cl.members)
      × ((on_queue_timeouts crs cl).dropped ≡ cl.dropped)
      × ((on_queue_timeouts crs cl).waiting ≡ cl.waiting)
unfolding on_queue_timeouts
on_queue_timeouts-keeps [] cl = (refl, refl, refl)
on_queue_timeouts-keeps (cr ∷ crs) cl = on_queue_timeouts-keeps crs (on_queue_timeout cr cl)

on_queue_timeouts-posted :
    (crs : List ℕ) (cl : HttpCluster) → (on_queue_timeouts crs cl).posted ≡ cl.posted ++ crs
unfolding on_queue_timeouts
on_queue_timeouts-posted [] cl = sym (append-nil cl.posted)
on_queue_timeouts-posted (cr ∷ crs) cl =
    on_queue_timeouts-posted crs (on_queue_timeout cr cl) ∙ append_assoc cl.posted (cr ∷ []) crs

on_queue_timeouts-queued :
    (crs : List ℕ) (cl : HttpCluster)
    → ((on_queue_timeouts crs cl).queued + length crs) % 2 ^ 64 ≡ cl.queued % 2 ^ 64
unfolding on_queue_timeouts
on_queue_timeouts-queued [] cl = omega arith
on_queue_timeouts-queued (cr ∷ crs) cl =
    omega (arith, on_queue_timeouts-queued crs (on_queue_timeout cr cl))

-- A request that nobody took leaves the tokens alone.
abbrev pub Waits : ℕ → ℕ → ℕ → HttpCluster → Node → List Frame → HttpCluster × Outcome → Type 0
Waits cr now later cl c fs r = (r.1 ≢ served) × Takes c fs r.1 c fs × Counts cr now later cl r.1 r.0

pub unavailable_not : unavailable ≢ success
unavailable_not e = cc

pub overloaded_not : overloaded ≢ success
overloaded_not e = cc

refused_not : refused ≢ served
refused_not e = cc

enqueued_not : enqueued ≢ served
enqueued_not e = cc

module _ (cr now later : ℕ) (cl : HttpCluster) (c : Node) (fs : List Frame) (ms : List Member)
    (next : ℕ) (same : ms ≡ cl.members) where
  abbrev tried : HttpCluster
  tried = record cl { members = ms; next = next }

  pub service_unavailable-Waits : Waits cr now later cl c fs (service_unavailable tried)
  unfolding service_unavailable
  service_unavailable-Waits = (refused_not, (refl, refl), (same, refl, refl, refl, refl))

  pub enqueue_request-Waits : Waits cr now later cl c fs (enqueue_request cr now later tried)
  unfolding enqueue_request
  enqueue_request-Waits = elim (Bool-cases (ltb cl.waiting.queued cl.queue_limit)) [
    | inl room ↦
        let r = enqueue cr now later cl.waiting in
        let before = record tried { waiting = r.0 } in
        let (members, dropped, waiting) = on_queue_timeouts-keeps r.1 before in
        let (old, split, handed, all_old, timed) = enqueue_lem cr now later cl.waiting in
        let number : length r.1 ≡ length old = ap length handed ∙ length-tokens old in
        rw room (
          enqueued_not,
          (refl, refl),
          (
            members ∙ same,
            dropped,
            old,
            r.2,
            rw waiting split,
            all_old,
            rw waiting timed,
            on_queue_timeouts-posted r.1 before ∙ ap (λ (l : List ℕ). cl.posted ++ l) handed,
            omega (arith, on_queue_timeouts-queued r.1 before, number),
          ),
        )
    | inr full ↦ rw full service_unavailable-Waits
  ]

  pub not_taken-Waits : (s : Status) → Waits cr now later cl c fs (not_taken cr now later s tried)
  unfolding not_taken
  not_taken-Waits unavailable =
      elim cl.enqueue_on_unavailable
        as (λ (b : Bool).
          Waits cr now later cl c fs
            (if not b then service_unavailable tried else enqueue_request cr now later tried)) [
              | true ↦ enqueue_request-Waits
              | false ↦ service_unavailable-Waits
            ]
  not_taken-Waits success = enqueue_request-Waits
  not_taken-Waits overloaded = enqueue_request-Waits
