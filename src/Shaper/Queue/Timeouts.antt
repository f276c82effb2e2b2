-- ===== src/Shaper/Queue/Timeouts.antt =====
-- xzero/TokenShaper-inl.h `updateQueueTimer`: which packets time out, and what the timer is set to.
use x.Base.{
  ℕ, ◌+◌, ◌%◌, ◌^◌, ◌≤◌, ◌<◌, ◌≡◌, refl, arith, List, [], ◌∷◌, ◌++◌, All, ltb, if◌then◌else◌,
  Option, none, some, Bool-cases, inl, inr, ap, ltb→lt, ltb-false→ge,
}
use x.Shaper.Queue.{
  QueueItem, Waiting, distance, drop_timed_out, timer_for, update_queue_timer, enqueue,
}
use x.Shaper.Queue.Order.{tokens}

-- A packet has waited as long as the timeout says.
abbrev pub IsOld : ℕ → ℕ → QueueItem → Type 0
IsOld now timeout item = timeout ≤ distance now item.ctime

-- The timer is set to the time that the packet in front has left, if there is one.
abbrev pub IsTimed : ℕ → ℕ → List QueueItem → Option ℕ → Type 0
IsTimed now timeout [] timer = timer ≡ none
IsTimed now timeout (front ∷ rest) timer =
    (ttl : ℕ) × (timer ≡ some ttl) × (0 < ttl) × (distance now front.ctime + ttl ≡ timeout)

-- What the loop takes from the queue.
old_items : ℕ → ℕ → List QueueItem → List QueueItem
old_items now timeout [] = []
old_items now timeout (front ∷ rest) =
    let more = old_items now timeout rest in
    if ltb (distance now front.ctime) timeout then [] else front ∷ more

distance-gt : (a b : ℕ) → a < b → (0 < distance b a) × (a + distance b a ≡ b)
unfolding distance
distance-gt a b h = ground (arith, h)

module _ (now : ℕ) where
  drop_timed_out_lem :
      (items : List QueueItem) (w : Waiting)
      → (items ≡ old_items now w.queue_timeout items ++ (drop_timed_out now items w).0.queue)
        × ((drop_timed_out now items w).1 ≡ tokens (old_items now w.queue_timeout items))
        × ((drop_timed_out now items w).0.queue_timeout ≡ w.queue_timeout)
  unfolding drop_timed_out old_items
  drop_timed_out_lem [] w = (refl, refl, refl)
  drop_timed_out_lem (front ∷ rest) w =
      elim (Bool-cases (ltb (distance now front.ctime) w.queue_timeout)) [
        | inl young ↦ rw young (refl, refl, refl)
        | inr old ↦
            (let (split, handed, same) = drop_timed_out_lem rest _ in
              rw old (ap (◌∷◌ front) split, ap (◌∷◌ front.token) handed, same))
      ]

  All-old_items :
      (timeout : ℕ) (items : List QueueItem) → All (IsOld now timeout) (old_items now timeout items)
  unfolding old_items
  All-old_items timeout [] = tt
  All-old_items timeout (front ∷ rest) =
      elim (Bool-cases (ltb (distance now front.ctime) timeout)) [
        | inl young ↦ rw young tt
        | inr old ↦
            rw old (ltb-false→ge (distance now front.ctime) timeout old, All-old_items timeout rest)
      ]

  timer_for-IsTimed :
      (items : List QueueItem) (w : Waiting)
      → IsTimed now w.queue_timeout
          (drop_timed_out now items w).0.queue
          (timer_for now w.queue_timeout (drop_timed_out now items w).0.queue)
  unfolding drop_timed_out timer_for
  timer_for-IsTimed [] w = refl
  timer_for-IsTimed (front ∷ rest) w =
      elim (Bool-cases (ltb (distance now front.ctime) w.queue_timeout)) [
        | inl young ↦
            (let age = distance now front.ctime in
              let (left, whole) =
                distance-gt age w.queue_timeout (ltb→lt age w.queue_timeout young) in
              rw young (distance w.queue_timeout age, refl, left, whole))
        | inr old ↦ rw old (timer_for-IsTimed rest _)
      ]

-- `updateQueueTimer` takes from the front of the queue packets that have waited as long as the timeout
-- says, and hands exactly these to the handler, in their order. It stops at an empty queue, and sets no
-- timer then, or at a packet that has not waited as long, and sets the timer to what is left of its
-- time, which is not zero.
pub update_queue_timer_lem :
    (now : ℕ) (w : Waiting)
    → (old : List QueueItem) × (w.queue ≡ old ++ (update_queue_timer now w).0.queue)
      × ((update_queue_timer now w).1 ≡ tokens old)
      × All (IsOld now w.queue_timeout) old
      × IsTimed now w.queue_timeout (update_queue_timer now w).0.queue (update_queue_timer now w).2
unfolding update_queue_timer
update_queue_timer_lem now w =
    let (split, handed, _) = drop_timed_out_lem now w.queue w in
    (
      old_items now w.queue_timeout w.queue,
      split,
      handed,
      All-old_items now w.queue_timeout w.queue,
      timer_for-IsTimed now w.queue w,
    )

-- A packet that came at a time.
abbrev pub packet : ℕ → ℕ → QueueItem
packet value now = record { token = value; ctime = now }

-- The same of `enqueue`, where the packet is put behind the others before.
pub enqueue_lem :
    (value now later : ℕ) (w : Waiting)
    → (old : List QueueItem) × (w.queue ++ packet value now ∷ []
        ≡ old ++ (enqueue value now later w).0.queue)
      × ((enqueue value now later w).1 ≡ tokens old)
      × All (IsOld later w.queue_timeout) old
      × IsTimed later w.queue_timeout
          (enqueue value now later w).0.queue
          (enqueue value now later w).2
unfolding enqueue
enqueue_lem value now later w =
    update_queue_timer_lem later
      (record w { queue = w.queue ++ packet value now ∷ []; queued = (w.queued + 1) % 2 ^ 64 })
