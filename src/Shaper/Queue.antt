-- ===== src/Shaper/Queue.antt =====
-- xzero/TokenShaper-inl.h: the packets that wait at a node for tokens, and their timeouts.
-- Times are microseconds; `now` is what the clock shows at a call, and a node's queue is a list from its
-- front on. The executor's timer is the time after which it calls `updateQueueTimer` again.
pub mod Order
pub mod Timeouts
use x.Base.{
  ℕ, zero, suc, ◌+◌, ◌-◌, ◌%◌, ◌^◌, List, [], ◌∷◌, ◌++◌, ltb, if◌then◌else◌, Option, none, some,
}

pub record QueueItem : Type 0 where
  pub token : ℕ
  pub ctime : ℕ

-- The fields of a `Node` that are about its queue.
pub record Waiting : Type 0 where
  pub queue : List QueueItem
  pub queued : ℕ
  pub dropped : ℕ
  pub queue_timeout : ℕ

-- `MonotonicTime::operator-`: the distance.
unfoldable pub distance : ℕ → ℕ → ℕ
distance a b = if ltb b a then a - b else b - a

-- The loop of `updateQueueTimer` over the queue, and the tokens that it hands to `onTimeout_`.
unfoldable pub drop_timed_out : ℕ → List QueueItem → Waiting → Waiting × List ℕ
unfolding distance
drop_timed_out now [] w = (record w { queue = [] }, [])
drop_timed_out now (front ∷ rest) w =
    let r = drop_timed_out now rest (record w {
      queued = (w.queued + (2 ^ 64 - 1)) % 2 ^ 64;
      dropped = (w.dropped + 1) % 2 ^ 64;
    }) in
    if ltb (distance now front.ctime) w.queue_timeout
    then (record w { queue = front ∷ rest }, [])
    else (r.0, front.token ∷ r.1)

-- The time that the timer is set to.
unfoldable pub timer_for : ℕ → ℕ → List QueueItem → Option ℕ
unfolding distance
timer_for now timeout [] = none
timer_for now timeout (front ∷ rest) = some (distance timeout (distance now front.ctime))

-- `updateQueueTimer`.
unfoldable pub update_queue_timer : ℕ → Waiting → Waiting × List ℕ × Option ℕ
unfolding drop_timed_out timer_for
update_queue_timer now w =
    let r = drop_timed_out now w.queue w in (r.0, r.1, timer_for now w.queue_timeout (r.0).queue)

-- `enqueue`; the clock shows `now` when the item is made, and `later` in `updateQueueTimer`.
unfoldable pub enqueue : ℕ → ℕ → ℕ → Waiting → Waiting × List ℕ × Option ℕ
unfolding update_queue_timer
enqueue value now later w = update_queue_timer later (record w {
  queue = w.queue ++ record { token = value; ctime = now } ∷ [];
  queued = (w.queued + 1) % 2 ^ 64;
})

-- What `dequeue` does at a node whose children have nothing for it, once it got a token.
unfoldable pub dequeue_front : Waiting → Option (ℕ × Waiting)
dequeue_front w = elim w.queue [
  | [] ↦ none
  | item ∷ rest ↦
      some (item.token, record w { queue = rest; queued = (w.queued + (2 ^ 64 - 1)) % 2 ^ 64 })
]
