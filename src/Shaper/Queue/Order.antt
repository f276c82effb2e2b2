-- ===== src/Shaper/Queue/Order.antt =====
-- xzero/TokenShaper-inl.h: packets leave a queue in the order in which they came, and none is lost.
use mathlib.Core.List.{map-append}
use x.Base.{
  ℕ, suc, ◌+◌, ◌-◌, ◌%◌, ◌^◌, ◌<◌, ◌≡◌, refl, arith, List, [], ◌∷◌, ◌++◌, map, length, ltb, some,
  Bool-cases, inl, inr, ap, sym, ◌∙◌, append_assoc, append-nil,
}
use x.Shaper.Queue.{
  QueueItem, Waiting, distance, drop_timed_out, update_queue_timer, enqueue, dequeue_front,
}

abbrev pub tokens : List QueueItem → List ℕ
tokens items = map (λ (item : QueueItem). item.token) items

-- The counter of a queue is right.
abbrev pub IsCounted : Waiting → Type 0
IsCounted w = (w.queued ≡ length w.queue) × (length w.queue < 2 ^ 64)

-- What the loop hands to the handler, and what it leaves, is the queue.
drop_timed_out-tokens :
    (now : ℕ) (items : List QueueItem) (w : Waiting)
    → (drop_timed_out now items w).1 ++ tokens (drop_timed_out now items w).0.queue ≡ tokens items
unfolding drop_timed_out
drop_timed_out-tokens now [] w = refl
drop_timed_out-tokens now (front ∷ rest) w =
    elim (Bool-cases (ltb (distance now front.ctime) w.queue_timeout)) [
      | inl young ↦ rw young refl
      | inr old ↦ rw old (ap (◌∷◌ front.token) (drop_timed_out-tokens now rest _))
    ]

-- What `enqueue` hands to the handler, and what it leaves, is the queue with the packet at its end.
enqueue-tokens :
    (value now later : ℕ) (w : Waiting)
    → (enqueue value now later w).1 ++ tokens (enqueue value now later w).0.queue
      ≡ tokens w.queue ++ value ∷ []
unfolding enqueue update_queue_timer
enqueue-tokens value now later w =
    let item : QueueItem = record { token = value; ctime = now } in
    let queue = w.queue ++ item ∷ [] in
    drop_timed_out-tokens later queue (record w { queue = queue; queued = (w.queued + 1) % 2 ^ 64 })
    ∙ map-append (λ (i : QueueItem). i.token) w.queue (item ∷ [])

drop_timed_out-IsCounted :
    (now : ℕ) (items : List QueueItem) (w : Waiting)
    → w.queued ≡ length items
    → length items < 2 ^ 64
    → IsCounted (drop_timed_out now items w).0
unfolding drop_timed_out
drop_timed_out-IsCounted now [] w h small = (h, small)
drop_timed_out-IsCounted now (front ∷ rest) w h small =
    elim (Bool-cases (ltb (distance now front.ctime) w.queue_timeout)) [
      | inl young ↦ rw young (h, small)
      | inr old ↦ rw old (drop_timed_out-IsCounted now rest _ (omega (arith, h)) (omega arith))
    ]

-- What happens to a queue, with the tokens that come and those that leave it: a packet is put in, the
-- timer fires, or the front is taken. At most 2^64 - 1 packets wait.
pub data Step (w : Waiting) : Waiting → List ℕ → List ℕ → Type 0 where
  enqueued :
      (value now later : ℕ)
      → length w.queue + 1 < 2 ^ 64
      → Step w (enqueue value now later w).0 (value ∷ []) (enqueue value now later w).1
  fired : (now : ℕ) → Step w (update_queue_timer now w).0 [] (update_queue_timer now w).1
  dequeued :
      (value : ℕ) {v : Waiting} → dequeue_front w ≡ some (value, v) → Step w v [] (value ∷ [])

pub data Run (w : Waiting) : Waiting → List ℕ → List ℕ → Type 0 where
  start : Run w w [] []
  next :
      {v u : Waiting} {came left new gone : List ℕ}
      → Run w v came left
      → Step v u new gone
      → Run w u (came ++ new) (left ++ gone)

length-snoc :
    (items : List QueueItem) (item : QueueItem) → length (items ++ item ∷ []) ≡ length items + 1
length-snoc [] item = omega arith
length-snoc (first ∷ items) item = omega (arith, length-snoc items item)

-- One event: what leaves and what is left is what was there and what came.
abbrev Moves : Waiting → Waiting → List ℕ → List ℕ → Type 0
Moves w v came gone = (gone ++ tokens v.queue ≡ tokens w.queue ++ came) × IsCounted v

update_queue_timer-Moves :
    (now : ℕ) (w : Waiting)
    → IsCounted w
    → Moves w (update_queue_timer now w).0 [] (update_queue_timer now w).1
unfolding update_queue_timer
update_queue_timer-Moves now w (count, small) = (
  drop_timed_out-tokens now w.queue w ∙ sym (append-nil (tokens w.queue)),
  drop_timed_out-IsCounted now w.queue w count small,
)

enqueue-Moves :
    (value now later : ℕ) (w : Waiting)
    → length w.queue + 1 < 2 ^ 64
    → IsCounted w
    → Moves w (enqueue value now later w).0 (value ∷ []) (enqueue value now later w).1
unfolding enqueue
enqueue-Moves value now later w room (count, small) =
    let item : QueueItem = record { token = value; ctime = now } in
    let v = record w { queue = w.queue ++ item ∷ []; queued = (w.queued + 1) % 2 ^ 64 } in
    let more = length-snoc w.queue item in
    (
      enqueue-tokens value now later w,
      drop_timed_out-IsCounted later v.queue v (omega (arith, more, count)) (omega (arith, more)),
    )

front-Moves :
    (w v : Waiting) (value : ℕ) (items : List QueueItem)
    → w.queue ≡ items
    → dequeue_front w ≡ some (value, v)
    → IsCounted w
    → Moves w v [] (value ∷ [])
unfolding dequeue_front
front-Moves w v value [] e h counted = absurd (ground (arith, e, h))
front-Moves w v value (item ∷ rest) e h (count, small) =
    let front : value ≡ item.token = ground (arith, e, h) in
    let back : v.queue ≡ rest = ground (arith, e, h) in
    let number : v.queued ≡ (w.queued + (2 ^ 64 - 1)) % 2 ^ 64 = ground (arith, e, h) in
    let long : length w.queue ≡ suc (length rest) = ap length e in
    (
      rw (e, front, back) (ap (◌∷◌ item.token) (sym (append-nil (tokens rest)))),
      rw back (omega (arith, number, long, count, small), omega (arith, long, small)),
    )

Step-Moves :
    {w v : Waiting} {came gone : List ℕ} → Step w v came gone → IsCounted w → Moves w v came gone
Step-Moves {w} (enqueued value now later room) c = enqueue-Moves value now later w room c
Step-Moves {w} (fired now) c = update_queue_timer-Moves now w c
Step-Moves {w} {v} (dequeued value h) c = front-Moves w v value w.queue refl h c

-- Whatever happens to a queue that counts its packets, in whatever order packets are put in, the timer
-- fires and packets are dequeued, at whatever times (fewer than 2^64 wait at a time): the packets that
-- left it, by a timeout or dequeued, and after them those that still wait are the packets that were
-- there at first and after them those that were put in, in the same order. The queue still counts its
-- packets.
pub Run-Moves :
    {w v : Waiting} {came left : List ℕ}
    → IsCounted w
    → Run w v came left
    → (left ++ tokens v.queue ≡ tokens w.queue ++ came) × IsCounted v
Run-Moves {w} c start = (sym (append-nil (tokens w.queue)), c)
Run-Moves {w} c
      (next {v = v} {u = u} {came = came} {left = left} {new = new} {gone = gone} run step) =
    let (order, counted) = Run-Moves c run in
    let (moved, counted') = Step-Moves step counted in
    (
      append_assoc left gone (tokens u.queue)
          ∙ ap (◌++◌ left) moved
          ∙ sym (append_assoc left (tokens v.queue) new)
          ∙ ap (λ (l : List ℕ). l ++ new) order
          ∙ append_assoc (tokens w.queue) came new,
      counted',
    )
