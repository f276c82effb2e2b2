-- ===== src/Tests/Tokens.antt =====
-- A tree of three nodes that share ten tokens.
use x.Base.{ℕ, ◌+◌, ◌≤◌, ◌≡◌, refl, arith, List, [], ◌∷◌, ◌++◌, All, some}
use x.Shaper.{Bucket, Node, Nodes, Frame, node, nil, cons, root_node, get, put}
use x.Shaper.Sums.{sum_actual}
use x.Shaper.Valid.{assured, reserved_all, IsValid}
use x.Shaper.Runs.{Run, start, next, gets, IsIdle, Run-load}
use x.Shaper.Queue.{Waiting, QueueItem, update_queue_timer, dequeue_front}
use x.Shaper.Queue.Order as Order
use x.Shaper.Queue.Order.{tokens, Run-Moves}
use x.Shaper.Queue.Timeouts.{IsOld, IsTimed, update_queue_timer_lem}
use x.Shaper.Puts.{put-get}

-- The root has ten tokens; `vip` is sure of a tenth of them and may have three, `main` of half of them
-- and may have seven.
abbrev top : Bucket
top = record { rate = 10; ceil = 10; actual_rate = 0 }

abbrev vip : Node
vip = node (record { rate = 1; ceil = 3; actual_rate = 0 }) nil

abbrev pub main_bucket : Bucket
main_bucket = record { rate = 5; ceil = 7; actual_rate = 0 }

abbrev idle_tree : Node
idle_tree = node top (cons vip (cons (node main_bucket nil) nil))

abbrev from_main : Frame
from_main = record { parent = top; before = cons vip nil; after = nil }

idle_tree-IsIdle : IsIdle idle_tree
unfolding reserved_all
idle_tree-IsIdle = omega arith

abbrev has : ℕ → Bucket → Bucket
has n b = record b { actual_rate = n }

abbrev tree : ℕ → ℕ → Node
tree n m = node (has n top) (cons vip (cons (node (has m main_bucket) nil) nil))

-- The root takes all ten tokens, and `main` takes the five that it is sure of as well.
overloaded : Run idle_tree (tree 15 5)
unfolding get root_node
overloaded =
    next
      (next
        (next (next start (gets 4 idle_tree [] (tree 4 0) [] (omega arith) refl refl refl))
          (gets 4 (tree 4 0) [] (tree 8 0) [] (omega arith) refl refl refl))
        (gets 2 (tree 8 0) [] (tree 10 0) [] (omega arith) refl refl refl))
      (gets 5 (node main_bucket nil) (record from_main { parent = has 10 top } ∷ [])
        (node (has 5 main_bucket) nil) (record from_main { parent = has 15 top } ∷ []) (omega arith)
        refl refl refl)

abbrev main_and_vip : Nodes
main_and_vip = cons vip (cons (node (has 5 main_bucket) nil) nil)

Run-load_example : (sum_actual main_and_vip ≤ 15) × (15 ≤ 10 + reserved_all main_and_vip)
unfolding root_node
Run-load_example = Run-load (has 15 top) main_and_vip [] idle_tree-IsIdle overloaded refl

-- `main` is served though the root has no tokens left.
abbrev pub above_main : Frame
above_main = record from_main { parent = has 10 top }

pub crowded-IsValid : IsValid (root_node (node main_bucket nil) (above_main ∷ []))
unfolding root_node sum_actual assured reserved_all
crowded-IsValid = omega arith

put-get_example :
    put 5 (node (has 5 main_bucket) nil) (record from_main { parent = has 15 top } ∷ [])
    ≡ some (node main_bucket nil, above_main ∷ [])
unfolding get
put-get_example =
    put-get 5 (node main_bucket nil) (above_main ∷ []) (node (has 5 main_bucket) nil)
      (record from_main { parent = has 15 top } ∷ []) (omega arith) crowded-IsValid refl

-- Two packets wait; at 70 the first has waited for 60, which is too long, and the second for 20.
abbrev second : QueueItem
second = record { token = 8; ctime = 50 }

abbrev pub waits : Waiting
waits = record {
  queue = record { token = 7; ctime = 10 } ∷ second ∷ [];
  queued = 2;
  dropped = 0;
  queue_timeout = 50;
}

abbrev waits_later : Waiting
waits_later = record waits { queue = second ∷ []; queued = 1; dropped = 1 }

Run-Moves_example :
    (7 ∷ 8 ∷ tokens (record waits_later { queue = []; queued = 0 }).queue
      ≡ tokens waits.queue ++ [])
    × Order.IsCounted (record waits_later { queue = []; queued = 0 })
unfolding update_queue_timer dequeue_front
Run-Moves_example =
    Run-Moves {w = waits} (omega arith)
      (Order.next (Order.next Order.start (Order.fired 70)) (Order.dequeued 8 refl))

update_queue_timer_lem_example :
    (old : List QueueItem) × (waits.queue ≡ old ++ (update_queue_timer 70 waits).0.queue)
    × ((update_queue_timer 70 waits).1 ≡ tokens old)
    × All (IsOld 70 50) old
    × IsTimed 70 50 (update_queue_timer 70 waits).0.queue (update_queue_timer 70 waits).2
update_queue_timer_lem_example = update_queue_timer_lem 70 waits
