-- ===== src/Shaper.antt =====
-- src/xzero/TokenShaper.h and TokenShaper-inl.h: a tree of nodes that share the tokens of its root, and
-- the tokens that a node gets and gives back.
-- A node stands at a place in the tree: it, and the way up from it to the root. `parent_` is the
-- first step of that way. The names, the percentages, from which `rate_` and `ceil_` are computed in
-- floating point, and the statistics of the counters are not part of a node here.
pub mod Sums
pub mod Valid
pub mod Gets
pub mod Lends
pub mod Puts
pub mod Runs
pub mod Queue
use x.Base.{
  ℕ, zero, suc, ◌+◌, ◌-◌, ◌%◌, ◌^◌, Bool, true, false, ◌&&◌, List, [], ◌∷◌, ltb, leb, if◌then◌else◌,
  Option, none, some, not,
}

-- The fields of a `Node` that are numbers: `rate_`, `ceil_` and `actualRate_`.
pub record Bucket : Type 0 where
  pub rate : ℕ
  pub ceil : ℕ
  pub actual_rate : ℕ

mutual
  pub data Node : Type 0 where
    node : Bucket → Nodes → Node

  pub data Nodes : Type 0 where
    nil : Nodes
    cons : Node → Nodes → Nodes

abbrev pub bucket : Node → Bucket
bucket (node b children) = b

abbrev pub children : Node → Nodes
children (node b cs) = cs

-- `overRate`: the difference of two `size_t`, read as an `ssize_t`.
unfoldable pub over_rate : Bucket → ℕ
over_rate b =
    let diff = (b.actual_rate + (2 ^ 64 - b.rate)) % 2 ^ 64 in if ltb diff (2 ^ 63) then diff else 0

unfoldable pub child_rate : Nodes → ℕ
child_rate nil = 0
child_rate (cons c cs) = ((bucket c).rate + child_rate cs) % 2 ^ 64

unfoldable pub actual_child_rate : Nodes → ℕ
actual_child_rate nil = 0
actual_child_rate (cons c cs) = ((bucket c).actual_rate + actual_child_rate cs) % 2 ^ 64

unfoldable pub actual_child_over_rate : Nodes → ℕ
unfolding over_rate
actual_child_over_rate nil = 0
actual_child_over_rate (cons c cs) = (over_rate (bucket c) + actual_child_over_rate cs) % 2 ^ 64

-- One step of the way up: the parent, and its children before and after the one that we come from.
pub record Frame : Type 0 where
  pub parent : Bucket
  pub before : Nodes
  pub after : Nodes

-- The children of a parent, with `c` between those before and those after.
unfoldable pub insert_child : Nodes → Node → Nodes → Nodes
insert_child nil c after = cons c after
insert_child (cons b before) c after = cons b (insert_child before c after)

unfoldable pub parent_node : Node → Frame → Node
unfolding insert_child
parent_node c f = node f.parent (insert_child f.before c f.after)

-- The whole tree.
unfoldable pub root_node : Node → List Frame → Node
unfolding parent_node
root_node c [] = c
root_node c (f ∷ fs) = root_node (parent_node c f) fs

-- `actualRate_ += n` of a counter.
unfoldable pub increment : ℕ → Bucket → Bucket
increment n b = record b { actual_rate = (b.actual_rate + n) % 2 ^ 64 }

unfoldable pub decrement : ℕ → Bucket → Bucket
decrement n b = record b { actual_rate = (b.actual_rate + (2 ^ 64 - n)) % 2 ^ 64 }

-- `actualRate_` of a node, and of all nodes on the way up.
unfoldable pub increment_all : ℕ → List Frame → List Frame
unfolding increment
increment_all n [] = []
increment_all n (f ∷ fs) = record f { parent = increment n f.parent } ∷ increment_all n fs

unfoldable pub max : ℕ → ℕ → ℕ
max a b = if ltb a b then b else a

-- The first loop of `get`: are there tokens of the node's own? No other thread changes the counter
-- meanwhile, so that the loop runs once.
unfoldable pub is_assured : ℕ → Node → Bool
unfolding max child_rate actual_child_over_rate
is_assured n (node b cs) =
    leb ((max b.actual_rate ((child_rate cs + actual_child_over_rate cs) % 2 ^ 64) + n) % 2 ^ 64)
      b.rate

-- `get` of a positive number: the node and the way up afterwards, or `none` where it returns 0.
unfoldable pub get : ℕ → Node → List Frame → Option (Node × List Frame)
unfolding is_assured increment increment_all parent_node
get n (node b cs) [] = if is_assured n (node b cs) then some (node (increment n b) cs, []) else none
get n (node b cs) (f ∷ fs) =
    let borrowed = get n (parent_node (node b cs) f) fs in
    if is_assured n (node b cs)
    then some (node (increment n b) cs, increment_all n (f ∷ fs))
    else if leb ((b.actual_rate + n) % 2 ^ 64) b.ceil
    then elim borrowed [
      | some (p, gs) ↦ some (node (increment n b) cs, record f { parent = bucket p } ∷ gs)
      | none ↦ none
    ]
    else none

-- The assertions of `put` at one node.
unfoldable pub may_put : ℕ → Node → Bool
unfolding actual_child_rate
may_put n (node b cs) =
    leb n b.actual_rate && leb (actual_child_rate cs) ((b.actual_rate + (2 ^ 64 - n)) % 2 ^ 64)

-- The loop of `put` over the way up; the child is the one that has been decremented.
unfoldable pub put_above : ℕ → Node → List Frame → Option (List Frame)
unfolding may_put decrement parent_node
put_above n c [] = some []
put_above n c (f ∷ fs) =
    let p = parent_node c f in
    let above = put_above n (node (decrement n f.parent) (children p)) fs in
    if may_put n p
    then elim above [
      | some gs ↦ some (record f { parent = decrement n f.parent } ∷ gs)
      | none ↦ none
    ]
    else none

-- `put`; `none` where an assertion fails.
unfoldable pub put : ℕ → Node → List Frame → Option (Node × List Frame)
unfolding may_put decrement put_above
put n (node b cs) fs =
    let c = node (decrement n b) cs in
    if may_put n (node b cs)
    then elim (put_above n c fs) [ some gs ↦ some (c, gs) | none ↦ none ]
    else none
