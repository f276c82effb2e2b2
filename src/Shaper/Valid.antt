-- ===== src/Shaper/Valid.antt =====
-- xzero/TokenShaper-inl.h: what holds of every tree of nodes.
use x.Base.{ℕ, ◌+◌, ◌^◌, ◌≤◌, ◌<◌, ◌≡◌, refl, arith, List, [], ◌∷◌, min}
use x.Shaper.{
  Bucket, Node, Nodes, node, nil, cons, bucket, Frame, insert_child, parent_node, root_node,
}
use x.Shaper.Sums.{sum_actual, sum_rate}

-- The tokens of a node that no other node lent to it: those of its own rate, and those that the nodes
-- below it have in this way.
unfoldable mutual
  pub assured : Node → ℕ
  assured (node b cs) = min b.actual_rate (b.rate + assured_all cs)

  pub assured_all : Nodes → ℕ
  assured_all nil = 0
  assured_all (cons c cs) = assured c + assured_all cs

-- The rates of all nodes below.
unfoldable mutual
  pub reserved : Node → ℕ
  reserved (node b cs) = b.rate + reserved_all cs

  pub reserved_all : Nodes → ℕ
  reserved_all nil = 0
  reserved_all (cons c cs) = reserved c + reserved_all cs

-- A node has counted the tokens of its children, and no more tokens than its ceiling and those that
-- the nodes below have by their own rates. The limits together stay below 2^62.
pub record Fits (b : Bucket) (cs : Nodes) : Type 0 where
  pub counted : sum_actual cs ≤ b.actual_rate
  pub within : b.actual_rate ≤ b.ceil + assured_all cs
  pub rate_ceil : b.rate ≤ b.ceil
  pub small : b.ceil + reserved_all cs < 2 ^ 62

abbrev mutual
  pub IsValid : Node → Type 0
  IsValid (node b cs) = Fits b cs × AllValid cs

  pub AllValid : Nodes → Type 0
  AllValid nil = Unit
  AllValid (cons c cs) = IsValid c × AllValid cs

-- The same of the nodes on the way up from a child.
abbrev pub ValidAbove : Node → List Frame → Type 0
ValidAbove c [] = Unit
ValidAbove c (f ∷ fs) =
    Fits f.parent (insert_child f.before c f.after)
    × AllValid f.before
    × AllValid f.after
    × ValidAbove (parent_node c f) fs

mutual
  unfolding assured assured_all reserved reserved_all

  assured-le-reserved : (c : Node) → assured c ≤ reserved c
  assured-le-reserved (node b cs) = omega (arith, assured_all-le cs)

  pub assured_all-le : (cs : Nodes) → assured_all cs ≤ reserved_all cs
  assured_all-le nil = omega arith
  assured_all-le (cons c cs) = omega (arith, assured-le-reserved c, assured_all-le cs)

pub sum_rate-le : (cs : Nodes) → sum_rate cs ≤ reserved_all cs
unfolding sum_rate reserved reserved_all
sum_rate-le nil = omega arith
sum_rate-le (cons (node b ds) cs) = omega (arith, sum_rate-le cs)

module _ (c : Node) where
  pub sum_actual-insert :
      (before after : Nodes)
      → sum_actual (insert_child before c after)
        ≡ sum_actual before + (bucket c).actual_rate + sum_actual after
  unfolding sum_actual insert_child
  sum_actual-insert nil after = omega arith
  sum_actual-insert (cons b before) after = omega (arith, sum_actual-insert before after)

  pub assured_all-insert :
      (before after : Nodes)
      → assured_all (insert_child before c after)
        ≡ assured_all before + assured c + assured_all after
  unfolding assured_all insert_child
  assured_all-insert nil after = omega arith
  assured_all-insert (cons b before) after = omega (arith, assured_all-insert before after)

  pub reserved_all-insert :
      (before after : Nodes)
      → reserved_all (insert_child before c after)
        ≡ reserved_all before + reserved c + reserved_all after
  unfolding reserved_all insert_child
  reserved_all-insert nil after = omega arith
  reserved_all-insert (cons b before) after = omega (arith, reserved_all-insert before after)

  pub AllValid-insert :
      (before after : Nodes)
      → AllValid before
      → IsValid c
      → AllValid after
      → AllValid (insert_child before c after)
  unfolding insert_child
  AllValid-insert nil after p q r = (q, r)
  AllValid-insert (cons b before) after (h, p) q r = (h, AllValid-insert before after p q r)

  AllValid-take_out :
      (before after : Nodes)
      → AllValid (insert_child before c after)
      → AllValid before × IsValid c × AllValid after
  unfolding insert_child
  AllValid-take_out nil after (q, r) = (tt, q, r)
  AllValid-take_out (cons b before) after (h, all) =
      let (p, q, r) = AllValid-take_out before after all in ((h, p), q, r)

-- A tree is valid if a node of it is, and those above it are, with their other children.
pub root_node-IsValid :
    (c : Node) (fs : List Frame) → IsValid c → ValidAbove c fs → IsValid (root_node c fs)
unfolding root_node parent_node
root_node-IsValid c [] v above = v
root_node-IsValid c (f ∷ fs) v (fits, p, r, above) =
    root_node-IsValid (parent_node c f) fs (fits, AllValid-insert c f.before f.after p v r) above

pub IsValid-root_node :
    (c : Node) (fs : List Frame) → IsValid (root_node c fs) → IsValid c × ValidAbove c fs
unfolding root_node parent_node
IsValid-root_node c [] v = (v, tt)
IsValid-root_node c (f ∷ fs) v =
    let ((fits, all), above) = IsValid-root_node (parent_node c f) fs v in
    let (p, q, r) = AllValid-take_out c f.before f.after all in (q, (fits, p, r, above))

-- What is above a node sees of it these four things alone, and more assured tokens do no harm.
pub ValidAbove-more :
    (c d : Node) (fs : List Frame)
    → (bucket d).actual_rate ≡ (bucket c).actual_rate
    → reserved d ≡ reserved c
    → assured c ≤ assured d
    → ValidAbove c fs
    → ValidAbove d fs
unfolding parent_node assured reserved
ValidAbove-more c d [] actual same more above = tt
ValidAbove-more c d (f ∷ fs) actual same more (fits, p, r, above) =
    let a = sum_actual-insert c f.before f.after in
    let b = sum_actual-insert d f.before f.after in
    let k = assured_all-insert c f.before f.after in
    let l = assured_all-insert d f.before f.after in
    let m = reserved_all-insert c f.before f.after in
    let n = reserved_all-insert d f.before f.after in
    (
      record {
        counted = omega (arith, fits.counted, a, b, actual);
        within = omega (arith, fits.within, k, l, more);
        rate_ceil = fits.rate_ceil;
        small = omega (arith, fits.small, m, n, same);
      },
      p,
      r,
      ValidAbove-more (parent_node c f) (parent_node d f) fs refl (omega (arith, m, n, same))
          (omega (arith, k, l, more)) above,
    )
