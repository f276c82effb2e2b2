-- ===== src/Shaper/Puts.antt =====
-- xzero/TokenShaper-inl.h `put`: its assertions hold, the tree stays valid, and a `get` is undone.
use x.Base.{
  ℕ, ◌+◌, ◌-◌, ◌%◌, ◌^◌, ◌≤◌, ◌<◌, ◌≡◌, refl, arith, true, ◌&&◌, List, [], ◌∷◌, leb, some, sym, ◌∙◌,
  ap, inl, inr, Bool-cases, some-eq,
}
use x.Shaper.{
  Bucket, Node, Nodes, node, bucket, Frame, insert_child, parent_node, root_node, increment,
  increment_all, decrement, may_put, put_above, put, get, actual_child_rate,
}
use x.Shaper.Sums.{sum_actual, actual_child_rate-sum}
use x.Shaper.Valid.{
  assured, reserved, sum_actual-insert, assured_all-insert, reserved_all-insert, Fits, IsValid,
  ValidAbove, root_node-IsValid, IsValid-root_node,
}
use x.Shaper.Gets.{Fits-lt, increment_lem, get_lem}
use x.Shaper.Lends.{get-IsValid}

unfoldable pub decrement_all : ℕ → List Frame → List Frame
unfolding decrement
decrement_all n [] = []
decrement_all n (f ∷ fs) = record f { parent = decrement n f.parent } ∷ decrement_all n fs

decrement_lem :
    (n : ℕ) (b : Bucket)
    → n ≤ b.actual_rate
    → b.actual_rate < 2 ^ 64
    → (decrement n b).actual_rate + n ≡ b.actual_rate
unfolding decrement
decrement_lem n b h k = omega arith

decrement-increment :
    (n : ℕ) (b : Bucket) → n < 2 ^ 63 → b.actual_rate < 2 ^ 62 → decrement n (increment n b) ≡ b
unfolding decrement increment
decrement-increment n b h k =
    ap (λ (a : ℕ). record b { actual_rate = a })
      {x = (((b.actual_rate + n) % 2 ^ 64) + (2 ^ 64 - n)) % 2 ^ 64} {y = b.actual_rate}
      (omega arith)

-- The assertions at a node that has the tokens, beyond those of its children.
may_put_lem :
    (n : ℕ) (b : Bucket) (cs : Nodes)
    → b.actual_rate < 2 ^ 62
    → n + sum_actual cs ≤ b.actual_rate
    → may_put n (node b cs) ≡ true
unfolding may_put
may_put_lem n b cs lt h =
    rw (actual_child_rate-sum cs (omega (arith, lt, h))) (ground (arith, lt, h))

module _ (n : ℕ) (c d : Node) (f : Frame)
    (actual : (bucket d).actual_rate + n ≡ (bucket c).actual_rate) (same : reserved d ≡ reserved c)
    (less : assured c ≤ assured d + n)
    (fits : Fits f.parent (insert_child f.before c f.after)) where
  counts : n + sum_actual (insert_child f.before d f.after) ≤ f.parent.actual_rate
  counts = omega (
    arith,
    fits.counted,
    actual,
    sum_actual-insert c f.before f.after,
    sum_actual-insert d f.before f.after,
  )

  down : (decrement n f.parent).actual_rate + n ≡ f.parent.actual_rate
  down =
      decrement_lem n f.parent (omega (arith, counts))
        (omega (arith, Fits-lt f.parent (insert_child f.before c f.after) fits))

  put-Fits : Fits (decrement n f.parent) (insert_child f.before d f.after)
  unfolding decrement
  put-Fits =
      let k = assured_all-insert c f.before f.after in
      let l = assured_all-insert d f.before f.after in
      let m = reserved_all-insert c f.before f.after in
      let o = reserved_all-insert d f.before f.after in
      record {
        counted = omega (arith, counts, down);
        within = omega (arith, fits.within, k, l, less, down);
        rate_ceil = fits.rate_ceil;
        small = omega (arith, fits.small, m, o, same);
      }

  parent-reserved :
      reserved (node (decrement n f.parent) (insert_child f.before d f.after))
      ≡ reserved (parent_node c f)
  unfolding parent_node decrement reserved
  parent-reserved =
      omega (
        arith,
        reserved_all-insert c f.before f.after,
        reserved_all-insert d f.before f.after,
        same,
      )

  parent-assured :
      assured (parent_node c f)
      ≤ assured (node (decrement n f.parent) (insert_child f.before d f.after)) + n
  unfolding parent_node decrement assured
  parent-assured = omega (
    arith,
    assured_all-insert c f.before f.after,
    assured_all-insert d f.before f.after,
    less,
    down,
  )

-- Above a node that gives tokens back nothing fails.
put_above_lem :
    (n : ℕ) (c d : Node) (fs : List Frame)
    → (bucket d).actual_rate + n ≡ (bucket c).actual_rate
    → reserved d ≡ reserved c
    → assured c ≤ assured d + n
    → ValidAbove c fs
    → (put_above n d fs ≡ some (decrement_all n fs)) × ValidAbove d (decrement_all n fs)
unfolding put_above decrement_all parent_node
put_above_lem n c d [] actual same less above = (refl, tt)
put_above_lem n c d (f ∷ fs) actual same less (fits, p, r, above) =
    let (done, above') =
      put_above_lem n (parent_node c f)
        (node (decrement n f.parent) (insert_child f.before d f.after)) fs
        (down n c d f actual same less fits) (parent-reserved n c d f actual same less fits)
        (parent-assured n c d f actual same less fits) above in
    let may =
      may_put_lem n f.parent (insert_child f.before d f.after)
        (Fits-lt f.parent (insert_child f.before c f.after) fits)
        (counts n c d f actual same less fits) in
    (rw may (rw done refl), (put-Fits n c d f actual same less fits, p, r, above'))

-- The node itself.
node-Fits :
    (n : ℕ) (b : Bucket) (cs : Nodes)
    → Fits b cs
    → n + sum_actual cs ≤ b.actual_rate
    → Fits (decrement n b) cs
unfolding decrement
node-Fits n b cs fits has =
    let lt = Fits-lt b cs fits in
    record {
      counted = omega (arith, has, lt);
      within = omega (arith, fits.within, has, lt);
      rate_ceil = fits.rate_ceil;
      small = fits.small;
    }

node-assured :
    (n : ℕ) (b : Bucket) (cs : Nodes)
    → (decrement n b).actual_rate + n ≡ b.actual_rate
    → assured (node b cs) ≤ assured (node (decrement n b) cs) + n
unfolding decrement assured
node-assured n b cs down = omega (arith, down)

node-reserved :
    (n : ℕ) (b : Bucket) (cs : Nodes) → reserved (node (decrement n b) cs) ≡ reserved (node b cs)
unfolding decrement reserved
node-reserved n b cs = refl

-- A node of a valid tree can give back tokens that it has beyond those of its children: no assertion
-- fails, there or above, and the tree is valid afterwards.
pub put_lem :
    (n : ℕ) (b : Bucket) (cs : Nodes) (fs : List Frame)
    → IsValid (root_node (node b cs) fs)
    → n + sum_actual cs ≤ b.actual_rate
    → (put n (node b cs) fs ≡ some (node (decrement n b) cs, decrement_all n fs))
      × IsValid (root_node (node (decrement n b) cs) (decrement_all n fs))
unfolding put
put_lem n b cs fs valid has =
    let ((fits, all), above) = IsValid-root_node (node b cs) fs valid in
    let lt = Fits-lt b cs fits in
    let down = decrement_lem n b (omega (arith, has)) (omega (arith, lt)) in
    let (done, above') =
      put_above_lem n (node b cs) (node (decrement n b) cs) fs down (node-reserved n b cs)
        (node-assured n b cs down) above in
    (
      rw (may_put_lem n b cs lt has) (rw done refl),
      root_node-IsValid (node (decrement n b) cs) (decrement_all n fs)
          (node-Fits n b cs fits has, all) above',
    )

-- The assertions of `put` ask for no more than that.
put_has :
    (n : ℕ) (b : Bucket) (cs : Nodes) (fs : List Frame) {r : Node × List Frame}
    → Fits b cs
    → put n (node b cs) fs ≡ some r
    → n + sum_actual cs ≤ b.actual_rate
unfolding put may_put
put_has n b cs fs fits h =
    elim (Bool-cases (
      leb n b.actual_rate
      && leb (actual_child_rate cs) ((b.actual_rate + (2 ^ 64 - n)) % 2 ^ 64))) [
        | inr failed ↦ absurd (ground (arith, failed, h))
        | inl may ↦
            (let lt = Fits-lt b cs fits in
              let e = actual_child_rate-sum cs (omega (arith, fits.counted, lt)) in
              ground (arith, may, e, lt))
      ]

-- A valid tree is valid after a node of it gave tokens back.
pub put-IsValid :
    (n : ℕ) (c : Node) (fs : List Frame) (d : Node) (gs : List Frame)
    → IsValid (root_node c fs)
    → put n c fs ≡ some (d, gs)
    → IsValid (root_node d gs)
put-IsValid n (node b cs) fs d gs valid h =
    let ((fits, all), above) = IsValid-root_node (node b cs) fs valid in
    let (done, valid') = put_lem n b cs fs valid (put_has n b cs fs fits h) in
    let e = some-eq (sym h ∙ done) in
    rw (ap (λ (r : Node × List Frame). r.0) e, ap (λ (r : Node × List Frame). r.1) e) valid'

decrement_all-increment_all :
    (n : ℕ) (c : Node) (fs : List Frame)
    → n < 2 ^ 63
    → ValidAbove c fs
    → decrement_all n (increment_all n fs) ≡ fs
unfolding decrement_all increment_all
decrement_all-increment_all n c [] small above = refl
decrement_all-increment_all n c (f ∷ fs) small (fits, _, _, above) =
    rw
      (decrement-increment n f.parent small
        (Fits-lt f.parent (insert_child f.before c f.after) fits))
      (rw (decrement_all-increment_all n (parent_node c f) fs small above) refl)

-- What a node of a valid tree got it can give back at once: no assertion fails, and every counter is
-- what it was before.
pub put-get :
    (n : ℕ) (c : Node) (fs : List Frame) (d : Node) (gs : List Frame)
    → n < 2 ^ 63
    → IsValid (root_node c fs)
    → get n c fs ≡ some (d, gs)
    → put n d gs ≡ some (c, fs)
put-get n (node b cs) fs d gs small valid h =
    let ((fits, all), above) = IsValid-root_node (node b cs) fs valid in
    let lt = Fits-lt b cs fits in
    let e = get_lem n b cs fs h in
    let valid' : IsValid (root_node (node (increment n b) cs) (increment_all n fs)) =
      rw (← ap (λ (r : Node × List Frame). r.0) e, ← ap (λ (r : Node × List Frame). r.1) e)
        (get-IsValid n (node b cs) fs d gs small valid h) in
    let up = increment_lem n b (omega (arith, lt)) in
    rw (ap (λ (r : Node × List Frame). r.0) e, ap (λ (r : Node × List Frame). r.1) e)
      ((put_lem n (increment n b) cs (increment_all n fs) valid'
          (omega (arith, up, fits.counted))).0
        ∙ rw (decrement-increment n b small lt)
            (rw (decrement_all-increment_all n (node b cs) fs small above) refl))
