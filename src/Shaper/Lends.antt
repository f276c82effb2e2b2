-- ===== src/Shaper/Lends.antt =====
-- xzero/TokenShaper-inl.h `get`: the tree stays valid, whether the tokens are a node's own or lent.
use x.Base.{
  ℕ, ◌+◌, ◌%◌, ◌^◌, ◌≤◌, ◌<◌, ◌≡◌, refl, arith, true, List, [], ◌∷◌, leb→le, inl, inr, some, ap,
}
use x.Shaper.{
  Bucket, Node, Nodes, node, bucket, Frame, insert_child, parent_node, root_node, increment,
  increment_all, is_assured, get,
}
use x.Shaper.Valid.{
  assured, reserved, sum_actual-insert, assured_all-insert, reserved_all-insert, Fits, IsValid,
  ValidAbove, ValidAbove-more, root_node-IsValid, IsValid-root_node,
}
use x.Shaper.Gets.{Fits-lt, increment_lem, is_assured-le, get_root, get_cases, get_lem}

-- Tokens of a node's own are counted by all above it as tokens that they need not lend.
pub ValidAbove-increment :
    (n : ℕ) (c d : Node) (fs : List Frame)
    → n < 2 ^ 63
    → (bucket d).actual_rate ≡ (bucket c).actual_rate + n
    → reserved d ≡ reserved c
    → assured d ≡ assured c + n
    → ValidAbove c fs
    → ValidAbove d (increment_all n fs)
unfolding parent_node assured reserved increment_all
ValidAbove-increment n c d [] small actual same more above = tt
ValidAbove-increment n c d (f ∷ fs) small actual same more (fits, p, r, above) =
    let a = sum_actual-insert c f.before f.after in
    let b = sum_actual-insert d f.before f.after in
    let k = assured_all-insert c f.before f.after in
    let l = assured_all-insert d f.before f.after in
    let m = reserved_all-insert c f.before f.after in
    let o = reserved_all-insert d f.before f.after in
    let up =
      increment_lem n f.parent
        (omega (arith, Fits-lt f.parent (insert_child f.before c f.after) fits)) in
    (
      record {
        counted = omega (arith, fits.counted, a, b, actual, up);
        within = omega (arith, fits.within, k, l, more, up);
        rate_ceil = fits.rate_ceil;
        small = omega (arith, fits.small, m, o, same);
      },
      p,
      r,
      ValidAbove-increment n (parent_node c f)
          (parent_node d (record f { parent = increment n f.parent })) fs small up
          (omega (arith, m, o, same)) (omega (arith, up, k, l, more)) above,
    )

-- A node that takes tokens of its own, or below its ceiling, and what is assured of it then.
own-Fits :
    (n : ℕ) (b : Bucket) (cs : Nodes)
    → n < 2 ^ 63
    → Fits b cs
    → b.actual_rate + n ≤ b.ceil
    → Fits (increment n b) cs
unfolding increment
own-Fits n b cs small fits room =
    let a = Fits-lt b cs fits in
    record {
      counted = omega (arith, fits.counted, a);
      within = omega (arith, room, a);
      rate_ceil = fits.rate_ceil;
      small = fits.small;
    }

assured-increment :
    (n : ℕ) (b : Bucket) (cs : Nodes)
    → b.actual_rate + n < 2 ^ 64
    → (assured (node b cs) ≤ assured (node (increment n b) cs))
      × (b.actual_rate + n ≤ b.rate → assured (node (increment n b) cs) ≡ assured (node b cs) + n)
unfolding increment assured
assured-increment n b cs h = (omega arith, λ room. omega arith)

reserved-increment :
    (n : ℕ) (b : Bucket) (cs : Nodes) → reserved (node (increment n b) cs) ≡ reserved (node b cs)
unfolding increment reserved
reserved-increment n b cs = refl

-- After a success the node and all above it are as they have to be: first with tokens of its own.
is_assured-Fits :
    (n : ℕ) (b : Bucket) (cs : Nodes) (fs : List Frame)
    → n < 2 ^ 63
    → Fits b cs
    → ValidAbove (node b cs) fs
    → is_assured n (node b cs) ≡ true
    → Fits (increment n b) cs × ValidAbove (node (increment n b) cs) (increment_all n fs)
is_assured-Fits n b cs fs small fits above h =
    let le = is_assured-le n b cs small fits h in
    let bound : b.actual_rate + n < 2 ^ 64 = omega (arith, Fits-lt b cs fits) in
    (
      own-Fits n b cs small fits (omega (arith, le, fits.rate_ceil)),
      ValidAbove-increment n (node b cs) (node (increment n b) cs) fs small
          (increment_lem n b bound) (reserved-increment n b cs)
          ((assured-increment n b cs bound).1 le) above,
    )

module _ (n : ℕ) (c d : Node) (f : Frame)
    (actual : (bucket d).actual_rate ≡ (bucket c).actual_rate + n) (same : reserved d ≡ reserved c)
    (more : assured c ≤ assured d) (small : n < 2 ^ 63) where
  -- The parent that lent the tokens, once they are counted at its child.
  lent-Fits :
      Fits f.parent (insert_child f.before c f.after)
      → Fits (increment n f.parent) (insert_child f.before c f.after)
      → Fits (increment n f.parent) (insert_child f.before d f.after)
  unfolding increment
  lent-Fits old fits =
      let a = sum_actual-insert c f.before f.after in
      let b = sum_actual-insert d f.before f.after in
      let k = assured_all-insert c f.before f.after in
      let l = assured_all-insert d f.before f.after in
      let m = reserved_all-insert c f.before f.after in
      let o = reserved_all-insert d f.before f.after in
      let lt = Fits-lt f.parent (insert_child f.before c f.after) old in
      record {
        counted = omega (arith, old.counted, lt, a, b, actual);
        within = omega (arith, fits.within, k, l, more);
        rate_ceil = fits.rate_ceil;
        small = omega (arith, fits.small, m, o, same);
      }

  lent-ValidAbove :
      (fs : List Frame)
      → ValidAbove (node (increment n f.parent) (insert_child f.before c f.after)) fs
      → ValidAbove (node (increment n f.parent) (insert_child f.before d f.after)) fs
  unfolding assured reserved
  lent-ValidAbove fs =
      let k = assured_all-insert c f.before f.after in
      let l = assured_all-insert d f.before f.after in
      let m = reserved_all-insert c f.before f.after in
      let o = reserved_all-insert d f.before f.after in
      ValidAbove-more (node (increment n f.parent) (insert_child f.before c f.after))
        (node (increment n f.parent) (insert_child f.before d f.after)) fs refl
        (omega (arith, m, o, same)) (omega (arith, k, l, more))

get-Fits :
    (n : ℕ) (b : Bucket) (cs : Nodes) (fs : List Frame) {r : Node × List Frame}
    → n < 2 ^ 63
    → Fits b cs
    → ValidAbove (node b cs) fs
    → get n (node b cs) fs ≡ some r
    → Fits (increment n b) cs × ValidAbove (node (increment n b) cs) (increment_all n fs)
unfolding parent_node increment_all
get-Fits n b cs [] small fits above h =
    is_assured-Fits n b cs [] small fits above (get_root n b cs h)
get-Fits n b cs (f ∷ fs) small fits (fits_p, p, r, above) h = elim (get_cases n b cs f fs h) [
  | inl (own, _) ↦ is_assured-Fits n b cs (f ∷ fs) small fits (fits_p, p, r, above) own
  | inr (room, q, lent, _) ↦
      (let bound : b.actual_rate + n < 2 ^ 64 = omega (arith, Fits-lt b cs fits) in
        let free : b.actual_rate + n ≤ b.ceil =
          omega (arith, leb→le ((b.actual_rate + n) % 2 ^ 64) b.ceil room) in
        let actual = increment_lem n b bound in
        let same = reserved-increment n b cs in
        let more = (assured-increment n b cs bound).0 in
        let (fits_q, above_q) =
          get-Fits n f.parent (insert_child f.before (node b cs) f.after) fs small fits_p above
            lent in
        (
          own-Fits n b cs small fits free,
          (
            lent-Fits n (node b cs) (node (increment n b) cs) f actual same more small fits_p
                fits_q,
            p,
            r,
            lent-ValidAbove n (node b cs) (node (increment n b) cs) f actual same more small
                (increment_all n fs) above_q,
          ),
        ))
]

-- A valid tree is valid after a node of it got tokens.
pub get-IsValid :
    (n : ℕ) (c : Node) (fs : List Frame) (d : Node) (gs : List Frame)
    → n < 2 ^ 63
    → IsValid (root_node c fs)
    → get n c fs ≡ some (d, gs)
    → IsValid (root_node d gs)
get-IsValid n (node b cs) fs d gs small valid h =
    let ((fits, all), above) = IsValid-root_node (node b cs) fs valid in
    let (fits', above') = get-Fits n b cs fs small fits above h in
    let e = get_lem n b cs fs h in
    rw (ap (λ (r : Node × List Frame). r.0) e, ap (λ (r : Node × List Frame). r.1) e)
      (root_node-IsValid (node (increment n b) cs) (increment_all n fs) (fits', all) above')
