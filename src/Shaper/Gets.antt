-- ===== src/Shaper/Gets.antt =====
-- xzero/TokenShaper-inl.h `get`: when it succeeds, and that the tree stays valid.
use x.Base.{
  ℕ, ◌+◌, ◌%◌, ◌^◌, ◌≤◌, ◌<◌, ◌≡◌, ◌⊎◌, refl, arith, true, List, [], ◌∷◌, leb, leb→le, inl, inr,
  Bool-cases, some, Option-cases, sym, ◌∙◌,
}
use x.Shaper.{
  Bucket, Node, Nodes, node, bucket, Frame, insert_child, parent_node, increment, increment_all,
  max, is_assured, get,
}
use x.Shaper.Sums.{sum_rate, sum_over, sum_over-le, child_rate-sum, actual_child_over_rate-sum}
use x.Shaper.Valid.{assured_all-le, sum_rate-le, Fits}

pub Fits-lt : (b : Bucket) (cs : Nodes) → Fits b cs → b.actual_rate < 2 ^ 62
Fits-lt b cs fits = omega (arith, fits.within, fits.small, assured_all-le cs)

pub increment_lem :
    (n : ℕ) (b : Bucket)
    → b.actual_rate + n < 2 ^ 64
    → (increment n b).actual_rate ≡ b.actual_rate + n
unfolding increment
increment_lem n b h = omega arith

-- What the first loop compares: nothing wraps around.
pub is_assured_lem :
    (n : ℕ) (b : Bucket) (cs : Nodes)
    → n < 2 ^ 63
    → Fits b cs
    → is_assured n (node b cs) ≡ leb (max b.actual_rate (sum_rate cs + sum_over cs) + n) b.rate
unfolding is_assured max
is_assured_lem n b cs small fits =
    let a = Fits-lt b cs fits in
    let r = sum_rate-le cs in
    let o = sum_over-le cs in
    rw (child_rate-sum cs (omega (arith, fits.small, r))) (
      rw
        (actual_child_over_rate-sum cs (omega (arith, fits.counted, a))
          (omega (arith, fits.small, r)))
        (ground (arith, fits.small, fits.counted, a, r, o)))

pub is_assured-le :
    (n : ℕ) (b : Bucket) (cs : Nodes)
    → n < 2 ^ 63
    → Fits b cs
    → is_assured n (node b cs) ≡ true
    → b.actual_rate + n ≤ b.rate
unfolding max
is_assured-le n b cs small fits h =
    let le = leb→le _ b.rate (sym (is_assured_lem n b cs small fits) ∙ h) in ground (arith, le)

pub get_root :
    (n : ℕ) (b : Bucket) (cs : Nodes) {r : Node × List Frame}
    → get n (node b cs) [] ≡ some r
    → is_assured n (node b cs) ≡ true
unfolding get
get_root n b cs h = ground (arith, h)

-- Below another node: the tokens are the node's own, or borrowed below its ceiling.
pub get_cases :
    (n : ℕ) (b : Bucket) (cs : Nodes) (f : Frame) (fs : List Frame) {r : Node × List Frame}
    → get n (node b cs) (f ∷ fs) ≡ some r
    → ((is_assured n (node b cs) ≡ true)
        × (r ≡ (node (increment n b) cs, increment_all n (f ∷ fs))))
      ⊎ ((leb ((b.actual_rate + n) % 2 ^ 64) b.ceil ≡ true)
          × (q : Node × List Frame) × (get n (parent_node (node b cs) f) fs ≡ some q)
          × (r ≡ (node (increment n b) cs, record f { parent = bucket q.0 } ∷ q.1)))
unfolding get
get_cases n b cs f fs h = elim (Bool-cases (is_assured n (node b cs))) [
  | inl own ↦ inl (own, ground (arith, own, h))
  | inr no_own ↦ elim (Bool-cases (leb ((b.actual_rate + n) % 2 ^ 64) b.ceil)) [
    | inr full ↦ absurd (ground (arith, no_own, full, h))
    | inl room ↦ elim (Option-cases (get n (parent_node (node b cs) f) fs)) [
      | inl refused ↦ absurd (ground (arith, no_own, room, refused, h))
      | inr (q, lent) ↦ inr (room, q, lent, ground (arith, no_own, room, lent, h))
    ]
  ]
]

-- Wherever the tokens come from, they are counted at the node and at all above it.
pub get_lem :
    (n : ℕ) (b : Bucket) (cs : Nodes) (fs : List Frame) {r : Node × List Frame}
    → get n (node b cs) fs ≡ some r
    → r ≡ (node (increment n b) cs, increment_all n fs)
unfolding get increment_all parent_node
get_lem n b cs [] h = ground (arith, h)
get_lem n b cs (f ∷ fs) h = elim (get_cases n b cs f fs h) [
  | inl (_, e) ↦ e
  | inr (_, q, lent, e) ↦
      e ∙ rw (get_lem n f.parent (insert_child f.before (node b cs) f.after) fs lent) refl
]
