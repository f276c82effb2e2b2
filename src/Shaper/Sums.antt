-- ===== src/Shaper/Sums.antt =====
-- xzero/TokenShaper-inl.h: the sums over the children of a node, without wrap-around.
use x.Base.{ℕ, ◌+◌, ◌-◌, ◌^◌, ◌≤◌, ◌<◌, ◌≡◌, refl, arith}
use x.Shaper.{
  Bucket, Nodes, nil, cons, bucket, over_rate, child_rate, actual_child_rate,
  actual_child_over_rate,
}

unfoldable pub sum_actual : Nodes → ℕ
sum_actual nil = 0
sum_actual (cons c cs) = (bucket c).actual_rate + sum_actual cs

unfoldable pub sum_rate : Nodes → ℕ
sum_rate nil = 0
sum_rate (cons c cs) = (bucket c).rate + sum_rate cs

unfoldable pub sum_over : Nodes → ℕ
sum_over nil = 0
sum_over (cons c cs) = ((bucket c).actual_rate - (bucket c).rate) + sum_over cs

pub sum_over-le : (cs : Nodes) → sum_over cs ≤ sum_actual cs
unfolding sum_over sum_actual
sum_over-le nil = omega arith
sum_over-le (cons c cs) = omega (arith, sum_over-le cs)

pub child_rate-sum : (cs : Nodes) → sum_rate cs < 2 ^ 64 → child_rate cs ≡ sum_rate cs
unfolding child_rate sum_rate
child_rate-sum nil h = refl
child_rate-sum (cons c cs) h = omega (arith, child_rate-sum cs)

pub actual_child_rate-sum :
    (cs : Nodes) → sum_actual cs < 2 ^ 64 → actual_child_rate cs ≡ sum_actual cs
unfolding actual_child_rate sum_actual
actual_child_rate-sum nil h = refl
actual_child_rate-sum (cons c cs) h = omega (arith, actual_child_rate-sum cs)

pub over_rate_lem :
    (b : Bucket) → b.actual_rate < 2 ^ 63 → b.rate < 2 ^ 63 → over_rate b ≡ b.actual_rate - b.rate
unfolding over_rate
over_rate_lem b h k = ground arith

pub actual_child_over_rate-sum :
    (cs : Nodes)
    → sum_actual cs < 2 ^ 63
    → sum_rate cs < 2 ^ 63
    → actual_child_over_rate cs ≡ sum_over cs
unfolding actual_child_over_rate sum_over sum_actual sum_rate
actual_child_over_rate-sum nil h k = refl
actual_child_over_rate-sum (cons c cs) h k =
    omega (arith, over_rate_lem (bucket c), actual_child_over_rate-sum cs, sum_over-le cs)
