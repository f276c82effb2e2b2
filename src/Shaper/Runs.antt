-- ===== src/Shaper/Runs.antt =====
-- xzero/TokenShaper-inl.h: any sequence of `get` and `put` at the nodes of a tree, and when a node gets
-- nothing.
use x.Base.{
  ℕ, ◌+◌, ◌%◌, ◌^◌, ◌≤◌, ◌<◌, ◌≡◌, refl, arith, false, List, [], ◌∷◌, leb, none, some, ◌∙◌,
}
use x.Shaper.{Bucket, Node, Nodes, node, nil, cons, Frame, root_node, max, is_assured, put, get}
use x.Shaper.Sums.{sum_actual}
use x.Shaper.Valid.{assured_all-le, reserved_all, IsValid, AllValid, IsValid-root_node}
use x.Shaper.Gets.{Fits-lt, is_assured_lem}
use x.Shaper.Lends.{get-IsValid}
use x.Shaper.Puts.{put-IsValid}

-- A `get` or a `put` at some node of the tree that succeeds.
pub data Step : Node → Node → Type 0 where
  gets :
      (n : ℕ) (c : Node) (fs : List Frame) (d : Node) (gs : List Frame) {t u : Node}
      → n < 2 ^ 63
      → root_node c fs ≡ t
      → get n c fs ≡ some (d, gs)
      → root_node d gs ≡ u
      → Step t u
  puts :
      (n : ℕ) (c : Node) (fs : List Frame) (d : Node) (gs : List Frame) {t u : Node}
      → root_node c fs ≡ t
      → put n c fs ≡ some (d, gs)
      → root_node d gs ≡ u
      → Step t u

pub data Run (t : Node) : Node → Type 0 where
  start : Run t t
  next : {u v : Node} → Run t u → Step u v → Run t v

-- A tree that no node of has tokens yet: every rate is at most the ceiling, and all limits together
-- stay below 2^62.
abbrev mutual
  pub IsIdle : Node → Type 0
  IsIdle (node b cs) =
      (b.actual_rate ≡ 0) × (b.rate ≤ b.ceil) × (b.ceil + reserved_all cs < 2 ^ 62) × AllIdle cs

  pub AllIdle : Nodes → Type 0
  AllIdle nil = Unit
  AllIdle (cons c cs) = IsIdle c × AllIdle cs

idle-sum : (cs : Nodes) → AllIdle cs → sum_actual cs ≡ 0
unfolding sum_actual
idle-sum nil h = refl
idle-sum (cons (node b ds) cs) ((none_yet, _, _, _), h) = omega (arith, idle-sum cs h, none_yet)

mutual
  IsIdle-IsValid : (c : Node) → IsIdle c → IsValid c
  IsIdle-IsValid (node b cs) (none_yet, le, small, idle) = (
    record {
      counted = omega (arith, idle-sum cs idle);
      within = omega (arith, none_yet);
      rate_ceil = le;
      small = small;
    },
    AllIdle-AllValid cs idle,
  )

  AllIdle-AllValid : (cs : Nodes) → AllIdle cs → AllValid cs
  AllIdle-AllValid nil h = tt
  AllIdle-AllValid (cons c cs) (h, all) = (IsIdle-IsValid c h, AllIdle-AllValid cs all)

Step-IsValid : {t u : Node} → Step t u → IsValid t → IsValid u
Step-IsValid (gets n c fs d gs small at h to) v =
    rw (← to) (get-IsValid n c fs d gs small (rw at v) h)
Step-IsValid (puts n c fs d gs at h to) v = rw (← to) (put-IsValid n c fs d gs (rw at v) h)

pub Run-IsValid : {t u : Node} → IsValid t → Run t u → IsValid u
Run-IsValid v start = v
Run-IsValid v (next r step) = Step-IsValid step (Run-IsValid v r)

-- From a tree that no node of has tokens yet (every rate at most its ceiling, all limits together
-- below 2^62), whatever nodes get tokens, below 2^63 at a time, and give tokens back: the load of
-- every node covers the loads of its children, and is at most its ceiling and the rates of all nodes
-- below it.
pub Run-load :
    {t u : Node} (b : Bucket) (cs : Nodes) (fs : List Frame)
    → IsIdle t
    → Run t u
    → root_node (node b cs) fs ≡ u
    → (sum_actual cs ≤ b.actual_rate) × (b.actual_rate ≤ b.ceil + reserved_all cs)
Run-load {t = t} b cs fs idle r at =
    let v : IsValid (root_node (node b cs) fs) = rw at (Run-IsValid (IsIdle-IsValid t idle) r) in
    let ((fits, _), _) = IsValid-root_node (node b cs) fs v in
    (fits.counted, omega (arith, fits.within, assured_all-le cs))

get-full :
    (n : ℕ) (b : Bucket) (cs : Nodes) (fs : List Frame)
    → is_assured n (node b cs) ≡ false
    → leb ((b.actual_rate + n) % 2 ^ 64) b.ceil ≡ false
    → get n (node b cs) fs ≡ none
unfolding get
get-full n b cs [] h k = rw h refl
get-full n b cs (f ∷ fs) h k = rw h (rw k refl)

-- A node of a valid tree that asks for more than its ceiling leaves, below 2^63, gets nothing.
pub get-refused :
    (n : ℕ) (b : Bucket) (cs : Nodes) (fs : List Frame)
    → n < 2 ^ 63
    → IsValid (root_node (node b cs) fs)
    → b.ceil < b.actual_rate + n
    → get n (node b cs) fs ≡ none
unfolding max
get-refused n b cs fs small valid beyond =
    let ((fits, _), _) = IsValid-root_node (node b cs) fs valid in
    get-full n b cs fs (is_assured_lem n b cs small fits ∙ ground (arith, beyond, fits.rate_ceil))
      (ground (arith, beyond, Fits-lt b cs fits))
