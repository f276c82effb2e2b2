-- ===== src/Wire/VarUInt.antt =====
-- Variable-length integers: what `write_var_uint` writes, and that it is read back.
use native.Mathlib.Nat.{pow-suc, div-add-mod}
use native.Mathlib.Numerals.{towards_suc}
use mathlib.Core.WellFounded.{Acc}
use x.Base.{
  ℕ, zero, suc, ◌+◌, ◌*◌, ◌/◌, ◌%◌, ◌^◌, ◌≤◌, ◌<◌, bit_and, bit_or, ◌≡◌, refl, sym, ap, ◌∙◌, arith,
  lt_wf, none, some, [], ◌∷◌, ◌++◌, Bytes, length, length-append, All, ltb, if◌then◌else◌, ok,
}
use x.Base.Bits.{bit_and_ones, bit_and_top, bit_or_top, bit_or_disjoint}
use x.Wire.{IsByte, IsU64, write_loop, write_var_uint, try_loop, try_parse_var_uint, parse_var_uint}

-- The groups of seven bits of `v`, lowest first, at most `k + 1` of them.
unfoldable pub groups : ℕ → ℕ → Bytes
groups zero v = v ∷ []
groups (suc k) v =
    let rest = groups k (v / 128) in if ltb v 128 then v ∷ [] else (v % 128 + 128) ∷ rest

write_loop-groups : (k v : ℕ) (w : Acc ◌<◌ v) → v < 128 ^ suc k → write_loop v w ≡ groups k v
unfolding write_loop groups
write_loop-groups zero v (Acc.intro _ smaller) h = ground (arith, bit_and_ones 7 v)
write_loop-groups (suc k) v (Acc.intro _ smaller) h = grind (
  arith,
  bit_and_ones 7 v,
  bit_or_top (v % 128),
  λ (w : Acc ◌<◌ (v / 128)). write_loop-groups k (v / 128) w (omega (arith, pow-suc 128 (suc k))),
)

pub write_var_uint-groups : (v : ℕ) → IsU64 v → write_var_uint v ≡ groups 9 v
unfolding write_var_uint
write_var_uint-groups v h = write_loop-groups 9 v (lt_wf.apply v) (omega arith)

pub length-groups : (k v : ℕ) → (1 ≤ length (groups k v)) × (length (groups k v) ≤ k + 1)
unfolding groups
length-groups zero v = omega arith
length-groups (suc k) v = ground (arith, length-groups k (v / 128))

groups-IsByte : (k v : ℕ) → v < 128 ^ suc k → All IsByte (groups k v)
unfolding groups
groups-IsByte zero v h = omega arith
groups-IsByte (suc k) v h =
    ground (arith, groups-IsByte k (v / 128) (omega (arith, pow-suc 128 (suc k))))

-- A variable-length integer fills at most the ten bytes of `buf`, and at least one.
pub length-write_var_uint :
    (v : ℕ) → IsU64 v → (1 ≤ length (write_var_uint v)) × (length (write_var_uint v) ≤ 10)
length-write_var_uint v h = rw (write_var_uint-groups v h) (length-groups 9 v)

pub write_var_uint-IsByte : (v : ℕ) → IsU64 v → All IsByte (write_var_uint v)
write_var_uint-IsByte v h = rw (write_var_uint-groups v h) (groups-IsByte 9 v (omega arith))

-- One round of the reader, on the last byte and on one that goes on.
try_loop_last :
    (b acc i : ℕ) (rest : Bytes)
    → b < 128
    → i ≤ 9
    → acc < 2 ^ (7 * i)
    → acc + b * 2 ^ (7 * i) < 2 ^ 64
    → try_loop (b ∷ rest) acc i ≡ ok (some (acc + b * 2 ^ (7 * i), rest))
unfolding try_loop
try_loop_last b acc i rest hb hi ha fits =
    ground (arith, bit_and_ones 7 b, bit_and_top b, bit_or_disjoint (7 * i) acc b)

try_loop_more :
    (g acc i : ℕ) (rest : Bytes)
    → g < 128
    → i ≤ 9
    → acc < 2 ^ (7 * i)
    → acc + g * 2 ^ (7 * i) < 2 ^ 64
    → try_loop ((g + 128) ∷ rest) acc i ≡ try_loop rest (acc + g * 2 ^ (7 * i)) (i + 1)
unfolding try_loop
try_loop_more g acc i rest hb hi ha fits =
    ground (arith, bit_and_ones 7 (g + 128), bit_and_top (g + 128), bit_or_disjoint (7 * i) acc g)

pub shift_by_seven : (i : ℕ) → 2 ^ (7 * (i + 1)) ≡ 128 * 2 ^ (7 * i)
shift_by_seven i =
    ap (λ (t : ℕ). 2 ^ t) (let e : 7 * (i + 1) ≡ 7 * i + 7 = omega arith in e)
    ∙ simp towards_suc (omega arith)

-- The value splits into its lowest group and the others.
pub lowest_group : (v i : ℕ) → v * 2 ^ (7 * i) ≡ v % 128 * 2 ^ (7 * i) + v / 128 * 2 ^ (7 * (i + 1))
lowest_group v i = omega (
  arith,
  ap (λ (t : ℕ). t * 2 ^ (7 * i)) (div-add-mod v 128),
  ap (λ (t : ℕ). v / 128 * t) (shift_by_seven i),
)

group_fits : (g acc i : ℕ) → g < 128 → acc < 2 ^ (7 * i) → acc + g * 2 ^ (7 * i) < 2 ^ (7 * (i + 1))
group_fits g acc i hg ha = grind (arith, shift_by_seven i)

try_loop-groups :
    (k v acc i : ℕ) (rest : Bytes)
    → v < 128 ^ suc k
    → i + k ≡ 9
    → acc < 2 ^ (7 * i)
    → acc + v * 2 ^ (7 * i) < 2 ^ 64
    → try_loop (groups k v ++ rest) acc i ≡ ok (some (acc + v * 2 ^ (7 * i), rest))
unfolding groups
try_loop-groups zero v acc i rest hv hi ha fits =
    try_loop_last v acc i rest hv (omega arith) ha fits
try_loop-groups (suc k) v acc i rest hv hi ha fits = ground (
  arith,
  lowest_group v i,
  group_fits (v % 128) acc i,
  try_loop_last v acc i rest,
  try_loop_more (v % 128) acc i (groups k (v / 128) ++ rest),
  try_loop-groups k (v / 128) (acc + v % 128 * 2 ^ (7 * i)) (i + 1) rest
      (omega (arith, pow-suc 128 (suc k))),
)

-- Whatever a writer puts behind it, an integer is read back, and the reader stands at what follows.
pub try_parse-write_var_uint :
    (v : ℕ) (rest : Bytes)
    → IsU64 v
    → try_parse_var_uint (write_var_uint v ++ rest) ≡ ok (some (v, rest))
unfolding try_parse_var_uint
try_parse-write_var_uint v rest h =
    rw (write_var_uint-groups v h)
      (ground (arith, try_loop-groups 9 v 0 0 rest (omega arith) refl (omega arith)))

-- A reader that has met only a proper prefix of the groups asks for more.
try_loop-groups_cut :
    (k v acc i x : ℕ) (front back : Bytes)
    → i + k ≡ 9
    → v < 128 ^ suc k
    → groups k v ≡ front ++ (x ∷ back)
    → try_loop front acc i ≡ ok none
unfolding try_loop groups
try_loop-groups_cut k v acc i x [] back hi hv e = refl
try_loop-groups_cut zero v acc i x (b ∷ front) back hi hv e =
    absurd (omega (arith, ap length e, length-append front (x ∷ back)))
try_loop-groups_cut (suc k) v acc i x (b ∷ front) back hi hv e = ground (
  arith,
  bit_and_top b,
  length-append front (x ∷ back),
  ap length e,
  try_loop-groups_cut k (v / 128) (bit_or acc (bit_and b 0x7f * 2 ^ (7 * i) % 2 ^ 64)) (i + 1) x
      front back (omega arith) (omega (arith, pow-suc 128 (suc k))),
)

-- A reader that has only a proper front of the bytes of an integer asks for more.
pub try_parse-write_var_uint_cut :
    (v x : ℕ) (front back : Bytes)
    → IsU64 v
    → write_var_uint v ≡ front ++ (x ∷ back)
    → try_parse_var_uint front ≡ ok none
unfolding try_parse_var_uint
try_parse-write_var_uint_cut v x front back h e =
    try_loop-groups_cut 9 v 0 0 x front back refl (omega arith)
      (sym (write_var_uint-groups v h) ∙ e)

pub parse-write_var_uint :
    (v : ℕ) (rest : Bytes) → IsU64 v → parse_var_uint (write_var_uint v ++ rest) ≡ ok (v, rest)
unfolding parse_var_uint
parse-write_var_uint v rest h = rw (try_parse-write_var_uint v rest h)

-- Reading takes at least one byte, and never leaves more than it was given.
try_loop_takes :
    (src : Bytes) (acc i v : ℕ) (rest : Bytes)
    → try_loop src acc i ≡ ok (some (v, rest))
    → length rest < length src
unfolding try_loop
try_loop_takes [] acc i v rest e = cc
try_loop_takes (b ∷ bs) acc i v rest e =
    ground
      (arith, try_loop_takes bs (bit_or acc (bit_and b 0x7f * 2 ^ (7 * i) % 2 ^ 64)) (i + 1) v rest)

pub try_parse_var_uint_takes :
    (src : Bytes) (v : ℕ) (rest : Bytes)
    → try_parse_var_uint src ≡ ok (some (v, rest))
    → length rest < length src
unfolding try_parse_var_uint
try_parse_var_uint_takes src v rest e = try_loop_takes src 0 0 v rest e
