-- ===== src/Wire.antt =====
-- src/xzero/util/BinaryWriter.cc and BinaryReader.cc: the variable-length integers, fixed-width
-- integers and byte strings of the Raft wire format.
-- A writer is the bytes that it hands to its `ChunkWriter`; a reader is a function of the bytes
-- between `begin_` and `end_`, and returns those that are left.
pub mod VarUInt
pub mod Strings
pub mod Signed
pub mod Reader
use mathlib.Core.Logic.{dite}
use mathlib.Core.WellFounded.{Acc}
use native.Mathlib.Decide.{dec_lt}
use x.Base.{
  ℕ, zero, suc, ◌+◌, ◌-◌, ◌*◌, ◌/◌, ◌%◌, ◌^◌, ◌<◌, bit_and, bit_or, bit_xor, arith, lt_wf, Bool,
  Option, none, some, List, [], ◌∷◌, ◌++◌, Bytes, length, take, drop, ltb, leb, ◌==◌, if◌then◌else◌,
  Outcome, ok, raise, io_error, undefined, ◌>>=◌,
}

abbrev pub IsByte : ℕ → Type 0
IsByte b = b < 256

abbrev pub IsU64 : ℕ → Type 0
IsU64 v = v < 2 ^ 64

abbrev pub IsU32 : ℕ → Type 0
IsU32 v = v < 2 ^ 32

pub shift_lt : (v : ℕ) → 0 < v / 128 → v / 128 < v
shift_lt v h = omega arith

-- The `do`/`while` of `writeVarUInt`; the list is `buf[n]` and what follows it.
write_loop : (v : ℕ) → Acc ◌<◌ v → Bytes
write_loop v (Acc.intro _ smaller) =
    dite (dec_lt 0 (v / 128))
      (λ more. bit_or (bit_and v 0x7f) 0x80 ∷ write_loop (v / 128) (smaller _ (shift_lt v more)))
      (λ _. bit_and v 0x7f ∷ [])

unfoldable pub write_var_uint : ℕ → Bytes
unfolding write_loop lt_wf dec_lt
write_var_uint v = write_loop v (lt_wf.apply v)

-- Zigzag; the argument is the 64-bit pattern of an `int64_t`, whose shift right fills with the sign.
unfoldable pub zigzag64 : ℕ → ℕ
zigzag64 n = bit_xor (2 * n % 2 ^ 64) (if leb (2 ^ 63) n then 2 ^ 64 - 1 else 0)

pub write_var_sint64 : ℕ → Bytes
write_var_sint64 n = write_var_uint (zigzag64 n)

-- The same in 32 bits (a shift into the sign bit wraps), then the conversion of an `int32_t` to the
-- `uint64_t` that `writeVarUInt` takes, which copies the sign bit upwards.
unfoldable pub zigzag32 : ℕ → ℕ
zigzag32 n =
    let z = bit_xor (2 * n % 2 ^ 32) (if leb (2 ^ 31) n then 2 ^ 32 - 1 else 0) in
    if leb (2 ^ 31) z then z + (2 ^ 64 - 2 ^ 32) else z

pub write_var_sint32 : ℕ → Bytes
write_var_sint32 n = write_var_uint (zigzag32 n)

-- The memory image of an integer of `n` bytes, on a little-endian machine.
unfoldable pub to_bytes : ℕ → ℕ → Bytes
to_bytes zero v = []
to_bytes (suc n) v = (v % 256) ∷ to_bytes n (v / 256)

unfoldable pub of_bytes : Bytes → ℕ
of_bytes [] = 0
of_bytes (b ∷ bs) = b + 256 * of_bytes bs

pub write_fixed64 : ℕ → Bytes
write_fixed64 = to_bytes 8

pub write_fixed32 : ℕ → Bytes
write_fixed32 = to_bytes 4

unfoldable pub write_length_delimited : Bytes → Bytes
write_length_delimited bytes = write_var_uint (length bytes) ++ bytes

unfoldable pub write_string : Bytes → Bytes
unfolding write_length_delimited
write_string str = write_length_delimited str

-- The loop of `tryParseVarUInt`. A shift by 64 or more has no meaning in C++.
unfoldable pub try_loop : Bytes → ℕ → ℕ → Outcome (Option (ℕ × Bytes))
try_loop [] result i = ok none
try_loop (byte ∷ rest) result i =
    let result' = bit_or result (bit_and byte 0x7f * 2 ^ (7 * i) % 2 ^ 64) in
    let more = try_loop rest result' (i + 1) in
    if leb 64 (7 * i)
    then raise undefined
    else if bit_and byte 0x80 == 0
    then ok (some (result', rest))
    else more

-- `none` leaves the reader where it was.
unfoldable pub try_parse_var_uint : Bytes → Outcome (Option (ℕ × Bytes))
unfolding try_loop
try_parse_var_uint src = try_loop src 0 0

needed : Option (ℕ × Bytes) → Outcome (ℕ × Bytes)
needed none = raise io_error
needed (some r) = ok r

unfoldable pub parse_var_uint : Bytes → Outcome (ℕ × Bytes)
unfolding try_parse_var_uint needed
parse_var_uint src = do r ← try_parse_var_uint src; needed r

-- `(z >> 1) ^ -(z & 1)` in 64 bits.
unfoldable pub unzigzag : ℕ → ℕ
unzigzag z = bit_xor (z / 2) (if bit_and z 1 == 0 then 0 else 2 ^ 64 - 1)

unfoldable pub parse_var_sint64 : Bytes → Outcome (ℕ × Bytes)
unfolding parse_var_uint unzigzag
parse_var_sint64 src = do (z, rest) ← parse_var_uint src; ok (unzigzag z, rest)

-- The conversion to `int32_t` keeps the low 32 bits.
unfoldable pub parse_var_sint32 : Bytes → Outcome (ℕ × Bytes)
unfolding parse_var_uint unzigzag
parse_var_sint32 src = do (z, rest) ← parse_var_uint src; ok (unzigzag z % 2 ^ 32, rest)

-- `memcpy` of `n` bytes after the bounds check that the fixed-width readers share.
unfoldable pub parse_bytes : ℕ → Bytes → Outcome (Bytes × Bytes)
parse_bytes n src = if ltb (length src) n then raise io_error else ok (take n src, drop n src)

-- `begin_ + len` is a sum of a pointer, which a length of nearly 2^64 may take beyond the memory; here the
-- lengths are compared.
unfoldable pub parse_length_delimited : Bytes → Outcome (Bytes × Bytes)
unfolding parse_var_uint parse_bytes
parse_length_delimited src = do (len, rest) ← parse_var_uint src; parse_bytes len rest

unfoldable pub parse_string : Bytes → Outcome (Bytes × Bytes)
unfolding parse_length_delimited
parse_string src = parse_length_delimited src

unfoldable pub parse_fixed64 : Bytes → Outcome (ℕ × Bytes)
unfolding parse_bytes of_bytes
parse_fixed64 src = do (bytes, rest) ← parse_bytes 8 src; ok (of_bytes bytes, rest)

unfoldable pub parse_fixed32 : Bytes → Outcome (ℕ × Bytes)
unfolding parse_bytes of_bytes
parse_fixed32 src = do (bytes, rest) ← parse_bytes 4 src; ok (of_bytes bytes, rest)
