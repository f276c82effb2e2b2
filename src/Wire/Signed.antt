-- ===== src/Wire/Signed.antt =====
-- Zigzag integers: 64 bits go round, 32 bits only where the doubled value does not wrap.
use x.Base.{
  ℕ, ◌+◌, ◌-◌, ◌*◌, ◌/◌, ◌%◌, ◌^◌, ◌≡◌, arith, ◌++◌, Bytes, ok, if◌then◌else◌, leb, ltb, ◌==◌, ◌&&◌,
}
use x.Base.Bits.{bit_xor_ones, bit_xor-zero, bit_and_ones}
use x.Wire.{
  IsU64, IsU32, zigzag64, zigzag32, unzigzag, write_var_sint64, write_var_sint32, parse_var_sint64,
  parse_var_sint32,
}
use x.Wire.VarUInt.{parse-write_var_uint}

zigzag64_lem :
    (n : ℕ) → IsU64 n → (zigzag64 n ≡ (if leb (2 ^ 63) n then 2 ^ 65 - 1 - 2 * n else 2 * n))
unfolding zigzag64
zigzag64_lem n h = ground (arith, bit_xor_ones 64 (2 * n % 2 ^ 64), bit_xor-zero (2 * n % 2 ^ 64))

unzigzag_lem : (z : ℕ) → IsU64 z → unzigzag z ≡ (if z % 2 == 0 then z / 2 else 2 ^ 64 - 1 - z / 2)
unfolding unzigzag
unzigzag_lem z h = ground (arith, bit_and_ones 1 z, bit_xor_ones 64 (z / 2), bit_xor-zero (z / 2))

-- Every 64-bit pattern is read back as it was written.
pub parse-write_var_sint64 :
    (n : ℕ) (rest : Bytes) → IsU64 n → parse_var_sint64 (write_var_sint64 n ++ rest) ≡ ok (n, rest)
unfolding parse_var_sint64 write_var_sint64
parse-write_var_sint64 n rest h =
    ground
      (arith, zigzag64_lem n, unzigzag_lem (zigzag64 n), parse-write_var_uint (zigzag64 n) rest)

zigzag32_lem :
    (n : ℕ)
    → IsU32 n
    → zigzag32 n ≡ (
        if leb (2 ^ 31) n
        then if leb (2 ^ 31 + 2 ^ 30) n then 2 ^ 33 - 1 - 2 * n else 2 ^ 64 + 2 ^ 32 - 1 - 2 * n
        else if leb (2 ^ 30) n
        then 2 * n + (2 ^ 64 - 2 ^ 32)
        else 2 * n)
unfolding zigzag32
zigzag32_lem n h = ground (arith, bit_xor_ones 32 (2 * n % 2 ^ 32), bit_xor-zero (2 * n % 2 ^ 32))

-- What `parse_var_sint32` returns for each 32-bit pattern written by `write_var_sint32`: the
-- pattern itself if its top two bits agree, and else the pattern with the top bit flipped.
pub parse-write_var_sint32 :
    (n : ℕ) (rest : Bytes)
    → IsU32 n
    → parse_var_sint32 (write_var_sint32 n ++ rest)
      ≡ ok (if leb (2 ^ 30) n && ltb n (2 ^ 31 + 2 ^ 30) then (n + 2 ^ 31) % 2 ^ 32 else n, rest)
unfolding parse_var_sint32 write_var_sint32
parse-write_var_sint32 n rest h =
    ground
      (arith, zigzag32_lem n, unzigzag_lem (zigzag32 n), parse-write_var_uint (zigzag32 n) rest)
