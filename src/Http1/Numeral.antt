-- ===== src/Http1/Numeral.antt =====
-- `snprintf` with `%lu` and `%zx`, as src/xzero/Buffer.h and src/xzero/http/http1/Generator.cc use it.
use x.Base.{ℕ, zero, suc, ◌+◌, ◌-◌, ◌/◌, ◌%◌, [], ◌∷◌, ◌++◌, Bytes, ltb, if◌then◌else◌}

unfoldable pub digit : ℕ → ℕ
digit d = if ltb d 10 then b'0' + d else b'a' + (d - 10)

-- The last digit stands last; there are at most `fuel` and one digits.
unfoldable pub numeral_loop : ℕ → ℕ → ℕ → Bytes
numeral_loop base zero n = digit (n % base) ∷ []
numeral_loop base (suc fuel) n =
    let rest = numeral_loop base fuel (n / base) ++ digit (n % base) ∷ [] in
    if ltb n base then digit n ∷ [] else rest

-- A `size_t` has 64 digits at most, in any base.
unfoldable pub decimal : ℕ → Bytes
decimal n = numeral_loop 10 64 n

unfoldable pub hexadecimal : ℕ → Bytes
hexadecimal n = numeral_loop 16 64 n
