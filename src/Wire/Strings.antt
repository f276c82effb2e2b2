-- ===== src/Wire/Strings.antt =====
-- Length-delimited strings and fixed-width integers are read back.
use native.Mathlib.Nat.{pow-suc}
use x.Base.{
  ℕ, zero, suc, ◌/◌, ◌^◌, ◌<◌, ◌≡◌, refl, sym, ap, ◌∙◌, arith, ◌++◌, Bytes, length,
  take-length-append, drop-length-append, length-append, append_assoc, ltb-ge, ok,
}
use x.Wire.{
  IsU64, IsU32, to_bytes, of_bytes, write_length_delimited, write_string, parse_bytes,
  parse_length_delimited, parse_string, write_fixed64, write_fixed32, parse_fixed64, parse_fixed32,
}
use x.Wire.VarUInt.{parse-write_var_uint}

parse_bytes_lem :
    (bytes rest : Bytes) → parse_bytes (length bytes) (bytes ++ rest) ≡ ok (bytes, rest)
unfolding parse_bytes
parse_bytes_lem bytes rest =
    rw (ltb-ge (length (bytes ++ rest)) (length bytes) (omega (arith, length-append bytes rest)))
      (rw (take-length-append bytes rest, drop-length-append bytes rest))

-- A string of any bytes, whose length fits a `size_t`, is read back from what is written.
pub parse-write_length_delimited :
    (bytes rest : Bytes)
    → IsU64 (length bytes)
    → parse_length_delimited (write_length_delimited bytes ++ rest) ≡ ok (bytes, rest)
unfolding parse_length_delimited write_length_delimited
parse-write_length_delimited bytes rest h =
    rw append_assoc
      (rw (parse-write_var_uint (length bytes) (bytes ++ rest) h) (parse_bytes_lem bytes rest))

pub parse-write_string :
    (str rest : Bytes)
    → IsU64 (length str)
    → parse_string (write_string str ++ rest) ≡ ok (str, rest)
unfolding parse_string write_string
parse-write_string str rest h = parse-write_length_delimited str rest h

length-to_bytes : (n v : ℕ) → length (to_bytes n v) ≡ n
unfolding to_bytes
length-to_bytes zero v = refl
length-to_bytes (suc n) v = ap suc (length-to_bytes n (v / 256))

of_bytes-to_bytes : (n v : ℕ) → v < 256 ^ n → of_bytes (to_bytes n v) ≡ v
unfolding to_bytes of_bytes
of_bytes-to_bytes zero v h = omega arith
of_bytes-to_bytes (suc n) v h = omega (arith, pow-suc 256 n, of_bytes-to_bytes n (v / 256))

parse_bytes-to_bytes :
    (n v : ℕ) (rest : Bytes) → parse_bytes n (to_bytes n v ++ rest) ≡ ok (to_bytes n v, rest)
parse_bytes-to_bytes n v rest =
    ap (λ (k : ℕ). parse_bytes k (to_bytes n v ++ rest)) (sym (length-to_bytes n v))
    ∙ parse_bytes_lem _ rest

-- Fixed-width integers are read back from what is written, in both widths.
pub parse-write_fixed :
    (v rest : ℕ) (more : Bytes)
    → IsU64 v
    → IsU32 rest
    → (parse_fixed64 (write_fixed64 v ++ more) ≡ ok (v, more))
      × (parse_fixed32 (write_fixed32 rest ++ more) ≡ ok (rest, more))
unfolding parse_fixed64 parse_fixed32 write_fixed64 write_fixed32
parse-write_fixed v w more hv hw = (
  rw (parse_bytes-to_bytes 8 v more) (rw (of_bytes-to_bytes 8 v hv)),
  rw (parse_bytes-to_bytes 4 w more) (rw (of_bytes-to_bytes 4 w hw)),
)
