-- ===== src/Tests/Numbers.antt =====
-- Runs of the integers of the Raft wire format at concrete values.
use x.Base.{◌≡◌, arith, [], ◌++◌, ok}
use x.Wire.{write_var_sint32, parse_var_sint32}
use x.Wire.Signed.{parse-write_var_sint32}

-- 2^30 comes back as 2^30 - 2^31.
parse-write_var_sint32_example :
    parse_var_sint32 (write_var_sint32 1073741824 ++ []) ≡ ok (3221225472, [])
parse-write_var_sint32_example = parse-write_var_sint32 1073741824 [] (omega arith)
