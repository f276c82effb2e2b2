-- ===== src/Http1/Chars.antt =====
-- src/xzero/http/http1/Parser.cc: the classes of characters, in the C locale, and the numbers that
-- are read from digits. A byte from 0x80 on is a negative `char`.
use x.Base.{
  ℕ, zero, suc, ◌+◌, ◌-◌, ◌*◌, ◌^◌, Bool, true, false, not, ◌&&◌, ◌||◌, [], ◌∷◌, Bytes, ltb, leb,
  ◌==◌, if◌then◌else◌, Option, none, some, Outcome, ok, raise, undefined,
}

abbrev pub cr : ℕ
cr = 0x0d

abbrev pub lf : ℕ
lf = 0x0a

abbrev pub sp : ℕ
sp = 0x20

abbrev pub ht : ℕ
ht = 0x09

unfoldable pub is_char : ℕ → Bool
is_char b = leb b 127

unfoldable pub is_control : ℕ → Bool
is_control b = leb b 31 || b == 127

-- The `case` labels of `isSeparator`.
separators : Bytes
separators =
    b'(' ∷ b')' ∷ b'<' ∷ b'>' ∷ b'@' ∷ b',' ∷ b';' ∷ b':' ∷ b'\\' ∷ b'"' ∷ b'/' ∷ b'[' ∷ b']' ∷ b'?'
    ∷ b'=' ∷ b'{' ∷ b'}' ∷ sp ∷ ht ∷ []

member : ℕ → Bytes → Bool
member b [] = false
member b (c ∷ cs) = b == c || member b cs

unfoldable pub is_separator : ℕ → Bool
unfolding separators member
is_separator b = member b separators

unfoldable pub is_token : ℕ → Bool
unfolding is_char is_control is_separator
is_token b = is_char b && not (is_control b || is_separator b)

unfoldable pub is_text : ℕ → Bool
unfolding is_control
is_text b = not (is_control b) || b == sp || b == ht

-- `std::isprint`, `std::isdigit`, `std::isxdigit`.
unfoldable pub is_print : ℕ → Bool
is_print b = leb 0x20 b && leb b 0x7e

unfoldable pub is_digit : ℕ → Bool
is_digit b = leb b'0' b && leb b b'9'

unfoldable pub is_xdigit : ℕ → Bool
unfolding is_digit
is_xdigit b = is_digit b || (leb b'a' b && leb b b'f') || (leb b'A' b && leb b b'F')

-- `v * 10 + c - '0'` in an `int`; an overflow has no meaning.
unfoldable pub digit_into : ℕ → ℕ → Outcome ℕ
digit_into v c = if ltb (v * 10 + c) (2 ^ 31) then ok (v * 10 + c - b'0') else raise undefined

-- `v * 16 + extra + c - base` in an `ssize_t`.
unfoldable pub hex_into : ℕ → ℕ → ℕ → ℕ → Outcome ℕ
hex_into v extra c base =
    if ltb (v * 16 + extra + c) (2 ^ 63) then ok (v * 16 + extra + c - base) else raise undefined

-- The digits of `BufferBase::toInt`, up to the first other character.
unfoldable pub to_int_digits : ℕ → Bytes → Outcome ℕ
to_int_digits val [] = ok val
to_int_digits val (c ∷ cs) = elim (is_digit c) [
  | false ↦ ok val
  | true ↦ elim (ltb (val * 10 + (c - b'0')) (2 ^ 31)) [
    | true ↦ to_int_digits (val * 10 + (c - b'0')) cs
    | false ↦ raise undefined
  ]
]

-- `toInt`, as a content length: `none` is a negative one, of which only the sign is ever looked at.
unfoldable pub to_int : Bytes → Outcome (Option ℕ)
unfolding to_int_digits
to_int [] = ok (some 0)
to_int (c ∷ cs) =
    if c == b'-'
    then elim (to_int_digits 0 cs) [
      | raise f ↦ raise f
      | ok zero ↦ ok (some 0)
      | ok (suc n) ↦ ok none
    ]
    else elim (to_int_digits 0 (if c == b'+' then cs else c ∷ cs)) [
      | raise f ↦ raise f
      | ok n ↦ ok (some n)
    ]

fold : ℕ → ℕ
fold c = if leb b'A' c && leb c b'Z' then c + 32 else c

-- `iequals`.
unfoldable pub iequals : Bytes → Bytes → Bool
unfolding fold
iequals [] [] = true
iequals (x ∷ xs) (y ∷ ys) = fold x == fold y && iequals xs ys
iequals _ _ = false
