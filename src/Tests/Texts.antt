-- ===== src/Tests/Texts.antt =====
-- Runs of the UTF-8 functions at concrete texts.
use x.Base.{◌≡◌, arith, true, [], ◌∷◌, ◌++◌, none, some, ok}
use x.Utf.{next_codepoint, encode_codepoint, is_valid_utf8}
use x.Utf.RoundTrip.{next_codepoint-encode_codepoint}
use x.Utf.Validity.{encoded, is_valid_utf8-stuck, is_valid_utf8-encoded}

-- The euro sign.
next_codepoint-encode_codepoint_example :
    next_codepoint (encode_codepoint 8364 ++ (9 ∷ [])) ≡ ok (8364, 9 ∷ [])
next_codepoint-encode_codepoint_example =
    next_codepoint-encode_codepoint 8364 (9 ∷ []) (omega arith)

is_valid_utf8-stuck_example : is_valid_utf8 5 (130 ∷ 172 ∷ []) ≡ none
is_valid_utf8-stuck_example = is_valid_utf8-stuck 5 130 (172 ∷ []) (omega arith) (omega arith)

is_valid_utf8-encoded_example : is_valid_utf8 4 (encoded (8364 ∷ 228 ∷ 65 ∷ [])) ≡ some true
is_valid_utf8-encoded_example =
    is_valid_utf8-encoded (8364 ∷ 228 ∷ 65 ∷ []) (omega arith, (omega arith, (omega arith, tt)))
