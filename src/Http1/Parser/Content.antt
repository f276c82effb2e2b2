-- ===== src/Http1/Parser/Content.antt =====
-- src/xzero/http/http1/Parser.cc: the rounds in the content.
use x.Base.{
  [], ◌∷◌, ℕ, ◌-◌, min, not, ◌&&◌, Bytes, length, take, ltb, leb, ◌==◌, if◌then◌else◌, Option, none,
  some,
}
use x.Http1.Chars.{cr, lf, is_xdigit, hex_into}
use x.Http1.State.{
  Parser, become, message_begin, content, content_endless, content_chunk_size_begin,
  content_chunk_size, content_chunk_lf1, content_chunk_body, content_chunk_lf2, content_chunk_cr3,
  body, message_end,
}
use x.Http1.Parser.Step.{go, Round, goes, stops, refuse, with_number}

unfoldable pub content_begin_round : Parser → Round
content_begin_round p = go 0 (
    become p (
      if p.chunked
      then content_chunk_size_begin
      else elim p.content_length [ some n ↦ content | none ↦ content_endless ]))

unfoldable pub content_endless_round : Parser → Bytes → Round
content_endless_round p src = goes (length src) p (body src ∷ [])

-- What is left after the content that is there.
abbrev pub pass_content : Parser → ℕ → Bytes → Parser
pass_content p left src = record p { content_length = some (left - min left (length src)) }

-- The content, of which `left` bytes are to come. A negative length never gets here.
unfoldable pub content_left_round : Option ℕ → Parser → Bytes → Round
content_left_round none p src = refuse p
content_left_round (some left) p src =
    let n = min left (length src) in
    let part = body (take n src) in
    if leb left (length src)
    then stops n (become (pass_content p left src) message_begin) (part ∷ message_end ∷ [])
    else goes n (pass_content p left src) (part ∷ [])

unfoldable pub content_round : Parser → Bytes → Round
unfolding content_left_round
content_round p src = content_left_round p.content_length p src

-- The length as it stands in the middle of a chunk's size.
abbrev pub length_of : Option ℕ → ℕ
length_of none = 0
length_of (some n) = n

unfoldable pub chunk_size_round : Parser → ℕ → Round
chunk_size_round p b =
    let v = length_of p.content_length in
    if b == cr
    then go 1 (become p content_chunk_lf1)
    else if leb b'0' b && leb b b'9'
    then with_number (hex_into v 0 b b'0') (λ n. go 1 (record p { content_length = some n }))
    else if leb b'a' b && leb b b'f'
    then with_number (hex_into v 10 b b'a') (λ n. go 1 (record p { content_length = some n }))
    else if leb b'A' b && leb b b'F'
    then with_number (hex_into v 10 b b'A') (λ n. go 1 (record p { content_length = some n }))
    else refuse p

-- It falls through to `CONTENT_CHUNK_SIZE`.
unfoldable pub chunk_size_begin_round : Parser → ℕ → Round
unfolding chunk_size_round
chunk_size_begin_round p b =
    if not (is_xdigit b)
    then refuse p
    else chunk_size_round (record p { state = content_chunk_size; content_length = some 0 }) b

unfoldable pub chunk_lf1_round : Parser → ℕ → Round
chunk_lf1_round p b =
    if b == lf
    then go 1 (
        become p
          (if length_of p.content_length == 0 then content_chunk_cr3 else content_chunk_body))
    else refuse p

unfoldable pub chunk_body_round : Parser → ℕ → Bytes → Round
chunk_body_round p b src =
    let left = length_of p.content_length in
    if ltb 0 left
    then goes (min left (length src)) (pass_content p left src)
        (body (take (min left (length src)) src) ∷ [])
    else if b == cr
    then go 1 (become p content_chunk_lf2)
    else refuse p

unfoldable pub chunk_lf3_round : Parser → ℕ → Round
chunk_lf3_round p b =
    if b == lf then stops 1 (become p message_begin) (message_end ∷ []) else refuse p
