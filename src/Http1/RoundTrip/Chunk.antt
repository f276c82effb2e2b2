-- ===== src/Http1/RoundTrip/Chunk.antt =====
-- src/xzero/http/http1: chunked content, from its first byte to the end of the message.
use x.Base.{
  ℕ, suc, ◌+◌, ◌-◌, ◌*◌, ◌%◌, ◌^◌, ◌<◌, ◌≡◌, refl, sym, ap, ◌∙◌, arith, true, false, List, [], ◌∷◌,
  ◌++◌, append_assoc, Bytes, length, min, ltb, ◌==◌, All, length-append, take-length-append,
  drop-length-append, if◌then◌else◌,
}
use x.Http1.Chars.{cr, lf, is_xdigit, hex_into}
use x.Http1.State.{
  Parser, become, Event, body, message_end, message_begin, content_begin, content_chunk_size_begin,
  content_chunk_body, content_chunk_lf3,
}
use x.Http1.Numeral.{hexadecimal}
use x.Http1.Parser.Content.{chunk_size_round, chunk_size_begin_round}
use x.Http1.Parser.Loop.{round, parse_fragment, proceed, run}
use x.Http1.Parser.Progress.{IsValid}
use x.Http1.Parser.Ends.{run-eq-run, parse_fragment-Enough}
use x.Http1.Generator.{chunk_of}
use x.Http1.RoundTrip.Leads.{Reaches, ◌then◌, Reaches-trans, advance-Reaches, counted}
use x.Http1.RoundTrip.Finish.{told, Finishes, ◌finally◌, stops-Finishes}
use x.Http1.RoundTrip.Hexadecimal.{at_size, numeral-Reaches, StartsHex, numeral-StartsHex}

-- The content of a chunk, behind its size.
data-Reaches :
    (p : Parser) (c : ℕ) (cs rest : Bytes)
    → Reaches
        (at_size p (suc (length cs)))
        (cr ∷ lf ∷ c ∷ (cs ++ (cr ∷ lf ∷ rest)))
        (body (c ∷ cs) ∷ [])
        (at_size p 0)
        rest
unfolding round
data-Reaches p c cs rest =
    let left = suc (length cs) in
    let tail = cr ∷ lf ∷ rest in
    let some_left : ltb 0 left ≡ true = ground arith in
    let nonzero : (left == 0) ≡ false = ground arith in
    let all : min left (suc (length (cs ++ tail))) ≡ left = omega (arith, length-append cs tail) in
    let none_left : left - left ≡ 0 = omega arith in
    let size : Reaches (at_size p left) (cr ∷ lf ∷ c ∷ (cs ++ tail)) []
        (become (at_size p left) content_chunk_body) (c ∷ (cs ++ tail)) =
      advance-Reaches 2 (λ n. ((n + 1) % 2 ^ 64 + 1) % 2 ^ 64) (λ n. rw nonzero refl) in
    let part : Reaches (become (at_size p left) content_chunk_body) (c ∷ (cs ++ tail))
        (body (c ∷ cs) ∷ []) (become (at_size p 0) content_chunk_body) tail =
      advance-Reaches 1 (λ n. (n + left) % 2 ^ 64)
        (λ n.
          rw
            (
              some_left,
              all,
              none_left,
              take-length-append (c ∷ cs) tail,
              drop-length-append (c ∷ cs) tail,
            )
            refl) in
    let end : Reaches (become (at_size p 0) content_chunk_body) tail [] (at_size p 0) rest =
      advance-Reaches 2 (λ n. ((n + 1) % 2 ^ 64 + 1) % 2 ^ 64) (λ n. refl) in
    size then Reaches-trans part end

chunk_of-append :
    (chunk rest : Bytes)
    → chunk_of chunk ++ rest ≡ hexadecimal (length chunk) ++ (cr ∷ lf ∷ (chunk ++ (cr ∷ lf ∷ rest)))
chunk_of-append chunk rest = simp append_assoc

-- A chunk as the generator writes it.
chunk-Reaches :
    (p : Parser) (c : ℕ) (cs rest : Bytes)
    → suc (length cs) < 2 ^ 62
    → Reaches (at_size p 0) (chunk_of (c ∷ cs) ++ rest) (body (c ∷ cs) ∷ []) (at_size p 0) rest
unfolding hexadecimal
chunk-Reaches p c cs rest h =
    let content = cr ∷ lf ∷ c ∷ (cs ++ (cr ∷ lf ∷ rest)) in
    rw (chunk_of-append (c ∷ cs) rest)
      (numeral-Reaches p 64 (suc (length cs)) content (omega arith) h then data-Reaches p c cs rest)

-- The last chunk, which is empty, with no trailers behind it.
abbrev pub last_chunk : Bytes → Bytes
last_chunk rest = b'0' ∷ cr ∷ lf ∷ cr ∷ lf ∷ rest

last-Finishes :
    (p : Parser) (rest : Bytes) → Finishes (at_size p 0) (last_chunk rest) (message_end ∷ []) rest
unfolding round hex_into
last-Finishes p rest =
    let line : Reaches (at_size p 0) (last_chunk rest) [] (become (at_size p 0) content_chunk_lf3)
        (lf ∷ rest) =
      advance-Reaches 4 (λ n. ((((n + 1) % 2 ^ 64 + 1) % 2 ^ 64 + 1) % 2 ^ 64 + 1) % 2 ^ 64)
        (λ n. refl) in
    line
    finally stops-Finishes (become (at_size p 0) content_chunk_lf3)
        (become (at_size p 0) message_begin) lf 1 rest rest (message_end ∷ []) (λ n. refl) refl

-- The chunks that are written, without the empty ones, for which nothing is.
abbrev pub chunks_of : List Bytes → Bytes → Bytes
chunks_of [] rest = last_chunk rest
chunks_of ([] ∷ chunks) rest = chunks_of chunks rest
chunks_of ((c ∷ cs) ∷ chunks) rest = chunk_of (c ∷ cs) ++ chunks_of chunks rest

abbrev pub chunks_told : List Bytes → List Event
chunks_told [] = message_end ∷ []
chunks_told ([] ∷ chunks) = chunks_told chunks
chunks_told ((c ∷ cs) ∷ chunks) = body (c ∷ cs) ∷ chunks_told chunks

abbrev pub AreShort : List Bytes → Type 0
AreShort chunks = All (λ chunk. length chunk < 2 ^ 62) chunks

pub chunks-Finishes :
    (p : Parser) (chunks : List Bytes) (rest : Bytes)
    → AreShort chunks
    → Finishes (at_size p 0) (chunks_of chunks rest) (chunks_told chunks) rest
chunks-Finishes p [] rest h = last-Finishes p rest
chunks-Finishes p ([] ∷ chunks) rest (h, hs) = chunks-Finishes p chunks rest hs
chunks-Finishes p ((c ∷ cs) ∷ chunks) rest (h, hs) =
    chunk-Reaches p c cs (chunks_of chunks rest) h finally chunks-Finishes p chunks rest hs

pub chunks-StartsHex : (chunks : List Bytes) (rest : Bytes) → StartsHex (chunks_of chunks rest)
unfolding is_xdigit hexadecimal
chunks-StartsHex [] rest = refl
chunks-StartsHex ([] ∷ chunks) rest = chunks-StartsHex chunks rest
chunks-StartsHex ((c ∷ cs) ∷ chunks) rest =
    rw (chunk_of-append (c ∷ cs) (chunks_of chunks rest)) (numeral-StartsHex 64 (suc (length cs)) _)

-- The first chunk is begun with the same round as the later ones.
begin_round :
    (p : Parser) (b : ℕ)
    → is_xdigit b ≡ true
    → chunk_size_begin_round p b ≡ chunk_size_round (at_size p 0) b
unfolding chunk_size_begin_round
begin_round p b h = rw (h, chunk_size_begin_round) refl

pub first-Finishes :
    (p : Parser) (src rest : Bytes) (es : List Event)
    → StartsHex src
    → Finishes (at_size p 0) src es rest
    → Finishes (become p content_chunk_size_begin) src es rest
unfolding parse_fragment run round
first-Finishes p [] rest es h f = absurd h
first-Finishes p (b ∷ src) rest es h f = record {
  ends = λ n v.
      let first = counted n (become p content_chunk_size_begin) in
      let later = counted n (at_size p 0) in
      let w : IsValid later = record { next = v.next; null = v.null; expects = tt } in
      let fuel = 4 * suc (length src) + 4 in
      let same : parse_fragment first (b ∷ src) ≡ parse_fragment later (b ∷ src) =
        run-eq-run fuel (suc fuel) first (b ∷ src) v (parse_fragment-Enough first (b ∷ src))
          (omega arith)
        ∙ ap (proceed (run fuel) (b ∷ src)) (begin_round first b h)
        ∙ sym (
            run-eq-run fuel (suc fuel) later (b ∷ src) w (parse_fragment-Enough later (b ∷ src))
              (omega arith)) in
      ap told same ∙ f.ends n w;
}

pub content_begin-Reaches :
    (p : Parser) (src : Bytes)
    → StartsHex src
    → Reaches
        (record p { state = content_begin; chunked = true })
        src
        []
        (record p { state = content_chunk_size_begin; chunked = true })
        src
unfolding round
content_begin-Reaches p [] h = absurd h
content_begin-Reaches p (b ∷ src) h = advance-Reaches 1 (λ n. (n + 0) % 2 ^ 64) (λ n. refl)
