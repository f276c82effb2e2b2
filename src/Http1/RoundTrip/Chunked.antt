-- ===== src/Http1/RoundTrip/Chunked.antt =====
-- src/xzero/http/http1: a request with chunked content, written and read.
use x.Base.{
  ℕ, suc, ◌+◌, ◌%◌, ◌^◌, ◌≡◌, refl, ap, ◌∙◌, arith, true, List, [], ◌∷◌, ◌++◌, append_assoc,
  append-nil, Bytes, length, none, some, codes, ltb,
}
use x.Http1.Chars.{cr, lf, is_token, is_text}
use x.Http1.State.{
  Parser, HttpVersion, request, new_parser, begin_request, header_end, header_name_begin,
  content_begin,
}
use x.Http1.Parser.Headers.{content_expected}
use x.Http1.Parser.Loop.{round, parse_fragment}
use x.Http1.Parser.Ends.{new_parser-IsValid}
use x.Http1.Generator.{
  Fields, HttpRequestInfo, Generator, new_generator, Outcome, returns, ◌>>=◌, push, write, chunk_of,
  generate_request_head, generate_headers, generate_body, generate_trailer, trailer_line,
  content_line, header_lines, flush_buffer,
}
use x.Http1.RoundTrip.Leads.{Reaches, Reaches-trans, advance-Reaches}
use x.Http1.RoundTrip.Line.{begun, request_line, request_line-Reaches}
use x.Http1.RoundTrip.Header.{IsName, IsValue, noted}
use x.Http1.RoundTrip.Head.{told_of, line_of, chunked-Notes, fields-Reaches}
use x.Http1.RoundTrip.Finish.{told, Finishes, ◌finally◌}
use x.Http1.RoundTrip.Written.{
  request_of, headed, flush_buffer-IsFlushed, generate_request_head_lem,
}
use x.Http1.RoundTrip.Sized.{IsReadable}
use x.Http1.RoundTrip.Chunk.{
  chunks_of, chunks_told, last_chunk, AreShort, first-Finishes, content_begin-Reaches,
  chunks-StartsHex, chunks-Finishes,
}

-- `generateBody` of one part of the content after the other.
abbrev pub generate_bodies : Generator → List Bytes → Outcome
generate_bodies g [] = returns g
generate_bodies g (chunk ∷ chunks) = generate_body g chunk >>= λ g'. generate_bodies g' chunks

-- The calls for a message: its head, its content, and what completes it.
abbrev pub send : HttpRequestInfo → List Bytes → Outcome
send r chunks = do
  g ← generate_request_head new_generator r
  g' ← generate_bodies g chunks
  returns (generate_trailer g' [])

-- A generator that wrote the chunks behind `before`.
record IsSent (before : Bytes) (chunks : List Bytes) (g : Generator) : Type 0 where
  chunked : g.chunked ≡ true
  buffer : g.buffer ≡ []
  written : (rest : Bytes) → g.written ++ last_chunk rest ≡ before ++ chunks_of chunks rest

body-chunk :
    (g : Generator) (c : ℕ) (cs : Bytes)
    → g.chunked ≡ true
    → generate_body g (c ∷ cs) ≡ returns (write g (chunk_of (c ∷ cs)))
unfolding generate_body
body-chunk g c cs h =
    let some_left : ltb 0 (suc (length cs)) ≡ true = ground arith in
    rw (h, some_left, generate_body) refl

body-empty : (g : Generator) → g.chunked ≡ true → generate_body g [] ≡ returns g
unfolding generate_body
body-empty g h = rw (h, generate_body) refl

bodies-IsSent :
    (g : Generator) (chunks : List Bytes)
    → g.chunked ≡ true
    → g.buffer ≡ []
    → (f : Generator) × (generate_bodies g chunks ≡ returns f) × IsSent g.written chunks f
bodies-IsSent g [] h b = (g, refl, record { chunked = h; buffer = b; written = λ rest. refl })
bodies-IsSent g ([] ∷ chunks) h b =
    let (f, e, sent) = bodies-IsSent g chunks h b in
    (
      f,
      rw (body-empty g h) e,
      record { chunked = sent.chunked; buffer = sent.buffer; written = sent.written },
    )
bodies-IsSent g ((c ∷ cs) ∷ chunks) h b =
    let (f, e, sent) = bodies-IsSent (write g (chunk_of (c ∷ cs))) chunks h b in
    (
      f,
      rw (body-chunk g c cs h) e,
      record {
        chunked = sent.chunked;
        buffer = sent.buffer;
        written = λ rest.
            sent.written rest ∙ append_assoc g.written (chunk_of (c ∷ cs)) (chunks_of chunks rest);
      },
    )

abbrev last_bytes : Bytes
last_bytes = b'0' ∷ cr ∷ lf ∷ cr ∷ lf ∷ []

trailer-flush :
    (g : Generator) → g.chunked ≡ true → generate_trailer g [] ≡ flush_buffer (push g last_bytes)
unfolding generate_trailer
trailer-flush g h = rw (h, generate_trailer) refl

trailer-written :
    (g : Generator) (rest : Bytes)
    → g.chunked ≡ true
    → g.buffer ≡ []
    → (generate_trailer g []).written ++ rest ≡ g.written ++ last_chunk rest
trailer-written g rest h b =
    let f = flush_buffer-IsFlushed (push g last_bytes) in
    ap (λ (o : Generator). o.written ++ rest) (trailer-flush g h)
    ∙ ap (λ bs. bs ++ rest) (f.written ∙ ap (λ bs. g.written ++ (bs ++ last_bytes)) b)
    ∙ append_assoc g.written last_bytes rest

abbrev pub chunked_request : Bytes → Bytes → HttpVersion → Fields → List Bytes → Bytes → Bytes
chunked_request method uri v headers chunks rest = request_line method uri v (
    header_lines headers
    ++ line_of (codes "Transfer-Encoding") (codes "chunked") (cr ∷ lf ∷ chunks_of chunks rest))

chunked_head :
    (v : HttpVersion) (method uri : Bytes) (headers : Fields) (chunks : List Bytes) (rest : Bytes)
    → (headed method uri v headers none).buffer ++ chunks_of chunks rest
      ≡ chunked_request method uri v headers chunks rest
unfolding generate_headers trailer_line content_line
chunked_head v method uri headers chunks rest = simp append_assoc

chunked_fields :
    (v : HttpVersion) (method uri : Bytes) (headers : Fields)
    → let g = headed method uri v headers none in (g.chunked ≡ true) × (g.written ≡ [])
unfolding generate_headers
chunked_fields v method uri headers = (refl, refl)

encoding-IsName : IsName (codes "Transfer-Encoding")
unfolding is_token
encoding-IsName = ground arith

chunked-IsValue : IsValue (codes "chunked")
unfolding is_text
chunked-IsValue = ground arith

content-Finishes :
    (p : Parser) (chunks : List Bytes) (rest : Bytes)
    → AreShort chunks
    → Finishes
        (record p { state = header_name_begin; chunked = true; content_length = none })
        (cr ∷ lf ∷ chunks_of chunks rest)
        (header_end ∷ chunks_told chunks)
        rest
unfolding round content_expected is_token
content-Finishes p chunks rest h =
    let start : Reaches
        (record p { state = header_name_begin; chunked = true; content_length = none })
        (cr ∷ lf ∷ chunks_of chunks rest) (header_end ∷ [])
        (record p { state = content_begin; chunked = true; content_length = none })
        (chunks_of chunks rest) =
      advance-Reaches 2 (λ n. ((n + 1) % 2 ^ 64 + 1) % 2 ^ 64) (λ n. refl) in
    let hex = chunks-StartsHex chunks rest in
    start
    finally content_begin-Reaches (record p { content_length = none }) (chunks_of chunks rest) hex
    finally first-Finishes (record p { chunked = true; content_length = none })
        (chunks_of chunks rest) rest (chunks_told chunks) hex
        (chunks-Finishes (record p { chunked = true }) chunks rest h)

-- A readable request (method and URI not empty, of token characters and of printable ones; version 0.9,
-- 1.0 or 1.1; fields with names and values that are not empty, of token characters and of text that does
-- not begin with white space, none of them Content-Length or Transfer-Encoding), without trailers and
-- without a content length, is written without an exception by a new generator, with its content in any
-- number of parts, each below 2 ^ 62 bytes. If its bytes are parsed by a new parser, whatever follows
-- them, then the listener is told of the request, of each field in order but the transfer encoding, of
-- the end of the head, of each part that is not empty, in order, and of the end of the message; and what
-- follows the bytes is left.
pub parse-send :
    (method uri : Bytes) (v : HttpVersion) (headers : Fields) (chunks : List Bytes) (rest : Bytes)
    → IsReadable method uri v headers
    → AreShort chunks
    → (g : Generator) × (send (request_of method uri v headers none) chunks ≡ returns g)
      × (told (parse_fragment (new_parser request) (g.written ++ rest))
          ≡ some (
            rest,
            begin_request method uri v ∷ told_of headers ++ (header_end ∷ chunks_told chunks),
          ))
parse-send method uri v headers chunks rest r short =
    let head = headed method uri v headers none in
    let f = flush_buffer-IsFlushed head in
    let (c, w) = chunked_fields v method uri headers in
    let (g, e, sent) = bodies-IsSent (flush_buffer head) chunks (f.chunked ∙ c) f.buffer in
    let tail = cr ∷ lf ∷ chunks_of chunks rest in
    let p = begun (new_parser request) method uri v in
    let lines =
      header_lines headers ++ line_of (codes "Transfer-Encoding") (codes "chunked") tail in
    let written : (generate_trailer g []).written ++ rest
        ≡ chunked_request method uri v headers chunks rest =
      trailer-written g rest sent.chunked sent.buffer
      ∙ sent.written rest
      ∙ ap (λ bs. bs ++ chunks_of chunks rest) (f.written ∙ ap (λ bs. bs ++ head.buffer) w)
      ∙ chunked_head v method uri headers chunks rest in
    let first : Reaches (new_parser request) (chunked_request method uri v headers chunks rest)
        (begin_request method uri v ∷ []) p lines =
      request_line-Reaches (new_parser request) method uri v lines r.method_some r.method_token
        r.uri_some r.uri_printed r.version in
    let fields : Reaches p lines (told_of headers ++ []) (noted (λ o. o) (λ c. true) [] p) tail =
      fields-Reaches (λ o. o) (λ c. true) [] (codes "Transfer-Encoding") (codes "chunked") tail p
        headers r.plain encoding-IsName chunked-IsValue refl chunked-Notes in
    let last : Finishes (noted (λ o. o) (λ c. true) [] p) tail (header_end ∷ chunks_told chunks)
        rest =
      content-Finishes (noted (λ o. o) (λ c. true) [] p) chunks rest short in
    let all = Reaches-trans first (rw (append-nil (told_of headers)) at fields) finally last in
    (
      generate_trailer g [],
      rw (generate_request_head_lem v method uri headers none r.version, e) refl,
      rw written (all.ends 0 (new_parser-IsValid request)),
    )
