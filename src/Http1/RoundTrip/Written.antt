-- ===== src/Http1/RoundTrip/Written.antt =====
-- src/xzero/http/http1/Generator.cc: the bytes of a request.
use x.Base.{
  ℕ, ◌+◌, ◌%◌, ◌^◌, ◌<◌, ◌≤◌, ◌≡◌, refl, sym, ap, ◌∙◌, arith, true, false, [], ◌∷◌, ◌++◌,
  append_assoc, append-nil, Bytes, length, Option, some, codes, Bool-cases, inl, inr, ltb, leb,
  ltb-false→ge,
}
use x.Http1.Chars.{cr, lf, sp}
use x.Http1.State.{HttpVersion, unknown, version_0_9, version_1_0, version_1_1, version_2_0}
use x.Http1.Numeral.{decimal}
use x.Http1.Generator.{
  Fields, HttpRequestInfo, Generator, new_generator, returns, push, write, crlf, flush_buffer,
  generate_request_line, header_lines, trailer_line, content_line, generate_headers, remaining,
  generate_body, generate_request_head, generate_request,
}
use x.Http1.RoundTrip.Line.{IsWritten, version_text, request_line}
use x.Http1.RoundTrip.Head.{line_of}

-- A request without trailers.
abbrev pub request_of : Bytes → Bytes → HttpVersion → Fields → Option ℕ → HttpRequestInfo
request_of method uri v headers size = record {
  info = record { version = v; content_length = size; headers = headers; trailers = [] };
  unparsed_method = method;
  unparsed_uri = uri;
}

nil_of_length : (bs : Bytes) → length bs ≤ 0 → bs ≡ []
nil_of_length [] h = refl
nil_of_length (b ∷ bs) h = absurd (omega arith)

-- What a flush leaves.
pub record IsFlushed (g f : Generator) : Type 0 where
  pub written : f.written ≡ g.written ++ g.buffer
  pub chunked : f.chunked ≡ g.chunked
  pub length : f.content_length ≡ g.content_length
  pub actual : f.actual_content_length ≡ g.actual_content_length
  pub buffer : f.buffer ≡ []

pub flush_buffer-IsFlushed : (g : Generator) → IsFlushed g (flush_buffer g)
unfolding flush_buffer
flush_buffer-IsFlushed g = elim (Bool-cases (ltb 0 (length g.buffer))) [
  | inl e ↦
      rw e (record { written = refl; chunked = refl; length = refl; actual = refl; buffer = refl })
  | inr e ↦
      let none_left = nil_of_length g.buffer (ltb-false→ge 0 (length g.buffer) e) in
      rw e (record {
        written = sym (append-nil g.written) ∙ ap (λ bs. g.written ++ bs) (sym none_left);
        chunked = refl;
        length = refl;
        actual = refl;
        buffer = none_left;
      })
]

request_line-written :
    (v : HttpVersion) (method uri : Bytes) (headers : Fields) (size : Option ℕ)
    → IsWritten v
    → generate_request_line new_generator (request_of method uri v headers size)
      ≡ returns (push (push new_generator (method ++ (sp ∷ uri))) (version_text v ++ crlf))
unfolding generate_request_line
request_line-written version_0_9 method uri headers size h = refl
request_line-written version_1_0 method uri headers size h = refl
request_line-written version_1_1 method uri headers size h = refl
request_line-written unknown method uri headers size h = absurd h
request_line-written version_2_0 method uri headers size h = absurd h

-- The generator behind a head.
abbrev pub headed : Bytes → Bytes → HttpVersion → Fields → Option ℕ → Generator
headed method uri v headers size =
    generate_headers (push (push new_generator (method ++ (sp ∷ uri))) (version_text v ++ crlf))
      (request_of method uri v headers size).info false

pub generate_request_head_lem :
    (v : HttpVersion) (method uri : Bytes) (headers : Fields) (size : Option ℕ)
    → IsWritten v
    → generate_request_head new_generator (request_of method uri v headers size)
      ≡ returns (flush_buffer (headed method uri v headers size))
unfolding generate_request_head
generate_request_head_lem v method uri headers size h =
    rw (request_line-written v method uri headers size h) refl

-- The length of the content, and the content, behind a head.
abbrev pub sized_request : Bytes → Bytes → HttpVersion → Fields → Bytes → Bytes → Bytes
sized_request method uri v headers chunk rest = request_line method uri v (
    header_lines headers
    ++ line_of (codes "Content-Length") (decimal (length chunk)) (cr ∷ lf ∷ (chunk ++ rest)))

sized_body :
    (g : Generator) (chunk : Bytes)
    → g.chunked ≡ false
    → g.content_length ≡ length chunk
    → g.actual_content_length ≡ 0
    → length chunk < 2 ^ 31
    → (f : Generator) × (generate_body g chunk ≡ returns f) × (f.written ≡ g.written ++ chunk)
unfolding generate_body
sized_body g chunk c l a h =
    let fits : leb (length chunk) (remaining g) ≡ true = ground arith in
    (
      record (write g chunk) {
        actual_content_length = (g.actual_content_length + length chunk) % 2 ^ 64;
      },
      rw (c, fits, generate_body) refl,
      refl,
    )

-- The bytes of a head, in front of what follows.
sized_head :
    (v : HttpVersion) (method uri : Bytes) (headers : Fields) (chunk rest : Bytes)
    → ((headed method uri v headers (some (length chunk))).buffer ++ chunk) ++ rest
      ≡ sized_request method uri v headers chunk rest
unfolding generate_headers trailer_line content_line
sized_head v method uri headers chunk rest = simp append_assoc

sized_fields :
    (v : HttpVersion) (method uri : Bytes) (headers : Fields) (n : ℕ)
    → let g = headed method uri v headers (some n) in
      (g.chunked ≡ false)
      × (g.content_length ≡ n)
      × (g.actual_content_length ≡ 0)
      × (g.written ≡ [])
unfolding generate_headers
sized_fields v method uri headers n = (refl, refl, refl, refl)

pub generate_request-written :
    (v : HttpVersion) (method uri : Bytes) (headers : Fields) (chunk : Bytes)
    → IsWritten v
    → length chunk < 2 ^ 31
    → (g : Generator) × (generate_request new_generator
          (request_of method uri v headers (some (length chunk)))
          chunk
        ≡ returns g)
      × ((rest : Bytes) → g.written ++ rest ≡ sized_request method uri v headers chunk rest)
unfolding generate_request
generate_request-written v method uri headers chunk h small =
    let size = some (length chunk) in
    let g = headed method uri v headers size in
    let f = flush_buffer-IsFlushed g in
    let (c, l, a, w) = sized_fields v method uri headers (length chunk) in
    let (out, e, written) =
      sized_body (flush_buffer g) chunk (f.chunked ∙ c) (f.length ∙ l) (f.actual ∙ a) small in
    (
      out,
      rw (generate_request_head_lem v method uri headers size h) e,
      λ rest.
          ap (λ bs. bs ++ rest)
            (written ∙ ap (λ bs. bs ++ chunk) (f.written ∙ ap (λ bs. bs ++ g.buffer) w))
          ∙ sized_head v method uri headers chunk rest,
    )
