-- ===== src/Http1/RoundTrip/Sized.antt =====
-- src/xzero/http/http1: a request whose content length is known, written and read.
use x.Base.{
  ◌-◌, ℕ, suc, ◌+◌, ◌%◌, ◌^◌, ◌<◌, ◌≡◌, refl, arith, true, false, List, [], ◌∷◌, ◌++◌, Bytes,
  length, min, some, codes, leb, ltb, length-append, take-length-append, drop-length-append,
}
use x.Http1.Chars.{cr, lf, is_token}
use x.Http1.State.{
  Parser, become, Event, HttpVersion, request, new_parser, begin_request, header, header_end,
  header_name_begin, header_end_lf, content, body, message_end, message_begin,
}
use x.Http1.Numeral.{decimal}
use x.Http1.Parser.Headers.{content_expected}
use x.Http1.Parser.Loop.{round, parse_fragment}
use x.Http1.Parser.Ends.{new_parser-IsValid}
use x.Http1.Generator.{Fields, Generator, new_generator, returns, generate_request, header_lines}
use x.Http1.RoundTrip.Leads.{Are, Reaches, Reaches-trans, advance-Reaches}
use x.Http1.RoundTrip.Line.{IsNonempty, not_space, IsWritten, begun, request_line-Reaches}
use x.Http1.RoundTrip.Header.{IsName, noted}
use x.Http1.RoundTrip.Decimal.{decimal-IsValue}
use x.Http1.RoundTrip.Head.{ArePlain, told_of, line_of, length-Notes, fields-Reaches}
use x.Http1.RoundTrip.Finish.{told, Finishes, ◌finally◌, stops-Finishes}
use x.Http1.RoundTrip.Written.{request_of, sized_request, generate_request-written}

-- A request that the parser takes as it is: a method of token characters and a URI of printable ones
-- but the space, neither empty; a version from 0.9 to 1.1; and fields with names of token characters and
-- values of text that begin without white space, neither empty, and no name `Content-Length` or
-- `Transfer-Encoding`.
pub record IsReadable (method uri : Bytes) (v : HttpVersion) (headers : Fields) : Type 0 where
  pub method_some : IsNonempty method
  pub method_token : Are is_token method
  pub uri_some : IsNonempty uri
  pub uri_printed : Are not_space uri
  pub version : IsWritten v
  pub plain : ArePlain headers

-- The parser at the end of a head, in a request with content of length `n`.
abbrev at_end : Parser → ℕ → Parser
at_end p n = record p {
  mode = request;
  state = header_name_begin;
  content_length = some n;
  chunked = false;
}

abbrev pub content_told : Bytes → List Event
content_told [] = []
content_told (b ∷ bs) = body (b ∷ bs) ∷ []

content-Finishes :
    (p : Parser) (chunk rest : Bytes)
    → Finishes
        (at_end p (length chunk))
        (cr ∷ lf ∷ (chunk ++ rest))
        (header_end ∷ (content_told chunk ++ message_end ∷ []))
        rest
unfolding round content_expected is_token
content-Finishes p [] rest =
    let line : Reaches (at_end p 0) (cr ∷ lf ∷ rest) [] (become (at_end p 0) header_end_lf)
        (lf ∷ rest) =
      advance-Reaches 1 (λ n. (n + 1) % 2 ^ 64) (λ n. refl) in
    line
    finally stops-Finishes (become (at_end p 0) header_end_lf) (become (at_end p 0) message_begin)
        lf 1 rest rest _ (λ n. refl) refl
content-Finishes p (b ∷ bs) rest =
    let left = suc (length bs) in
    let some_left : ltb 0 left ≡ true = ground arith in
    let all : min left (suc (length (bs ++ rest))) ≡ left = omega (arith, length-append bs rest) in
    let enough : leb left (suc (length (bs ++ rest))) ≡ true =
      ground (arith, length-append bs rest) in
    let head : Reaches (at_end p left) (cr ∷ lf ∷ b ∷ (bs ++ rest)) (header_end ∷ [])
        (become (at_end p left) content) (b ∷ (bs ++ rest)) =
      advance-Reaches 3 (λ n. (((n + 1) % 2 ^ 64 + 1) % 2 ^ 64 + 0) % 2 ^ 64)
        (λ n. rw some_left refl) in
    head
    finally stops-Finishes (become (at_end p left) content)
        (record (at_end p left) { state = message_begin; content_length = some (left - left) }) b
        left (bs ++ rest) rest _ (λ n. rw (all, enough, take-length-append (b ∷ bs) rest) refl)
        (drop-length-append (b ∷ bs) rest)

length-IsName : IsName (codes "Content-Length")
unfolding is_token
length-IsName = ground arith

-- A readable request (method and URI not empty, of token characters and of printable ones; version 0.9,
-- 1.0 or 1.1; fields with names and values that are not empty, of token characters and of text that does
-- not begin with white space, none of them Content-Length or Transfer-Encoding), without trailers and with
-- its content length, below 2 ^ 31, is written without an exception by a new generator. If its bytes are
-- parsed by a new parser, whatever follows them, then the listener is told of the request, of each field
-- in order, of the content length, of the end of the head, of the content if there is any, and of the end
-- of the message; and what follows the bytes is left.
pub parse-generate_request :
    (method uri : Bytes) (v : HttpVersion) (headers : Fields) (chunk rest : Bytes)
    → IsReadable method uri v headers
    → length chunk < 2 ^ 31
    → (g : Generator) × (generate_request new_generator
          (request_of method uri v headers (some (length chunk)))
          chunk
        ≡ returns g)
      × (told (parse_fragment (new_parser request) (g.written ++ rest))
          ≡ some (
            rest,
            begin_request method uri v
                  ∷ (told_of headers
                      ++ header (codes "Content-Length") (decimal (length chunk)) ∷ [])
                ++ (header_end ∷ (content_told chunk ++ message_end ∷ [])),
          ))
parse-generate_request method uri v headers chunk rest r small =
    let (g, e, written) = generate_request-written v method uri headers chunk r.version small in
    let n = length chunk in
    let p = begun (new_parser request) method uri v in
    let tail = cr ∷ lf ∷ (chunk ++ rest) in
    let field = header (codes "Content-Length") (decimal n) ∷ [] in
    let lines = header_lines headers ++ line_of (codes "Content-Length") (decimal n) tail in
    let first : Reaches (new_parser request) (sized_request method uri v headers chunk rest)
        (begin_request method uri v ∷ []) p lines =
      request_line-Reaches (new_parser request) method uri v lines r.method_some r.method_token
        r.uri_some r.uri_printed r.version in
    let fields : Reaches p lines (told_of headers ++ field) (noted (λ o. some n) (λ c. c) field p)
        tail =
      fields-Reaches (λ o. some n) (λ c. c) field (codes "Content-Length") (decimal n) tail p
        headers r.plain length-IsName (decimal-IsValue n) refl (length-Notes n small) in
    let last : Finishes (noted (λ o. some n) (λ c. c) field p) tail
        (header_end ∷ (content_told chunk ++ message_end ∷ [])) rest =
      content-Finishes (noted (λ o. some n) (λ c. c) field p) chunk rest in
    let all = Reaches-trans first fields finally last in
    (g, e, rw (written rest) (all.ends 0 (new_parser-IsValid request)))
