-- ===== src/Http1/Generator.antt =====
-- src/xzero/http/http1/Generator.cc: messages as they are written; src/xzero/http/HttpInfo.h.
pub mod Bounds
use x.Base.{
  ℕ, ◌+◌, ◌-◌, ◌^◌, ◌%◌, Bool, true, false, not, ◌||◌, List, [], ◌∷◌, ◌++◌, Bytes, length, take,
  leb, ltb, ◌==◌, if◌then◌else◌, Option, none, some, codes,
}
use x.Http1.Chars.{cr, lf, sp}
use x.Http1.State.{HttpVersion, unknown, version_0_9, version_1_0, version_1_1, version_2_0}
use x.Http1.Numeral.{decimal, hexadecimal}
use x.Http1.Status.{is_content_forbidden, status_text}

-- `HeaderFieldList`.
abbrev pub Fields : Type 0
Fields = List (Bytes × Bytes)

-- A content length is `none` where it is unknown.
pub record HttpInfo : Type 0 where
  pub version : HttpVersion
  pub content_length : Option ℕ
  pub headers : Fields
  pub trailers : Fields

pub record HttpRequestInfo : Type 0 where
  pub info : HttpInfo
  pub unparsed_method : Bytes
  pub unparsed_uri : Bytes

pub record HttpResponseInfo : Type 0 where
  pub info : HttpInfo
  pub status : ℕ
  pub reason : Bytes

-- `written` is what the `EndPointWriter` was given.
pub record Generator : Type 0 where
  pub bytes_transmitted : ℕ
  pub content_length : ℕ
  pub actual_content_length : ℕ
  pub chunked : Bool
  pub buffer : Bytes
  pub written : Bytes

-- `Buffer::npos`.
abbrev pub npos : ℕ
npos = 2 ^ 64 - 1

abbrev pub new_generator : Generator
new_generator = record {
  bytes_transmitted = 0;
  content_length = npos;
  actual_content_length = 0;
  chunked = false;
  buffer = [];
  written = [];
}

-- `Generator::reset`.
abbrev pub recycle : Generator → Generator
recycle g = record new_generator { written = g.written }

-- How a call ends: it returns, or it throws and leaves the generator; `fails` reads what is not there.
pub data Outcome : Type 0 where
  returns : Generator → Outcome
  throws : Generator → Outcome
  fails : Outcome

infixl 5 ◌>>=◌
abbrev pub ◌>>=◌ : Outcome → (Generator → Outcome) → Outcome
returns g >>= f = f g
throws g >>= f = throws g
fails >>= f = fails

abbrev pub push : Generator → Bytes → Generator
push g bytes = record g { buffer = g.buffer ++ bytes }

abbrev pub write : Generator → Bytes → Generator
write g bytes = record g { written = g.written ++ bytes }

abbrev pub crlf : Bytes
crlf = cr ∷ lf ∷ []

unfoldable pub flush_buffer : Generator → Generator
flush_buffer g =
    if ltb 0 (length g.buffer)
    then record (write g g.buffer) {
      bytes_transmitted = (g.bytes_transmitted + length g.buffer) % 2 ^ 64;
      buffer = [];
    }
    else g

unfoldable pub generate_request_line : Generator → HttpRequestInfo → Outcome
generate_request_line g r =
    let g' = push g (r.unparsed_method ++ (sp ∷ r.unparsed_uri)) in
    elim r.info.version [
      | version_0_9 ↦ returns (push g' (codes " HTTP/0.9" ++ crlf))
      | version_1_0 ↦ returns (push g' (codes " HTTP/1.0" ++ crlf))
      | version_1_1 ↦ returns (push g' (codes " HTTP/1.1" ++ crlf))
      | unknown ↦ throws g'
      | version_2_0 ↦ throws g'
    ]

abbrev pub header_line : Bytes × Bytes → Bytes
header_line (name, value) = name ++ (codes ": " ++ (value ++ crlf))

abbrev pub is_pseudo : Bytes → Bool
is_pseudo [] = false
is_pseudo (c ∷ name) = c == b':'

unfoldable pub header_lines : Fields → Bytes
header_lines [] = []
header_lines ((name, value) ∷ fields) =
    if is_pseudo name then header_lines fields else header_line (name, value) ++ header_lines fields

-- The names in the `Trailer` line, with a comma in front of all but the first.
trailer_names : Bool → Fields → Bytes
trailer_names more [] = []
trailer_names more ((name, value) ∷ fields) =
    (if more then codes ", " else []) ++ (name ++ trailer_names true fields)

unfoldable pub trailer_line : Fields → Bytes
unfolding trailer_names
trailer_line [] = []
trailer_line fields = codes "Trailer: " ++ (trailer_names false fields ++ crlf)

abbrev pub is_empty : Fields → Bool
is_empty [] = true
is_empty _ = false

abbrev pub is_unknown : Option ℕ → Bool
is_unknown none = true
is_unknown (some n) = false

abbrev pub size_of : Option ℕ → ℕ
size_of none = npos
size_of (some n) = n

unfoldable pub content_line : HttpInfo → Bytes
content_line info =
    if is_unknown info.content_length || not (is_empty info.trailers)
    then codes "Transfer-Encoding: chunked" ++ crlf
    else codes "Content-Length: " ++ (decimal (size_of info.content_length) ++ crlf)

unfoldable pub generate_headers : Generator → HttpInfo → Bool → Generator
generate_headers g info body_forbidden = record g {
  chunked = is_unknown info.content_length || not (is_empty info.trailers);
  content_length = size_of info.content_length;
  buffer =
      g.buffer
      ++ (header_lines info.headers
          ++ (trailer_line info.trailers
              ++ ((if body_forbidden then [] else content_line info) ++ crlf)));
}

-- `remainingContentLength`.
abbrev pub remaining : Generator → ℕ
remaining g = (g.content_length + 2 ^ 64 - g.actual_content_length) % 2 ^ 64

abbrev pub chunk_of : Bytes → Bytes
chunk_of chunk = hexadecimal (length chunk) ++ (crlf ++ (chunk ++ crlf))

-- `generateBody` of a `BufferRef` and of a `Buffer`.
unfoldable pub generate_body : Generator → Bytes → Outcome
generate_body g chunk =
    if g.chunked
    then (if ltb 0 (length chunk) then returns (write g (chunk_of chunk)) else returns g)
    else if leb (length chunk) (remaining g)
    then returns (record (write g chunk) {
      actual_content_length = (g.actual_content_length + length chunk) % 2 ^ 64;
    })
    else throws g

-- The size of a chunk of a file, printed to an array of twelve characters, of which the last is the
-- terminating zero; as many are read as the size has in full. `none` reads beyond the array.
unfoldable pub file_chunk_size : ℕ → Option Bytes
unfolding hexadecimal
file_chunk_size n =
    let text = hexadecimal n ++ crlf in
    if ltb (length text) 12
    then some text
    else if length text == 12
    then some (take 11 text ++ 0 ∷ [])
    else none

-- `generateBody` of a `FileView`.
unfoldable pub generate_file_body : Generator → Bytes → Outcome
unfolding file_chunk_size
generate_file_body g chunk =
    if g.chunked
    then (if ltb 0 (length chunk)
        then elim (file_chunk_size (length chunk)) [
          | none ↦ fails
          | some size ↦ returns (record (write g (size ++ (chunk ++ crlf))) {
            bytes_transmitted = (g.bytes_transmitted + (length size + length chunk + 2)) % 2 ^ 64;
          })
        ]
        else returns g)
    else if leb (length chunk) (remaining g)
    then returns (record (write g chunk) {
      bytes_transmitted = (g.bytes_transmitted + length chunk) % 2 ^ 64;
      actual_content_length = (g.actual_content_length + length chunk) % 2 ^ 64;
    })
    else throws g

trailer_lines : Fields → Bytes
trailer_lines [] = []
trailer_lines (field ∷ fields) = header_line field ++ trailer_lines fields

unfoldable pub generate_trailer : Generator → Fields → Generator
unfolding trailer_lines
generate_trailer g trailers =
    flush_buffer (if g.chunked then push g (b'0' ∷ cr ∷ lf ∷ trailer_lines trailers ++ crlf) else g)

-- `generateRequest` of an info alone, which is what the other three begin with.
unfoldable pub generate_request_head : Generator → HttpRequestInfo → Outcome
generate_request_head g r = do
  g' ← generate_request_line g r
  returns (flush_buffer (generate_headers g' r.info false))

unfoldable pub generate_request : Generator → HttpRequestInfo → Bytes → Outcome
generate_request g r chunk = do g' ← generate_request_head g r; generate_body g' chunk

unfoldable pub generate_response_line : Generator → HttpResponseInfo → Outcome
unfolding decimal status_text
generate_response_line g r =
    let text = if ltb 0 (length r.reason) then r.reason else status_text r.status in
    let line = decimal r.status ++ (sp ∷ text ++ crlf) in
    elim r.info.version [
      | version_0_9 ↦ returns (push g (codes "HTTP/0.9 " ++ line))
      | version_1_0 ↦ returns (push g (codes "HTTP/1.0 " ++ line))
      | version_1_1 ↦ returns (push g (codes "HTTP/1.1 " ++ line))
      | unknown ↦ throws g
      | version_2_0 ↦ throws g
    ]

unfoldable pub generate_response_info : Generator → HttpResponseInfo → Outcome
generate_response_info g r = do
  g' ← generate_response_line g r
  returns (
      flush_buffer (
        if leb 200 r.status || r.status == 101
        then generate_headers g' r.info (is_content_forbidden r.status)
        else push g' crlf))

-- `generateResponse` of a `BufferRef` and of a `Buffer`.
unfoldable pub generate_response : Generator → HttpResponseInfo → Bytes → Outcome
generate_response g r chunk = do
  g' ← generate_response_info g r
  g'' ← generate_body g' chunk
  returns (flush_buffer g'')
