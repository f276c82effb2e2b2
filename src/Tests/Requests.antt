-- ===== src/Tests/Requests.antt =====
-- Runs of the HTTP/1 parser and its theorems at concrete inputs.
use x.Base.{List, none, ◌≡◌, refl, arith, [], ◌∷◌, Bytes, ◌++◌, codes, some, true, length}
use x.Http1.Chars.{
  lf, is_token, is_text, is_print, is_digit, is_xdigit, digit_into, hex_into, to_int, iequals,
}
use x.Http1.State.{
  Parser, become, reset, request, new_parser, header, header_end, body, message_end, begin_request,
  version_1_1, request_entity_begin, content_begin, content_chunk_size_begin,
}
use x.Http1.Numeral.{decimal}
use x.Http1.Generator.{crlf, Fields, Generator, new_generator, returns, generate_request}
use x.Http1.Generator.Bounds.{
  Part, in_memory, in_file, total, generate_parts, IsSized, Bounded, generate_parts-Bounded,
}
use x.Http1.Parser.Step.{goes}
use x.Http1.Parser.Headers.{note_header, header_end_lf_round}
use x.Http1.Parser.Content.{content_begin_round}
use x.Http1.Parser.Loop.{parse_fragment, Result, stopped}
use x.Http1.Parser.Ends.{Ends, new_parser-IsValid, parse_fragment-Ends}
use x.Http1.Parser.Observe.{observe, then_parse}
use x.Http1.Parser.Fragments.{parse_fragment-append}
use x.Http1.Parser.Calls.{Later, here, by_using, by_reset, Later-chunked}
use x.Http1.RoundTrip.Head.{IsPlain, told_of}
use x.Http1.RoundTrip.Finish.{told}
use x.Http1.RoundTrip.Written.{request_of}
use x.Http1.RoundTrip.Chunk.{chunks_told}
use x.Http1.RoundTrip.Chunked.{send, parse-send}
use x.Http1.RoundTrip.Sized.{IsReadable, content_told, parse-generate_request}

abbrev post : Bytes
post =
    codes "POST /a HTTP/1.1"
    ++ (crlf
        ++ (codes "Host: x"
            ++ (crlf ++ (codes "Content-Length: 3" ++ (crlf ++ (crlf ++ codes "abcGE"))))))

abbrev outcome : Result → Result
outcome (stopped p rest es) = stopped (new_parser request) rest es
outcome r = r

post_run :
    outcome (parse_fragment (new_parser request) post)
    ≡ stopped (new_parser request) (codes "GE") (
        begin_request (codes "POST") (codes "/a") version_1_1
        ∷ header (codes "Host") (codes "x")
        ∷ header (codes "Content-Length") (codes "3")
        ∷ header_end
        ∷ body (codes "abc")
        ∷ message_end
        ∷ [])
unfolding parse_fragment is_token is_text is_print is_digit is_xdigit digit_into hex_into to_int
    iequals note_header
post_run = refl

parse_fragment-append_example :
    observe (parse_fragment (new_parser request) (codes "POST /a HT" ++ codes "TP/1.1"))
    ≡ observe
        (then_parse (parse_fragment (new_parser request) (codes "POST /a HT")) (codes "TP/1.1"))
parse_fragment-append_example =
    parse_fragment-append (new_parser request) (codes "POST /a HT") (codes "TP/1.1") (λ e. cc)
      (new_parser-IsValid request)

parse_fragment-Ends_example : Ends post (parse_fragment (new_parser request) post)
parse_fragment-Ends_example =
    parse_fragment-Ends (new_parser request) post (new_parser-IsValid request)

-- A parser that has read a chunked message, and what it is after the beginning of the next request.
abbrev chunked_before : Parser
chunked_before = record (new_parser request) { chunked = true }

abbrev chunked_after : Parser
chunked_after = record chunked_before {
  state = request_entity_begin;
  bytes_received = 4;
  method = codes "GET";
}

later : Later chunked_before (reset chunked_after)
unfolding parse_fragment is_token
later = by_reset (by_using (codes "GET ") here refl)

Later-chunked_example :
    (header_end_lf_round (reset chunked_after) lf
      ≡ goes 1 (become (reset chunked_after) content_begin) (header_end ∷ []))
    × (content_begin_round (become (reset chunked_after) content_begin)
        ≡ goes 0 (become (reset chunked_after) content_chunk_size_begin) [])
Later-chunked_example = Later-chunked later refl

abbrev host : Fields
host = (codes "Host", codes "x0") ∷ []

host-IsPlain : IsPlain (codes "Host") (codes "x0")
unfolding is_token is_text iequals
host-IsPlain = record {
  named = ground arith;
  valued = ground arith;
  no_length = refl;
  no_encoding = refl;
}

post-IsReadable : IsReadable (codes "POST") (codes "/a") version_1_1 host
unfolding is_token is_print
post-IsReadable = record {
  method_some = tt;
  method_token = ground arith;
  uri_some = tt;
  uri_printed = ground arith;
  version = tt;
  plain = (host-IsPlain, tt);
}

parse-generate_request_example :
    (g : Generator) × (generate_request new_generator
        (request_of (codes "POST") (codes "/a") version_1_1 host (some (length (codes "abc"))))
        (codes "abc")
      ≡ returns g)
    × (told (parse_fragment (new_parser request) (g.written ++ codes "GET"))
        ≡ some (
          codes "GET",
          begin_request (codes "POST") (codes "/a") version_1_1
                ∷ (told_of host
                    ++ header (codes "Content-Length") (decimal (length (codes "abc"))) ∷ [])
              ++ (header_end ∷ (content_told (codes "abc") ++ message_end ∷ [])),
        ))
parse-generate_request_example =
    parse-generate_request (codes "POST") (codes "/a") version_1_1 host (codes "abc") (codes "GET")
      post-IsReadable (omega arith)

abbrev parts : List Bytes
parts = codes "abc" ∷ [] ∷ codes "defghijklmnopqrstu" ∷ []

parse-send_example :
    (g : Generator) × (send (request_of (codes "POST") (codes "/a") version_1_1 host none) parts
      ≡ returns g)
    × (told (parse_fragment (new_parser request) (g.written ++ codes "GET"))
        ≡ some (
          codes "GET",
          begin_request (codes "POST") (codes "/a") version_1_1 ∷ told_of host
              ++ (header_end ∷ chunks_told parts),
        ))
parse-send_example =
    parse-send (codes "POST") (codes "/a") version_1_1 host parts (codes "GET") post-IsReadable
      (omega arith)

-- Five bytes of content are announced, and six are given.
abbrev five_announced : Generator
five_announced = record new_generator { content_length = 5 }

five-IsSized : IsSized five_announced
five-IsSized = record { known = refl; small = omega arith; within = omega arith }

abbrev six_given : List Part
six_given = in_memory (codes "abc") ∷ in_file (codes "def") ∷ []

generate_parts-Bounded_example :
    Bounded (total six_given) five_announced (generate_parts five_announced six_given)
generate_parts-Bounded_example = generate_parts-Bounded five_announced six_given five-IsSized
