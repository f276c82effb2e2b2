-- ===== src/Http1/Parser/Calls.antt =====
-- src/xzero/http/http1/Parser.cc: a parser over the calls of `parseFragment` and `reset`.
use x.Base.{◌+◌, ◌*◌, List, ◌≡◌, refl, arith, Bytes, [], ◌∷◌, true, length}
use x.Http1.State.{
  reset, header_end, content_chunk_size_begin, content_begin, Parser, Event, become,
}
use x.Http1.Parser.Step.{goes}
use x.Http1.Chars.{lf}
use x.Http1.Parser.Headers.{header_end_lf_round, content_expected}
use x.Http1.Parser.Content.{content_begin_round}
use x.Http1.Parser.Loop.{used, stopped, parse_fragment}
use x.Http1.Parser.Keeps.{Keeps, Keeps-trans, run-Keeps}

-- The parser after any number of calls, with no exception.
pub data Later (p : Parser) : Parser → Type 0 where
  here : Later p p
  by_using :
      {q r : Parser} {es : List Event} (chunk : Bytes)
      → Later p q
      → parse_fragment q chunk ≡ used r es
      → Later p r
  by_stopping :
      {q r : Parser} {left : Bytes} {es : List Event} (chunk : Bytes)
      → Later p q
      → parse_fragment q chunk ≡ stopped r left es
      → Later p r
  by_reset : {q : Parser} → Later p q → Later p (reset q)

Later-Keeps : {p q : Parser} → Later p q → Keeps p q
unfolding parse_fragment
Later-Keeps here = record { mode = refl; chunked = λ e. e }
Later-Keeps (by_using {q} chunk l e) =
    Keeps-trans (Later-Keeps l) (rw e at (run-Keeps (4 * length chunk + 4) q chunk))
Later-Keeps (by_stopping {q} chunk l e) =
    Keeps-trans (Later-Keeps l) (rw e at (run-Keeps (4 * length chunk + 4) q chunk))
Later-Keeps (by_reset {q} l) =
    let k = Later-Keeps l in record { mode = k.mode; chunked = k.chunked }

-- Once a message was chunked, the parser takes every message after it for a chunked one, whatever
-- calls of `parseFragment` and `reset` come in between, and whatever the headers of that message say:
-- where its head ends, content is begun, and of that the next character is taken for a chunk's size.
pub Later-chunked :
    {p q : Parser}
    → Later p q
    → p.chunked ≡ true
    → (header_end_lf_round q lf ≡ goes 1 (become q content_begin) (header_end ∷ []))
      × (content_begin_round (become q content_begin)
          ≡ goes 0 (become q content_chunk_size_begin) [])
unfolding header_end_lf_round content_begin_round content_expected
Later-chunked {q = q} l h = let e = (Later-Keeps l).chunked h in ground arith
