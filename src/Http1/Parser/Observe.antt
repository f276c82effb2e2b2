-- ===== src/Http1/Parser/Observe.antt =====
-- src/xzero/http/http1/Parser.cc: what a listener learns from `parseFragment`, apart from how the
-- bytes of the content are cut into calls of `onMessageContent`.
use x.Base.{◌≡◌, refl, sym, ap, List, [], ◌∷◌, ◌++◌, append_assoc, Bytes}
use x.Http1.State.{Event, body}
use x.Http1.Parser.Loop.{Result, used, stopped, thrown, failed, stuck, after, parse_fragment}

pieces : Bytes → List Event
pieces [] = []
pieces (b ∷ bs) = body (b ∷ []) ∷ pieces bs

piece : Event → List Event
unfolding pieces
piece (body bs) = pieces bs
piece e = e ∷ []

-- Each byte of the content by itself.
unfoldable pub bytewise : List Event → List Event
unfolding piece
bytewise [] = []
bytewise (e ∷ es) = piece e ++ bytewise es

abbrev pub observe : Result → Result
observe (used p es) = used p (bytewise es)
observe (stopped p left es) = stopped p left (bytewise es)
observe (thrown p es) = thrown p (bytewise es)
observe (failed f) = failed f
observe stuck = stuck

-- A call, and one with the next fragment if all of the first was used; what is left goes in front.
abbrev pub then_parse : Result → Bytes → Result
then_parse (used p es) ys = after es (parse_fragment p ys)
then_parse (stopped p left es) ys = stopped p (left ++ ys) es
then_parse (thrown p es) ys = thrown p es
then_parse (failed f) ys = failed f
then_parse stuck ys = stuck

pieces-append : (xs ys : Bytes) → pieces (xs ++ ys) ≡ pieces xs ++ pieces ys
unfolding pieces
pieces-append [] ys = refl
pieces-append (x ∷ xs) ys = ap (◌∷◌ (body (x ∷ []))) (pieces-append xs ys)

pub bytewise-append : (es fs : List Event) → bytewise (es ++ fs) ≡ bytewise es ++ bytewise fs
unfolding bytewise
bytewise-append [] fs = refl
bytewise-append (e ∷ es) fs = simp (bytewise-append es fs, append_assoc)

-- Content that is reported at once, and in two parts.
pub bytewise-parts :
    (xs ys : Bytes) (es : List Event)
    → bytewise (body (xs ++ ys) ∷ es) ≡ bytewise (body xs ∷ body ys ∷ es)
unfolding bytewise
bytewise-parts xs ys es = simp (pieces-append, append_assoc)

observed-after :
    (es : List Event) (r : Result) → observe (after es r) ≡ after (bytewise es) (observe r)
observed-after es (used p fs) = ap (used p) (bytewise-append es fs)
observed-after es (stopped p left fs) = ap (stopped p left) (bytewise-append es fs)
observed-after es (thrown p fs) = ap (thrown p) (bytewise-append es fs)
observed-after es (failed f) = refl
observed-after es stuck = refl

pub observe-after :
    (es fs : List Event) (r r' : Result)
    → bytewise es ≡ bytewise fs
    → observe r ≡ observe r'
    → observe (after es r) ≡ observe (after fs r')
observe-after es fs r r' e h = rw (observed-after es r, observed-after fs r', e, h) refl

pub after-nil : (r : Result) → after [] r ≡ r
after-nil (used p es) = refl
after-nil (stopped p left es) = refl
after-nil (thrown p es) = refl
after-nil (failed f) = refl
after-nil stuck = refl

pub after-after : (es fs : List Event) (r : Result) → after es (after fs r) ≡ after (es ++ fs) r
after-after es fs (used p gs) = ap (used p) (sym (append_assoc es fs gs))
after-after es fs (stopped p left gs) = ap (stopped p left) (sym (append_assoc es fs gs))
after-after es fs (thrown p gs) = ap (thrown p) (sym (append_assoc es fs gs))
after-after es fs (failed f) = refl
after-after es fs stuck = refl

pub then_parse-after :
    (es : List Event) (r : Result) (ys : Bytes)
    → then_parse (after es r) ys ≡ after es (then_parse r ys)
then_parse-after es (used p fs) ys = sym (after-after es fs (parse_fragment p ys))
then_parse-after es (stopped p left fs) ys = refl
then_parse-after es (thrown p fs) ys = refl
then_parse-after es (failed f) ys = refl
then_parse-after es stuck ys = refl
