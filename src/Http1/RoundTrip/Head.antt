-- ===== src/Http1/RoundTrip/Head.antt =====
-- src/xzero/http/http1: the head of a request, with all of its fields.
use x.Base.{
  ℕ, ◌^◌, ◌<◌, ◌≡◌, refl, Bool, true, false, ◌||◌, List, [], ◌∷◌, ◌++◌, map, append_assoc, Bytes,
  Option, some, ◌==◌, All, codes,
}
use x.Http1.Chars.{cr, lf, sp, ht, is_token, iequals}
use x.Http1.State.{Parser, become, Event, header, header_name_begin}
use x.Http1.Parser.Headers.{note_header}
use x.Http1.Generator.{Fields, is_pseudo, header_lines}
use x.Http1.Numeral.{decimal}
use x.Http1.RoundTrip.Leads.{Reaches, Reaches-trans, differs}
use x.Http1.RoundTrip.Header.{IsName, IsValue, Notes, noted, field-Reaches}
use x.Http1.RoundTrip.Decimal.{to_int-decimal}

-- A field of which the parser makes nothing, but to tell the listener.
pub record IsPlain (name value : Bytes) : Type 0 where
  pub named : IsName name
  pub valued : IsValue value
  pub no_length : iequals name (codes "Content-Length") ≡ false
  pub no_encoding : iequals name (codes "Transfer-Encoding") ≡ false

abbrev pub ArePlain : Fields → Type 0
ArePlain fields = All (λ (name, value). IsPlain name value) fields

abbrev pub told_of : Fields → List Event
told_of fields = map (λ (name, value). header name value) fields

-- No white space at the beginning of a line, where it would go on with the one before.
abbrev pub StartsLine : Bytes → Type 0
StartsLine [] = ⊥
StartsLine (c ∷ cs) = (c == sp || c == ht) ≡ false

plain-Notes :
    (name value : Bytes)
    → IsPlain name value
    → Notes (λ o. o) (λ c. c) (header name value ∷ []) name value
unfolding note_header
plain-Notes name value v q = rw (v.no_length, v.no_encoding) refl

pub length-Notes :
    (n : ℕ)
    → n < 2 ^ 31
    → Notes
        (λ o. some n)
        (λ c. c)
        (header (codes "Content-Length") (decimal n) ∷ [])
        (codes "Content-Length")
        (decimal n)
unfolding note_header iequals
length-Notes n h q = rw (to_int-decimal n h) refl

pub chunked-Notes : Notes (λ o. o) (λ c. true) [] (codes "Transfer-Encoding") (codes "chunked")
unfolding note_header iequals
chunked-Notes q = refl

IsName-StartsLine : (name rest : Bytes) → IsName name → StartsLine (name ++ rest)
unfolding is_token
IsName-StartsLine [] rest h = absurd h
IsName-StartsLine (b ∷ bs) rest (h, hs) =
    rw (differs is_token sp b refl h, differs is_token ht b refl h) refl

IsName-pseudo : (name : Bytes) → IsName name → is_pseudo name ≡ false
unfolding is_token
IsName-pseudo [] h = absurd h
IsName-pseudo (b ∷ bs) (h, hs) = differs is_token b':' b refl h

-- A field, as it is written in front of `tail`.
abbrev pub line_of : Bytes → Bytes → Bytes → Bytes
line_of name value tail = name ++ (b':' ∷ sp ∷ value ++ (cr ∷ lf ∷ tail))

module _ (l : Option ℕ → Option ℕ) (k : Bool → Bool) (es : List Event) where
  line-Reaches :
      (p : Parser) (name value tail : Bytes)
      → IsName name
      → IsValue value
      → StartsLine tail
      → Notes l k es name value
      → Reaches
          (become p header_name_begin)
          (name ++ (b':' ∷ sp ∷ value ++ (cr ∷ lf ∷ tail)))
          es
          (noted l k es p)
          tail
  line-Reaches p name value [] g v s n = absurd s
  line-Reaches p name value (c ∷ tail) g v s n = field-Reaches l k es p name value c tail g v s n

-- A field among others, as it is written.
header_lines-cons :
    (name value tail : Bytes) (fields : Fields)
    → is_pseudo name ≡ false
    → header_lines ((name, value) ∷ fields) ++ tail
      ≡ name ++ (b':' ∷ sp ∷ value ++ (cr ∷ lf ∷ (header_lines fields ++ tail)))
unfolding header_lines
header_lines-cons name value tail fields h = rw h (simp append_assoc)

-- The fields of a list, and one more, which says what the content is.
module _ (l : Option ℕ → Option ℕ) (k : Bool → Bool) (es : List Event)
    (name value tail : Bytes) where
  lines-StartsLine :
      (fields : Fields)
      → ArePlain fields
      → IsName name
      → StartsLine (header_lines fields ++ line_of name value tail)
  unfolding header_lines
  lines-StartsLine [] h g = IsName-StartsLine name (b':' ∷ sp ∷ value ++ (cr ∷ lf ∷ tail)) g
  lines-StartsLine ((field, content) ∷ fields) (h, hs) g =
      rw
        (header_lines-cons field content (line_of name value tail) fields
          (IsName-pseudo field h.named))
        (IsName-StartsLine field _ h.named)

  pub fields-Reaches :
      (p : Parser) (fields : Fields)
      → ArePlain fields
      → IsName name
      → IsValue value
      → StartsLine tail
      → Notes l k es name value
      → Reaches
          (become p header_name_begin)
          (header_lines fields ++ line_of name value tail)
          (told_of fields ++ es)
          (noted l k es p)
          tail
  unfolding header_lines
  fields-Reaches p [] h g v s n = line-Reaches l k es p name value tail g v s n
  fields-Reaches p ((field, content) ∷ fields) (h, hs) g v s n =
      let rest = header_lines fields ++ line_of name value tail in
      let told = header field content ∷ [] in
      rw
        (header_lines-cons field content (line_of name value tail) fields
          (IsName-pseudo field h.named))
        (Reaches-trans
          (line-Reaches (λ o. o) (λ c. c) told p field content rest h.named h.valued
            (lines-StartsLine fields hs g) (plain-Notes field content h))
          (fields-Reaches (noted (λ o. o) (λ c. c) told p) fields hs g v s n))
