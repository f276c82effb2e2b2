-- ===== src/Http1/RoundTrip/Line.antt =====
-- src/xzero/http/http1: the request line.
use x.Base.{
  if◌then◌else◌, ℕ, ◌+◌, ◌%◌, ◌^◌, ◌≡◌, refl, arith, Bool, true, false, [], ◌∷◌, ◌++◌, Bytes, none,
  ◌==◌, codes,
}
use x.Http1.Chars.{cr, lf, sp, is_token, is_print, is_digit, digit_into}
use x.Http1.State.{
  Parser, request, unknown, version_2_0, message_begin, request_method, request_entity,
  header_name_begin, HttpVersion, version_0_9, version_1_0, version_1_1, begin_request,
}
use x.Http1.Parser.Loop.{round}
use x.Http1.RoundTrip.Leads.{Are, gather, Reaches, ◌then◌, advance-Reaches, differs}

abbrev pub not_space : ℕ → Bool
not_space b = if b == sp then false else is_print b

not_space-print : (b : ℕ) → not_space b ≡ true → is_print b ≡ true
not_space-print b h = ground arith

token-space : (b : ℕ) → is_token b ≡ true → (b == sp) ≡ false
unfolding is_token
token-space b h = differs is_token sp b refl h

abbrev at_method : Parser → Bytes → Parser
at_method p acc = record p { state = request_method; method = acc }

abbrev at_entity : Parser → Bytes → Parser
at_entity p acc = record p { state = request_entity; entity = acc }

method_loop :
    (p : Parser) (acc cs rest : Bytes)
    → Are is_token cs
    → Reaches (at_method p acc) (cs ++ rest) [] (at_method p (acc ++ cs)) rest
unfolding round
method_loop p =
    gather is_token (at_method p) λ n c acc src h. let e = token-space c h in rw (e, h) refl

entity_loop :
    (p : Parser) (acc cs rest : Bytes)
    → Are not_space cs
    → Reaches (at_entity p acc) (cs ++ rest) [] (at_entity p (acc ++ cs)) rest
unfolding round
entity_loop p = gather not_space (at_entity p) λ n c acc src h.
    let e : (c == sp) ≡ false = differs not_space sp c refl h in rw (e, not_space-print c h) refl

abbrev pub IsWritten : HttpVersion → Type 0
IsWritten unknown = ⊥
IsWritten version_2_0 = ⊥
IsWritten _ = Unit

abbrev pub version_text : HttpVersion → Bytes
version_text version_0_9 = codes " HTTP/0.9"
version_text version_1_0 = codes " HTTP/1.0"
version_text _ = codes " HTTP/1.1"

abbrev pub major_of : HttpVersion → ℕ
major_of version_0_9 = 0
major_of _ = 1

abbrev pub minor_of : HttpVersion → ℕ
minor_of version_0_9 = 9
minor_of version_1_0 = 0
minor_of _ = 1

-- At the first header field, after a request line.
abbrev pub at_headers : Parser → HttpVersion → Parser
at_headers p v = record p {
  state = header_name_begin;
  version_major = major_of v;
  version_minor = minor_of v;
}

version-Reaches :
    (v : HttpVersion) (p : Parser) (rest : Bytes)
    → IsWritten v
    → Reaches
        (record p { state = request_entity; version_major = 0; version_minor = 0 })
        (version_text v ++ (cr ∷ lf ∷ rest))
        (begin_request p.method p.entity v ∷ [])
        (at_headers p v)
        rest
unfolding round is_digit digit_into
version-Reaches version_0_9 p rest h = advance-Reaches 11 _ (λ n. refl)
version-Reaches version_1_0 p rest h = advance-Reaches 11 _ (λ n. refl)
version-Reaches version_1_1 p rest h = advance-Reaches 11 _ (λ n. refl)
version-Reaches unknown p rest h = absurd h
version-Reaches version_2_0 p rest h = absurd h

-- A parser at the beginning of a request, when it has taken the request line.
abbrev pub begun : Parser → Bytes → Bytes → HttpVersion → Parser
begun p method uri v =
    at_headers (record p { method = method; entity = uri; content_length = none }) v

first-Reaches :
    (p : Parser) (c : ℕ) (src : Bytes)
    → is_token c ≡ true
    → Reaches
        (record p { mode = request; state = message_begin })
        (c ∷ src)
        []
        (at_method
          (record p { mode = request; version_major = 0; version_minor = 0; content_length = none })
          (c ∷ []))
        src
unfolding round
first-Reaches p c src h = advance-Reaches 2 (λ n. ((n + 0) % 2 ^ 64 + 1) % 2 ^ 64) (λ n. rw h refl)

space-Reaches :
    (p : Parser) (method : Bytes) (c : ℕ) (src : Bytes)
    → is_print c ≡ true
    → Reaches
        (at_method p method)
        (sp ∷ c ∷ src)
        []
        (at_entity (record p { method = method }) (c ∷ []))
        src
unfolding round
space-Reaches p method c src h =
    advance-Reaches 2 (λ n. ((n + 1) % 2 ^ 64 + 1) % 2 ^ 64) (λ n. rw h refl)

abbrev pub request_line : Bytes → Bytes → HttpVersion → Bytes → Bytes
request_line method uri v rest = method ++ (sp ∷ uri ++ (version_text v ++ (cr ∷ lf ∷ rest)))

-- Neither of them is empty.
abbrev pub IsNonempty : Bytes → Type 0
IsNonempty [] = ⊥
IsNonempty (b ∷ bs) = Unit

pub request_line-Reaches :
    (p : Parser) (method uri : Bytes) (v : HttpVersion) (rest : Bytes)
    → IsNonempty method
    → Are is_token method
    → IsNonempty uri
    → Are not_space uri
    → IsWritten v
    → Reaches
        (record p { mode = request; state = message_begin })
        (request_line method uri v rest)
        (begin_request method uri v ∷ [])
        (begun (record p { mode = request }) method uri v)
        rest
request_line-Reaches p [] uri v rest e h f g w = absurd e
request_line-Reaches p (c ∷ cs) [] v rest e h f g w = absurd f
request_line-Reaches p (c ∷ cs) (u ∷ us) v rest e (h, hs) f (g, gs) w =
    let p' = record p {
      mode = request;
      version_major = 0;
      version_minor = 0;
      content_length = none;
    } in
    let after_uri = version_text v ++ (cr ∷ lf ∷ rest) in
    let after_method = sp ∷ u ∷ (us ++ after_uri) in
    let print : is_print u ≡ true = not_space-print u g in
    first-Reaches p c (cs ++ after_method) h
    then method_loop p' (c ∷ []) cs after_method hs
    then space-Reaches p' (c ∷ cs) u (us ++ after_uri) print
    then entity_loop (record p' { method = c ∷ cs }) (u ∷ []) us after_uri gs
    then version-Reaches v (record p' { method = c ∷ cs; entity = u ∷ us }) rest w
