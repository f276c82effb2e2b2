-- ===== src/Http1/RoundTrip/Header.antt =====
-- src/xzero/http/http1: the header fields.
use x.Base.{
  ℕ, ◌+◌, ◌%◌, ◌^◌, ◌≡◌, refl, ap, ◌∙◌, arith, Bool, true, false, ◌||◌, List, [], ◌∷◌, ◌++◌,
  append-nil, Bytes, Option, ◌==◌, ok, if◌then◌else◌,
}
use x.Http1.Chars.{cr, lf, sp, ht, is_token, is_text}
use x.Http1.State.{
  header_value_begin, Parser, become, Event, header_name_begin, header_name, header_value,
  header_value_end,
}
use x.Http1.Parser.Headers.{note_header, header_value_end_round}
use x.Http1.Parser.Step.{goes}
use x.Http1.Parser.Loop.{round}
use x.Http1.RoundTrip.Leads.{
  advance, then_advance, counted, Are, Reaches, ◌then◌, advance-Reaches, gather, differs,
}

-- No white space, which would be skipped in front of a value.
abbrev pub is_start : ℕ → Bool
is_start b = if b == sp || b == ht then false else is_text b

-- A value, that its reader takes as it is.
abbrev pub IsValue : Bytes → Type 0
IsValue [] = ⊥
IsValue (b ∷ bs) = (is_start b ≡ true) × Are is_text bs

abbrev pub IsName : Bytes → Type 0
IsName [] = ⊥
IsName (b ∷ bs) = Are is_token (b ∷ bs)

abbrev at_name : Parser → Bytes → Parser
at_name p acc = record p { state = header_name; name = acc }

-- At a value, behind the white space in front of it.
abbrev at_value : Parser → Bytes → Parser
at_value p acc = record p {
  state = header_value;
  value = acc;
  lws_next = header_value;
  lws_null = header_value_end;
}

is_start-white : (b : ℕ) → is_start b ≡ true → (b == sp || b == ht) ≡ false
is_start-white b h = ground arith

is_start-text : (b : ℕ) → is_start b ≡ true → is_text b ≡ true
is_start-text b h = ground arith

name_loop :
    (p : Parser) (acc cs rest : Bytes)
    → Are is_token cs
    → Reaches (at_name p acc) (cs ++ rest) [] (at_name p (acc ++ cs)) rest
unfolding round
name_loop p = gather is_token (at_name p) λ n c acc src h. rw h refl

-- The parser inside of a value; where white space leads to was set at the colon.
abbrev in_value : Parser → Bytes → Parser
in_value p acc = record p { state = header_value; value = acc }

value_loop :
    (p : Parser) (acc cs rest : Bytes)
    → Are is_text cs
    → Reaches (in_value p acc) (cs ++ rest) [] (in_value p (acc ++ cs)) rest
unfolding round is_text
value_loop p =
    gather is_text (in_value p)
      λ n c acc src h. let e : (c == cr) ≡ false = differs is_text cr c refl h in rw (e, h) refl

colon-Reaches :
    (p : Parser) (v : ℕ) (src : Bytes)
    → is_start v ≡ true
    → Reaches
        (become p header_name)
        (b':' ∷ sp ∷ v ∷ src)
        []
        (in_value
          (record p { lws_next = header_value_begin; lws_null = header_value_end })
          (v ∷ []))
        src
unfolding round is_token
colon-Reaches p v src g =
    advance-Reaches 4 (λ n. ((((n + 1) % 2 ^ 64 + 1) % 2 ^ 64 + 0) % 2 ^ 64 + 1) % 2 ^ 64)
      λ n. rw (is_start-white v g, is_start-text v g) refl

header_value_end_round-ok :
    (p q : Parser) (es : List Event)
    → note_header p ≡ ok (q, es)
    → header_value_end_round p
      ≡ goes 0 (record q { name = []; value = []; state = header_name_begin }) es
unfolding header_value_end_round
header_value_end_round-ok p q es e = rw (e, header_value_end_round) refl

module _ (l : Option ℕ → Option ℕ) (k : Bool → Bool) (es : List Event) where
  -- What a parser notes of a field.
  abbrev pub Notes : Bytes → Bytes → Type 0
  Notes name value =
      (q : Parser)
      → note_header (record q { name = name; value = value })
        ≡ ok (
          record q {
            name = name;
            value = value;
            content_length = l q.content_length;
            chunked = k q.chunked;
          },
          es,
        )

  -- After a field, at the next.
  abbrev pub noted : Parser → Parser
  noted p = record p {
    state = header_name_begin;
    lws_next = header_value;
    lws_null = header_value_end;
    name = [];
    value = [];
    content_length = l p.content_length;
    chunked = k p.chunked;
  }

  value_end-Reaches :
      (p : Parser) (src : Bytes) (c : ℕ)
      → Notes p.name p.value
      → Reaches
          (become p header_value_end)
          (c ∷ src)
          es
          (record (noted p) { lws_next = p.lws_next; lws_null = p.lws_null })
          (c ∷ src)
  unfolding round
  value_end-Reaches p src c n =
      advance-Reaches 1 (λ m. (m + 0) % 2 ^ 64)
        λ m.
          let q = counted m (become p header_value_end) in
          ap (then_advance (advance 0) (c ∷ src)) (header_value_end_round-ok q _ es (n q))
          ∙ rw (append-nil es) refl

  end-Reaches :
      (p : Parser) (c : ℕ) (rest : Bytes)
      → (c == sp || c == ht) ≡ false
      → Notes p.name p.value
      → Reaches (become p header_value) (cr ∷ lf ∷ c ∷ rest) es (noted p) (c ∷ rest)
  unfolding round
  end-Reaches p c rest w n =
      let q = record p { lws_next = header_value; lws_null = header_value_end } in
      let line : Reaches (become p header_value) (cr ∷ lf ∷ c ∷ rest) [] (become q header_value_end)
          (c ∷ rest) =
        advance-Reaches 3 (λ m. (((m + 1) % 2 ^ 64 + 1) % 2 ^ 64 + 0) % 2 ^ 64) (λ m. rw w refl) in
      line then value_end-Reaches q rest c n

  pub field-Reaches :
      (p : Parser) (name value : Bytes) (c : ℕ) (rest : Bytes)
      → IsName name
      → IsValue value
      → (c == sp || c == ht) ≡ false
      → Notes name value
      → Reaches
          (become p header_name_begin)
          (name ++ (b':' ∷ sp ∷ value ++ (cr ∷ lf ∷ c ∷ rest)))
          es
          (noted p)
          (c ∷ rest)
  unfolding round
  field-Reaches p [] value c rest h g w n = absurd h
  field-Reaches p (b ∷ bs) [] c rest h g w n = absurd g
  field-Reaches p (b ∷ bs) (v ∷ vs) c rest (h, hs) (g, gs) w n =
      let after_value = cr ∷ lf ∷ c ∷ rest in
      let after_name = b':' ∷ sp ∷ v ∷ (vs ++ after_value) in
      let named = record p { name = b ∷ bs } in
      let colon = record named { lws_next = header_value_begin; lws_null = header_value_end } in
      let start : Reaches (become p header_name_begin) (b ∷ (bs ++ after_name)) []
          (at_name p (b ∷ [])) (bs ++ after_name) =
        advance-Reaches 1 (λ n. (n + 1) % 2 ^ 64) (λ n. rw h refl) in
      start
      then name_loop p (b ∷ []) bs after_name hs
      then colon-Reaches named v (vs ++ after_value) g
      then value_loop colon (v ∷ []) vs after_value gs
      then end-Reaches (record colon { value = v ∷ vs }) c rest w n
