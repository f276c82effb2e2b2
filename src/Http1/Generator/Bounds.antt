-- ===== src/Http1/Generator/Bounds.antt =====
-- src/xzero/http/http1/Generator.cc: how much content is written.
use x.Base.{
  ap, ◌∙◌, ℕ, ◌+◌, ◌-◌, ◌%◌, ◌^◌, ◌<◌, ◌≤◌, ◌≡◌, refl, arith, true, false, List, [], ◌∷◌, ◌++◌,
  Bytes, length, length-append, leb, leb→le, Bool-cases, inl, inr,
}
use x.Http1.Generator.{
  Generator, Outcome, returns, throws, fails, ◌>>=◌, write, remaining, generate_body,
  generate_file_body,
}

-- A part of the content, in memory or in a file.
pub data Part : Type 0 where
  in_memory in_file : Bytes → Part

-- `generateBody`.
unfoldable pub generate_part : Generator → Part → Outcome
generate_part g (in_memory chunk) = generate_body g chunk
generate_part g (in_file chunk) = generate_file_body g chunk

-- One part of the content after the other.
unfoldable pub generate_parts : Generator → List Part → Outcome
generate_parts g [] = returns g
generate_parts g (part ∷ parts) = generate_part g part >>= λ g'. generate_parts g' parts

-- A generator between two parts of content whose length is known.
pub record IsSized (g : Generator) : Type 0 where
  pub known : g.chunked ≡ false
  pub small : g.content_length < 2 ^ 64
  pub within : g.actual_content_length ≤ g.content_length

-- What was written since is what is counted, and the length that was announced is the same.
pub record Counts (g f : Generator) : Type 0 where
  pub sized : IsSized f
  pub length_same : f.content_length ≡ g.content_length
  pub counted :
      length f.written + g.actual_content_length ≡ length g.written + f.actual_content_length

abbrev pub size : Part → ℕ
size (in_memory chunk) = length chunk
size (in_file chunk) = length chunk

abbrev pub total : List Part → ℕ
total [] = 0
total (part ∷ parts) = size part + total parts

-- The end of calls with `n` bytes in all.
abbrev pub Bounded : ℕ → Generator → Outcome → Type 0
Bounded n g (returns f) = Counts g f × (f.actual_content_length ≡ g.actual_content_length + n)
Bounded n g (throws f) = Counts g f × (g.content_length < g.actual_content_length + n)
Bounded n g fails = ⊥

Counts-refl : (g : Generator) → IsSized g → Counts g g
Counts-refl g v = record { sized = v; length_same = refl; counted = refl }

Counts-trans : (g f e : Generator) → Counts g f → Counts f e → Counts g e
Counts-trans g f e h k = record {
  sized = k.sized;
  length_same = omega (arith, h.length_same, k.length_same);
  counted = omega (arith, h.counted, k.counted);
}

remaining_lem :
    (g : Generator) → IsSized g → remaining g ≡ g.content_length - g.actual_content_length
remaining_lem g v = omega (arith, v.small, v.within)

-- A part that fits.
module _ (g f : Generator) (chunk : Bytes) where
  grown :
      IsSized g
      → leb (length chunk) (remaining g) ≡ true
      → f.chunked ≡ g.chunked
      → f.content_length ≡ g.content_length
      → f.actual_content_length ≡ (g.actual_content_length + length chunk) % 2 ^ 64
      → f.written ≡ g.written ++ chunk
      → Bounded (length chunk) g (returns f)
  grown v e c l a w =
      let fits : length chunk ≤ g.content_length - g.actual_content_length =
        rw (remaining_lem g v) at (leb→le (length chunk) (remaining g) e) in
      let long : length f.written ≡ length g.written + length chunk =
        ap length w ∙ length-append g.written chunk in
      let sum : f.actual_content_length ≡ g.actual_content_length + length chunk =
        omega (arith, v.small, v.within) in
      (
        record {
          sized = record {
            known = c ∙ v.known;
            small = omega (arith, v.small);
            within = omega (arith, v.within);
          };
          length_same = l;
          counted = omega arith;
        },
        sum,
      )

too_much :
    (g : Generator) (chunk : Bytes)
    → IsSized g
    → leb (length chunk) (remaining g) ≡ false
    → Bounded (length chunk) g (throws g)
too_much g chunk v e =
    let m = remaining_lem g v in
    let more : remaining g < length chunk = ground arith in
    (Counts-refl g v, omega (arith, v.within))

part-Bounded :
    (g : Generator) (part : Part) → IsSized g → Bounded (size part) g (generate_part g part)
unfolding generate_part generate_body generate_file_body
part-Bounded g (in_memory chunk) v = elim (Bool-cases (leb (length chunk) (remaining g))) [
  | inl e ↦
      let f = record (write g chunk) {
        actual_content_length = (g.actual_content_length + length chunk) % 2 ^ 64;
      } in
      let made : generate_body g chunk ≡ returns f = rw (v.known, e, generate_body) refl in
      rw made (grown g f chunk v e refl refl refl refl)
  | inr e ↦
      let made : generate_body g chunk ≡ throws g = rw (v.known, e, generate_body) refl in
      rw made (too_much g chunk v e)
]
part-Bounded g (in_file chunk) v = elim (Bool-cases (leb (length chunk) (remaining g))) [
  | inl e ↦
      let f = record (write g chunk) {
        bytes_transmitted = (g.bytes_transmitted + length chunk) % 2 ^ 64;
        actual_content_length = (g.actual_content_length + length chunk) % 2 ^ 64;
      } in
      let made : generate_file_body g chunk ≡ returns f =
        rw (v.known, e, generate_file_body) refl in
      rw made (grown g f chunk v e refl refl refl refl)
  | inr e ↦
      let made : generate_file_body g chunk ≡ throws g = rw (v.known, e, generate_file_body) refl in
      rw made (too_much g chunk v e)
]

-- What follows a part.
then-Bounded :
    (n k : ℕ) (g : Generator) (o : Outcome) (rest : Generator → Outcome)
    → Bounded n g o
    → ((f : Generator) → IsSized f → Bounded k f (rest f))
    → Bounded (n + k) g (o >>= rest)
then-Bounded n k g fails rest h later = h
then-Bounded n k g (throws f) rest (h, e) later = (h, omega arith)
then-Bounded n k g (returns f) rest (h, e) later = joined (rest f) (later f h.sized)
  where
    joined : (o : Outcome) → Bounded k f o → Bounded (n + k) g o
    joined fails l = l
    joined (returns d) (l, a) = (Counts-trans g f d h l, omega arith)
    joined (throws d) (l, a) = (Counts-trans g f d h l, omega (arith, h.length_same))

-- Content of known length, in parts from memory and from files, and no more of it counted so far than
-- the length: if the parts fit into what remains of the length, then all calls return and count them;
-- if they do not, then a call throws. In both cases what was written is what was counted, and that is
-- no more than the length.
pub generate_parts-Bounded :
    (g : Generator) (parts : List Part)
    → IsSized g
    → Bounded (total parts) g (generate_parts g parts)
unfolding generate_parts
generate_parts-Bounded g [] v = (Counts-refl g v, omega arith)
generate_parts-Bounded g (part ∷ parts) v =
    then-Bounded (size part) (total parts) g (generate_part g part) (λ f. generate_parts f parts)
      (part-Bounded g part v) (λ f w. generate_parts-Bounded f parts w)
