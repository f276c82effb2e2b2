-- ===== src/Hpack/Parser/Progress.antt =====
-- src/xzero/http/hpack/Parser.cc: every field takes a byte of the block, so that the loop ends.
use x.Base.{
  ℕ, zero, suc, ◌+◌, ◌-◌, ◌^◌, ◌<◌, ◌≤◌, ◌≡◌, refl, ap, arith, Bool, true, false, [], ◌∷◌, Bytes,
  length, take, drop, bit_and, ltb, ◌==◌, if◌then◌else◌, Fault, Outcome, ok, raise, ◌>>=◌,
  length-drop,
}
use x.Hpack.Table.{DynamicTable, add, set_max_size}
use x.Hpack.Integer.{add_group, decode_tail, decode_int}
use x.Hpack.Parser.{
  Parser, FieldRef, referred, still_there, huffman_decode, decode_string, field_at,
  indexed_header_field, add_referred, add_literal, incremental_indexed_field, update_table_size,
  literal_header, literal_header_no_index, literal_header_never_index, parse_field, parse_fields,
  parse,
}

-- A result that leaves fewer than `n` bytes, if it is one.
abbrev pub Leaves {ℓ} : {A : Type ℓ} → ℕ → Outcome (A × Bytes) → Type ℓ
Leaves {A = A} n r = (a : A) (rest : Bytes) → r ≡ ok (a, rest) → length rest < n

module _ {ℓ} {A : Type ℓ} (n : ℕ) where
  Leaves-ok : (a : A) (rest : Bytes) → length rest < n → Leaves n (ok (a, rest))
  Leaves-ok a rest h b more e = let same : rest ≡ more = cc in omega (arith, ap length same)

  Leaves-raise : (f : Fault) → Leaves {A = A} n (raise f)
  Leaves-raise f a rest e = cc

  Leaves-if :
      {x y : Outcome (A × Bytes)} (b : Bool)
      → Leaves n x
      → Leaves n y
      → Leaves n (if b then x else y)
  Leaves-if true hx hy = hx
  Leaves-if false hx hy = hy

  Leaves-after {κ} :
      {B : Type κ} (m : Outcome B) (f : B → Outcome (A × Bytes))
      → ((b : B) → Leaves n (f b))
      → Leaves n (m >>= f)
  Leaves-after (ok b) f h = h b
  Leaves-after (raise e) f h = Leaves-raise e

  Leaves-bind {κ} :
      {B : Type κ} (m : Outcome (B × Bytes)) (f : B × Bytes → Outcome (A × Bytes)) (k : ℕ)
      → Leaves k m
      → ((b : B) (rest : Bytes) → length rest < k → Leaves n (f (b, rest)))
      → Leaves n (m >>= f)
  Leaves-bind (ok (b, rest)) f k before h = h b rest (before b rest refl)
  Leaves-bind (raise e) f k before h = Leaves-raise e

decode_tail-Leaves :
    (src : Bytes) (output shift : ℕ) → Leaves (length src) (decode_tail src output shift)
unfolding decode_tail
decode_tail-Leaves [] output shift = Leaves-raise _ _
decode_tail-Leaves (octet ∷ src) output shift =
    step (add_group output octet shift) (bit_and octet 128 == 0)
      λ o. decode_tail-Leaves src o (shift + 7)
  where
    step :
        (r : Outcome ℕ) (last : Bool)
        → ((o : ℕ) → Leaves (length src) (decode_tail src o (shift + 7)))
        → Leaves (suc (length src)) (elim r [
          | raise f ↦ raise f
          | ok o ↦ elim last [ true ↦ ok (o, src) | false ↦ decode_tail src o (shift + 7) ]
        ])
    step (raise f) last later = Leaves-raise _ f
    step (ok o) true later = Leaves-ok _ o src (omega arith)
    step (ok o) false later =
        λ v rest e. let less : length rest < length src = later o v rest e in omega arith

decode_int-Leaves :
    (prefix_bits : ℕ) (src : Bytes) → Leaves (length src) (decode_int prefix_bits src)
unfolding decode_int
decode_int-Leaves prefix_bits [] v rest h = ground arith
decode_int-Leaves prefix_bits (octet ∷ src) v rest h =
    ground (arith, decode_tail-Leaves src (bit_and octet (2 ^ prefix_bits - 1)) 0 v rest)

decode_string-Leaves : (src : Bytes) → Leaves (length src) (decode_string src)
unfolding decode_string
decode_string-Leaves [] = Leaves-raise 0 _
decode_string-Leaves (octet ∷ src) =
    Leaves-bind _ _ _ (suc (length src)) (decode_int-Leaves 7 (octet ∷ src)) λ slen more h.
      let short : length (drop slen more) < suc (length src) =
        omega (arith, length-drop slen more) in
      Leaves-if _ _ (Leaves-raise _ _) (
        Leaves-if _ _ (Leaves-ok _ _ _ short)
          (Leaves-after _ (huffman_decode (take slen more)) _ λ output. Leaves-ok _ output _ short))

indexed_header_field-Leaves :
    (p : Parser) (src : Bytes) → Leaves (length src) (indexed_header_field p src)
unfolding indexed_header_field
indexed_header_field-Leaves p src =
    Leaves-bind _ _ _ (length src) (decode_int-Leaves 7 src)
      λ index rest h. Leaves-after _ (field_at p.table index) _ λ field. Leaves-ok _ _ _ h

add_referred-Leaves :
    (n : ℕ) (p : Parser) (field : FieldRef) (value rest : Bytes)
    → length rest < n
    → Leaves n (add_referred p field value rest)
unfolding add_referred
add_referred-Leaves n p field value rest h =
    Leaves-after _ (add p.table (record { name = (referred field).name; value = value })) _
      λ t. Leaves-if _ (still_there field t) (Leaves-ok _ _ _ h) (Leaves-raise _ _)

add_literal-Leaves :
    (n : ℕ) (p : Parser) (name value rest : Bytes)
    → length rest < n
    → Leaves n (add_literal p name value rest)
unfolding add_literal
add_literal-Leaves n p name value rest h =
    Leaves-after _ (add p.table (record { name = name; value = value })) _ λ t. Leaves-ok _ _ _ h

-- Two strings of the block, one after the other.
Leaves-strings {ℓ} :
    {A : Type ℓ} (n : ℕ) (src : Bytes) (f : Bytes → Bytes → Bytes → Outcome (A × Bytes))
    → length src < n
    → ((name value rest : Bytes) → length rest < n → Leaves n (f name value rest))
    → Leaves n (do
      (name, rest) ← decode_string src
      (value, rest') ← decode_string rest
      f name value rest')
Leaves-strings n src f small h =
    Leaves-bind _ (decode_string src) _ (length src) (decode_string-Leaves src) λ name rest g.
      Leaves-bind _ (decode_string rest) _ (length rest) (decode_string-Leaves rest)
        λ value rest' g'. let less : length rest' < n = omega arith in h name value rest' less

-- A field that the tables have, and a string of the block.
Leaves-named {ℓ} :
    {A : Type ℓ} (n : ℕ) (t : DynamicTable) (index : ℕ) (src : Bytes)
    (f : FieldRef → Bytes → Bytes → Outcome (A × Bytes))
    → length src < n
    → ((field : FieldRef) (value rest : Bytes) → length rest < n → Leaves n (f field value rest))
    → Leaves n (do field ← field_at t index; (value, rest) ← decode_string src; f field value rest)
Leaves-named n t index src f small h = Leaves-after _ (field_at t index) _ λ field.
    Leaves-bind _ (decode_string src) _ (length src) (decode_string-Leaves src)
      λ value rest g. let less : length rest < n = omega arith in h field value rest less

incremental_indexed_field-Leaves :
    (p : Parser) (src : Bytes) → Leaves (length src) (incremental_indexed_field p src)
unfolding incremental_indexed_field
incremental_indexed_field-Leaves p src =
    Leaves-bind _ _ _ (length src) (decode_int-Leaves 6 src) λ index rest h.
      Leaves-if _ (index == 0)
        (Leaves-strings _ rest (λ name value rest'. add_literal p name value rest') h
          (λ name value rest'. add_literal-Leaves _ p name value rest'))
        (Leaves-named _ p.table index rest (λ field value rest'. add_referred p field value rest') h
          (λ field value rest'. add_referred-Leaves _ p field value rest'))

update_table_size-Leaves :
    (p : Parser) (src : Bytes) → Leaves (length src) (update_table_size p src)
unfolding update_table_size
update_table_size-Leaves p src =
    Leaves-bind _ _ _ (length src) (decode_int-Leaves 5 src) λ size rest h.
      Leaves-if _ (ltb p.max_size size) (Leaves-raise _ _)
        (Leaves-after _ (set_max_size p.table size) _ λ t. Leaves-ok _ _ _ h)

literal_header-Leaves :
    (sensitive : Bool) (p : Parser) (src : Bytes)
    → Leaves (length src) (literal_header sensitive p src)
unfolding literal_header
literal_header-Leaves sensitive p src =
    Leaves-bind _ _ _ (length src) (decode_int-Leaves 4 src) λ index rest h.
      Leaves-if _ (index == 0) (Leaves-strings _ rest _ h λ name value rest' g. Leaves-ok _ _ _ g)
        (Leaves-named _ p.table index rest _ h λ field value rest' g. Leaves-ok _ _ _ g)

parse_field-Leaves :
    (octet : ℕ) (p : Parser) (src : Bytes) → Leaves (length src) (parse_field octet p src)
unfolding parse_field literal_header_no_index literal_header_never_index
parse_field-Leaves octet p src = Leaves-if _ _ (indexed_header_field-Leaves p src) (
    Leaves-if _ _ (incremental_indexed_field-Leaves p src) (
      Leaves-if _ _ (update_table_size-Leaves p src)
        (Leaves-if _ _ (literal_header-Leaves true p src) (literal_header-Leaves false p src))))

same_rest :
    (n f g : ℕ) (r : Outcome (Parser × Bytes))
    → Leaves n r
    → ((q : Parser) (rest : Bytes)
        → length rest < n
        → parse_fields f q rest ≡ parse_fields g q rest)
    → (r >>= λ s. parse_fields f s.0 s.1) ≡ (r >>= λ s. parse_fields g s.0 s.1)
same_rest n f g (ok (q, rest)) h same = same q rest (h q rest refl)
same_rest n f g (raise e) h same = refl

rounds_enough :
    (f g : ℕ) (p : Parser) (src : Bytes)
    → length src ≤ f
    → length src ≤ g
    → parse_fields f p src ≡ parse_fields g p src
unfolding parse_fields
rounds_enough f g p [] hf hg = refl
rounds_enough zero g p (octet ∷ src) hf hg = absurd (omega arith)
rounds_enough (suc f) zero p (octet ∷ src) hf hg = absurd (omega arith)
rounds_enough (suc f) (suc g) p (octet ∷ src) hf hg =
    same_rest (suc (length src)) f g (parse_field octet p (octet ∷ src))
      (parse_field-Leaves octet p (octet ∷ src))
      λ q rest less. rounds_enough f g q rest (omega arith) (omega arith)

-- As many rounds as the block has bytes are enough: with any larger number, the decoder does what it
-- does with that.
pub parse-rounds :
    (p : Parser) (block : Bytes) (more : ℕ)
    → parse_fields (length block + more) p block ≡ parse p block
unfolding parse
parse-rounds p block more =
    rounds_enough (length block + more) (length block) p block (omega arith) (omega arith)
