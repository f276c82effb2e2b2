-- ===== src/Wire/Reader.antt =====
-- Code that reads a `BinaryReader` step by step, as a monad: a throw ends it, and the bytes that
-- are left pass from each step to the next. Two predicates say what such code does, one for the
-- bytes of a writer, one for any bytes; each has a rule for a step and for the end.
use x.Base.{◌≤◌, ◌≡◌, refl, arith, [], ◌++◌, append_assoc, Bytes, length, Outcome, ok, >>=-eq-ok}
use x.Base.{◌>>=◌ as bind}

abbrev pub Reader {ℓ} : Type ℓ → Type ℓ
Reader A = Bytes → Outcome (A × Bytes)

unfoldable pub pure {ℓ} : {A : Type ℓ} → A → Reader A
pure a src = ok (a, src)

infixl 5 ◌>>=◌
unfoldable pub ◌>>=◌ {ℓ κ} : {A : Type ℓ} {B : Type κ} → Reader A → (A → Reader B) → Reader B
◌>>=◌ m f src = bind (m src) (λ (a, rest). f a rest)

-- Before any rest, `m` takes exactly `bytes` and returns `a`.
pub record Reads {ℓ} {A : Type ℓ} (m : Reader A) (bytes : Bytes) (a : A) : Type ℓ where
  pub run : (rest : Bytes) → m (bytes ++ rest) ≡ ok (a, rest)

-- What `m` leaves is no longer than what it was given.
pub record Shrinks {ℓ} {A : Type ℓ} (m : Reader A) : Type ℓ where
  pub run : (src : Bytes) (a : A) (rest : Bytes) → m src ≡ ok (a, rest) → length rest ≤ length src

module _ {ℓ κ} {A : Type ℓ} {B : Type κ} where
  pub Reads-bind :
      {m : Reader A} (f : A → Reader B) {xs ys : Bytes} {a : A} {b : B}
      → Reads m xs a
      → Reads (f a) ys b
      → Reads (m >>= f) (xs ++ ys) b
  unfolding ◌>>=◌
  Reads-bind f {xs = xs} {ys = ys} r s = record {
    run = λ rest. rw append_assoc (rw (r.run (ys ++ rest)) (s.run rest));
  }

  pub Reads-last :
      {m : Reader A} (g : A → B) {xs : Bytes} {a : A} {b : B}
      → Reads m xs a
      → g a ≡ b
      → Reads (m >>= λ a. pure (g a)) xs b
  unfolding ◌>>=◌ pure
  Reads-last g r e = record { run = λ rest. rw (r.run rest) (rw e) }

  pub Shrinks-bind :
      {m : Reader A} (f : A → Reader B) → Shrinks m → ((a : A) → Shrinks (f a)) → Shrinks (m >>= f)
  unfolding ◌>>=◌
  Shrinks-bind {m} f s t = record {
    run = λ src b rest e.
        let (p, first, second) = >>=-eq-ok (m src) (λ (a, r). f a r) e in
        omega (arith, s.run src p.0 p.1 first, (t p.0).run p.1 b rest second);
  }

pub Reads-pure {ℓ} : {A : Type ℓ} (a : A) → Reads (pure a) [] a
unfolding pure
Reads-pure a = record { run = λ rest. refl }

pub Shrinks-pure {ℓ} : {A : Type ℓ} (a : A) → Shrinks (pure a)
unfolding pure
Shrinks-pure a = record { run = λ src b rest e. ground arith }
