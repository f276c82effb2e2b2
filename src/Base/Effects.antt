-- ===== src/Base/Effects.antt =====
-- The outcome of code that can throw. `undefined` marks a step to which C++ gives no meaning.
use mathlib.Core.Path.{◌≡◌, refl}

pub data Fault : Type 0 where
  io_error protocol_error compression_error encoding_error internal_error not_implemented
        undefined :
      Fault

pub data Outcome {ℓ} (A : Type ℓ) : Type ℓ where
  ok : A → Outcome A
  raise : Fault → Outcome A

infixl 5 ◌>>=◌
abbrev pub ◌>>=◌ {ℓ κ} : {A : Type ℓ} {B : Type κ} → Outcome A → (A → Outcome B) → Outcome B
ok a >>= f = f a
raise e >>= f = raise e

-- A chain that comes to an end: its first part did, and the rest from what that returned.
pub >>=-eq-ok {ℓ κ} :
    {A : Type ℓ} {B : Type κ} (first : Outcome A) (rest : A → Outcome B) {y : B}
    → (first >>= rest) ≡ ok y
    → (x : A) × (first ≡ ok x) × (rest x ≡ ok y)
>>=-eq-ok (ok x) rest e = (x, refl, e)
>>=-eq-ok (raise fault) rest e = cc
