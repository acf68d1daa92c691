-- ===== src/Prelude/Results.antt =====
-- What a C++ function that may throw returns.

-- The exceptions that the modelled code throws. `undefined` is none of them: it stands for an
-- access outside its block, which C++ leaves undefined.
pub data Failure : Type 0 where
  invalid_argument out_of_range length_error runtime_error undefined : Failure

pub data Result {ℓ} (A : Type ℓ) : Type ℓ where
  ok : A → Result A
  throws : Failure → Result A

infixl 5 ◌>>=◌
abbrev pub ◌>>=◌ {ℓ κ} : {A : Type ℓ} {B : Type κ} → Result A → (A → Result B) → Result B
ok a >>= f = f a
throws e >>= f = throws e
