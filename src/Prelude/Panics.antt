-- ===== src/Prelude/Panics.antt =====
-- The outcome of code that may panic.
pub data Outcome {ℓ} (A : Type ℓ) : Type ℓ where
  returns : A → Outcome A
  panics : Outcome A

abbrev pub then_return {ℓ κ} : {A : Type ℓ} {B : Type κ} → (A → B) → Outcome A → Outcome B
then_return f (returns a) = returns (f a)
then_return f panics = panics
