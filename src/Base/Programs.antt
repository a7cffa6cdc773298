-- ===== src/Base/Programs.antt =====
-- The result of a C function that works on a state `S`, and programs that give such a result.
use mathlib.Core.Option.{Option, none, some}
use mathlib.Core.Bool.{Bool, true, false}

-- `fault` is undefined behaviour (an access out of bounds, a shift too wide, a division by zero).
-- `waiting` is a call that has not returned: the given events or rounds are used up.
pub data Outcome {ℓ} (S A : Type ℓ) : Type ℓ where
  done : A → S → Outcome S A
  fault : Outcome S A
  waiting : Outcome S A

abbrev pub Program : Type 0 → Type 0 → Type 0
Program S A = S → Outcome S A

abbrev pub pure : {S A : Type 0} → A → Program S A
pure a s = done a s

infixl 5 ◌>>=◌ ◌>>◌
abbrev pub ◌>>=◌ : {S A B : Type 0} → Program S A → (A → Program S B) → Program S B
◌>>=◌ m f s = elim (m s) [ done a s' ↦ f a s' | fault ↦ fault | waiting ↦ waiting ]

abbrev pub ◌>>◌ : {S B : Type 0} → Program S (Unit {0}) → Program S B → Program S B
m >> k = m >>= λ _. k

abbrev pub stop : {S A : Type 0} → Program S A
stop s = fault

-- An access that is out of bounds where there is no value.
abbrev pub checked : {S A : Type 0} → Option A → Program S A
checked none s = fault
checked (some a) s = done a s

abbrev pub when : {S : Type 0} → Bool → Program S (Unit {0}) → Program S (Unit {0})
when true m = m
when false m = pure tt
