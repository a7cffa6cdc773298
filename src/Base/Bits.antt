-- ===== src/Base/Bits.antt =====
-- `~` on 32 bits, and the lowest bit of a word.
use Prim.Native.Nat.{min, max, digits, bit_and-bitwise, bit_or-bitwise}
use Prim.Native.Nat.{ℕ, zero, suc, ◌-◌, ◌/◌, ◌%◌, ◌^◌, ◌+◌, ◌≤◌, bit_and, bit_or}
use mathlib.Core.Path.{◌≡◌, refl}
use native.Mathlib.Omega.{arith}

-- `~word` on 32 bits.
abbrev pub bit_not32 : ℕ → ℕ
bit_not32 word = 2 ^ 32 - 1 - word % 2 ^ 32

-- A word has no bit in common with 0, whatever fuel its digits are counted with.
no_common_digit : (rounds word : ℕ) → digits (λ _. 0) min rounds word 0 ≡ 0
no_common_digit zero zero = refl
no_common_digit zero (suc word) = refl
no_common_digit (suc rounds) zero = refl
no_common_digit (suc rounds) (suc word) = omega (arith, no_common_digit rounds (suc word / 2))

pub bit_and-one : (a : ℕ) → bit_and a 1 ≡ a % 2
bit_and-one zero = refl
bit_and-one (suc n) = omega (arith, bit_and-bitwise (suc n) 1, no_common_digit n (suc n / 2))

-- Digits with nothing to add to them.
same_digits : (rounds word : ℕ) → word ≤ rounds → digits (λ b. b) max rounds word 0 ≡ word
same_digits zero zero h = refl
same_digits zero (suc word) h = absurd (omega arith)
same_digits (suc rounds) zero h = refl
same_digits (suc rounds) (suc word) h =
    omega (arith, same_digits rounds (suc word / 2) (omega arith))

-- A bit below an even word.
pub bit_or-one : (a : ℕ) → a % 2 ≡ 0 → bit_or a 1 ≡ a + 1
bit_or-one zero h = refl
bit_or-one (suc n) h =
    omega (arith, bit_or-bitwise (suc n) 1, same_digits n (suc n / 2) (omega arith))
