-- ===== src/Spec/Loader/Words.antt =====
-- The bits of a configuration byte, and the words that the card is to get.
use sbndaq_wr.Base.{
  ℕ, zero, suc, ◌+◌, ◌*◌, ◌/◌, ◌%◌, ◌^◌, ◌<◌, ◌≡◌, refl, arith, ◌==◌, ltb, ==_iff, ltb→lt,
  holds_from, holds_from_lookup, Bool, true, List, [], ◌∷◌,
}
use sbndaq_wr.Spec.Loader.{reverse_bits8}

-- The lowest `n` bits of a number, read from the other end.
abbrev pub mirror : ℕ → ℕ → ℕ
mirror zero x = 0
mirror (suc n) x = x % 2 * 2 ^ n + mirror n (x / 2)

mirrors : ℕ → Bool
mirrors x = reverse_bits8 x == mirror 8 x

is_byte : ℕ → Bool
is_byte x = ltb (reverse_bits8 x) 256

mirror_table : holds_from mirrors 0 256 ≡ true
unfolding holds_from mirrors
mirror_table = refl

byte_table : holds_from is_byte 0 256 ≡ true
unfolding holds_from is_byte
byte_table = refl

-- The masks and shifts of `reverse_bits8` give a byte with its eight bits in the other order.
pub reverse_bits8-mirror : (x : ℕ) → x < 256 → reverse_bits8 x ≡ mirror 8 x
unfolding mirrors
reverse_bits8-mirror x h =
    (==_iff (reverse_bits8 x) (mirror 8 x)).0
      (holds_from_lookup mirrors 0 256 (omega arith) h mirror_table)

pub reverse_bits8-byte : (x : ℕ) → x < 256 → reverse_bits8 x < 256
unfolding is_byte
reverse_bits8-byte x h =
    ltb→lt (reverse_bits8 x) 256 (holds_from_lookup is_byte 0 256 (omega arith) h byte_table)

abbrev pub AllBytes : List ℕ → Type 0
AllBytes [] = Unit
AllBytes (b ∷ bytes) = (b < 256) × AllBytes bytes

-- Four bytes as a little-endian word, each with its bits in the other order.
abbrev pub mirrored_word : ℕ → ℕ → ℕ → ℕ → ℕ
mirrored_word b0 b1 b2 b3 =
    mirror 8 b0 + mirror 8 b1 * 2 ^ 8 + mirror 8 b2 * 2 ^ 16 + mirror 8 b3 * 2 ^ 24

-- The first `n` words of the data.
abbrev pub words : ℕ → List ℕ → List ℕ
words zero bytes = []
words (suc n) (b0 ∷ b1 ∷ b2 ∷ b3 ∷ rest) = mirrored_word b0 b1 b2 b3 ∷ words n rest
words (suc n) (b0 ∷ b1 ∷ b2 ∷ []) = []
words (suc n) (b0 ∷ b1 ∷ []) = []
words (suc n) (b0 ∷ []) = []
words (suc n) [] = []
