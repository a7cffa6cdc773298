-- ===== src/Spec/Tests.antt =====
-- Tests and concrete cases of the results on the SPEC drivers.
use sbndaq_wr.Base.{
  ℕ, ◌≡◌, refl, List, [], ◌∷◌, some, true, false, arith, length, waiting, replicate,
  length-replicate,
}
use sbndaq_wr.Base.Triples.{Ensures}
use sbndaq_wr.Mmio.{Env, History, write, syscon, zero_time}
use sbndaq_wr.Spec.I2c.{Fmc}
use sbndaq_wr.Spec.I2c.Wire.{begin, nothing, began, start_seen, observe}
use sbndaq_wr.Spec.I2c.Bytes.{IsIdle, IsBusy}
use sbndaq_wr.Spec.Eeprom.{eeprom_size, read_from, write_byte}
use sbndaq_wr.Spec.Eeprom.Transaction.{IsReadFrom, IsWritten, read_from-Triple, write_byte-Triple}
use sbndaq_wr.Spec.Eeprom.Image.{IsFake}
use sbndaq_wr.Spec.Loader.{reverse_bits8, loader_low_level, wait_fifo}
use sbndaq_wr.Spec.Loader.Words.{AllBytes, mirror, words, reverse_bits8-mirror}
use sbndaq_wr.Spec.Loader.Sent.{IsSent, loader_low_level-Triple}

-- A card whose registers all read 0x40: the data line is low, the reset of the loader is seen, and the FIFO is never full.
abbrev card : Env
card = record { answer = λ h a. 0x40; set_normalized = λ s n. zero_time; timespec_add = λ a b. a }

abbrev memory : List ℕ
memory = replicate eeprom_size 0

abbrev fmc : Fmc
fmc = record {
  eeprom = some memory;
  eeprom_len = eeprom_size;
  eeprom_addr = 0x50;
  fake_eeprom = true;
  no_mezzanine = false;
  eeprom_index = 0;
  history = [];
}

fmc-IsIdle : IsIdle card [] fmc
unfolding observe
fmc-IsIdle = ([], refl, nothing)

memory_size : length memory ≡ eeprom_size
memory_size = length-replicate {A = ℕ} eeprom_size 0

fmc-IsFake : IsFake memory fmc
fmc-IsFake = record { fake = refl; image = refl; size = memory_size }

-- In a transaction that has just begun.
abbrev begun : Fmc
begun = record fmc { history = write (syscon 8) 4 ∷ write (syscon 8) 8 ∷ [] }

begun-IsBusy : IsBusy card (begin ∷ []) begun
unfolding observe
begun-IsBusy = (start_seen ∷ [], refl, began nothing)

read_from-Triple_example : Ensures ⊥ (IsReadFrom card 0x50 16 3 []) (read_from card 0x50 16 3 fmc)
read_from-Triple_example = (read_from-Triple card 0x50 16 3 [] (omega arith)).at fmc fmc-IsIdle

write_byte-Triple_example :
    Ensures (Unit {0}) (IsWritten card 0x50 16 7 []) (write_byte card 5 0x50 16 7 fmc)
write_byte-Triple_example =
    (write_byte-Triple card 5 0x50 16 7 [] (omega arith) (omega arith)).at fmc fmc-IsIdle

reverse_bits8-mirror_example : reverse_bits8 0x16 ≡ mirror 8 0x16
reverse_bits8-mirror_example = reverse_bits8-mirror 0x16 (omega arith)

never_full : (h : History) → wait_fifo card 1 h ≡ waiting → ⊥
unfolding wait_fifo
never_full h e = cc

bytes_fit : AllBytes (1 ∷ 2 ∷ 3 ∷ 4 ∷ 5 ∷ 6 ∷ 0 ∷ 0 ∷ [])
bytes_fit = (
  omega arith,
  (
    omega arith,
    (omega arith, (omega arith, (omega arith, (omega arith, (omega arith, (omega arith, tt)))))),
  ),
)

loader_low_level-Triple_example :
    Ensures ⊥
      (IsSent (words 2 (1 ∷ 2 ∷ 3 ∷ 4 ∷ 5 ∷ 6 ∷ 0 ∷ 0 ∷ [])) 2)
      (loader_low_level card 1 (1 ∷ 2 ∷ 3 ∷ 4 ∷ 5 ∷ 6 ∷ 0 ∷ 0 ∷ []) 6 [])
loader_low_level-Triple_example =
    (loader_low_level-Triple card 1 never_full (1 ∷ 2 ∷ 3 ∷ 4 ∷ 5 ∷ 6 ∷ 0 ∷ 0 ∷ []) 6 bytes_fit
        (omega arith)).at
      [] refl
