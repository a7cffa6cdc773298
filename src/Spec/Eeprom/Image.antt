-- ===== src/Spec/Eeprom/Image.antt =====
-- The copy of the EEPROM in memory: what a write makes of it, and that it keeps its size.
use sbndaq_wr.Base.{
  ℕ, zero, suc, ◌+◌, ◌<◌, ◌≤◌, ◌≡◌, refl, sym, ap, ◌∙◌, List, [], ◌∷◌, ◌++◌, Option, some, true,
  false, arith, length, pure, done, ◌>>◌, if◌then◌else◌, set, drop, length-set, lt→ltb, ge→ltb,
}
use sbndaq_wr.Base.Triples.{bind-done}
use sbndaq_wr.Mmio.{Env, u64}
use sbndaq_wr.Spec.I2c.{Fmc}
use sbndaq_wr.Spec.Eeprom.{
  eeprom_size, count, minus_one, get_fmc, store_byte, write_byte, write_bytes, spec_eeprom_write,
}

-- A memory with some bytes in place of those from `offset` on.
abbrev pub overwrite : ℕ → List ℕ → List ℕ → List ℕ
overwrite zero bytes mem = bytes ++ drop (length bytes) mem
overwrite (suc offset) bytes [] = []
overwrite (suc offset) bytes (x ∷ mem) = x ∷ overwrite offset bytes mem

overwrite-none : (offset : ℕ) (mem : List ℕ) → overwrite offset [] mem ≡ mem
overwrite-none zero mem = refl
overwrite-none (suc offset) [] = refl
overwrite-none (suc offset) (x ∷ mem) = ap (λ (l : List ℕ). x ∷ l) (overwrite-none offset mem)

-- One byte, and then those behind it.
overwrite-set :
    (offset b : ℕ) (bytes mem : List ℕ)
    → offset < length mem
    → overwrite (suc offset) bytes (set mem offset b) ≡ overwrite offset (b ∷ bytes) mem
overwrite-set offset b bytes [] h = absurd (omega arith)
overwrite-set zero b bytes (x ∷ mem) h = refl
overwrite-set (suc offset) b bytes (x ∷ mem) h =
    ap (λ (l : List ℕ). x ∷ l) (overwrite-set offset b bytes mem (omega arith))

-- With an image in place of the EEPROM.
pub record IsFake (mem : List ℕ) (f : Fmc) : Type 0 where
  pub fake : f.fake_eeprom ≡ true
  pub image : f.eeprom ≡ some mem
  pub size : length mem ≡ eeprom_size

store_byte_lem :
    (e : Env) (offset b : ℕ) (mem : List ℕ) (f : Fmc)
    → IsFake mem f
    → offset < eeprom_size
    → store_byte e offset b f ≡ done tt (record f { eeprom = some (set mem offset b) })
unfolding store_byte
store_byte_lem e offset b mem f i h =
    rw (i.image, lt→ltb offset (length mem) (omega (arith, i.size))) refl

write_bytes_lem :
    (e : Env) (fuel offset : ℕ) (bytes mem : List ℕ) (f : Fmc)
    → IsFake mem f
    → offset + length bytes ≤ eeprom_size
    → write_bytes e fuel offset bytes f
      ≡ done true (record f { eeprom = some (overwrite offset bytes mem) })
unfolding write_bytes get_fmc
write_bytes_lem e fuel offset [] mem f i h =
    ap (λ (m : Option (List ℕ)). done true (record f { eeprom = m }))
      (i.image ∙ ap some (sym (overwrite-none offset mem)))
write_bytes_lem e fuel offset (b ∷ bytes) mem f i h =
    bind-done (if f.fake_eeprom then pure true else write_byte e fuel f.eeprom_addr offset b)
      (λ written.
        if written
        then (store_byte e offset b >> write_bytes e fuel (offset + 1) bytes)
        else pure false)
      (ap (λ c. (if c then pure true else write_byte e fuel f.eeprom_addr offset b) f) i.fake)
    ∙ bind-done (store_byte e offset b) (λ _. write_bytes e fuel (offset + 1) bytes)
        (store_byte_lem e offset b mem f i (omega arith))
    ∙ write_bytes_lem e fuel (offset + 1) bytes (set mem offset b)
        (record f { eeprom = some (set mem offset b) })
        (record { fake = i.fake; image = refl; size = length-set mem offset b ∙ i.size })
        (omega arith)
    ∙ ap (λ m. done true (record f { eeprom = some m }))
        (ap (λ n. overwrite n bytes (set mem offset b))
            (let s : offset + 1 ≡ suc offset = omega arith in s)
          ∙ overwrite-set offset b bytes mem (omega (arith, i.size)))

-- With an image in place of the EEPROM, a write within it puts the bytes of the buffer in their place,
-- keeps all others, and returns their number.
pub spec_eeprom_write-IsFake :
    (e : Env) (fuel offset : ℕ) (buf mem : List ℕ) (f : Fmc)
    → IsFake mem f
    → offset + length buf ≤ eeprom_size
    → spec_eeprom_write e fuel offset buf f
      ≡ done (count (length buf)) (record f { eeprom = some (overwrite offset buf mem) })
unfolding spec_eeprom_write
spec_eeprom_write-IsFake e fuel offset buf mem f i h =
    rw
      (
        ge→ltb eeprom_size offset (omega arith),
        ge→ltb eeprom_size (u64 (offset + length buf)) (omega arith),
      )
      (bind-done (write_bytes e fuel offset buf)
        (λ w. pure (if w then count (length buf) else minus_one))
        (write_bytes_lem e fuel offset buf mem f i h))
