-- ===== src/Spec/Eeprom.antt =====
-- The EEPROM of the mezzanine: `spec_eeprom_read`, `spec_eeprom_write`, `spec_i2c_init` and
-- `spec_i2c_exit` of spec-i2c.c. The dump of the contents is left out.
pub mod Transaction
pub mod Image
pub mod Returns
use sbndaq_wr.Base.{
  ℕ, zero, suc, ◌+◌, ◌-◌, ◌*◌, ◌/◌, ◌%◌, ◌^◌, List, [], ◌∷◌, ◌++◌, Option, none, some, Bool, true,
  false, not, bit_or, Program, done, pure, ◌>>=◌, ◌>>◌, waiting, stop, checked, ltb, ◌==◌,
  if◌then◌else◌, length, take, drop, set, get_elem?, replicate, min,
}
use sbndaq_wr.Mmio.{Env, u64}
use sbndaq_wr.Spec.I2c.{Fmc, F, mi2c_start, mi2c_stop, mi2c_put_byte, mi2c_get_byte, mi2c_scan}

-- `SPEC_I2C_EEPROM_SIZE`.
abbrev pub eeprom_size : ℕ
eeprom_size = 8 * 1024

-- What the functions return: a number of bytes, or an error.
pub data I2cReturn : Type 0 where
  count : ℕ → I2cReturn
  einval eio enomem minus_one : I2cReturn

unfoldable pub get_fmc : F Fmc
get_fmc f = done f f

-- Whether the range goes beyond the memory; the sum is a `size_t`.
abbrev pub out_of_range : ℕ → ℕ → Bool
out_of_range offset size = ltb eeprom_size (u64 (offset + size))

abbrev pub high_byte : ℕ → ℕ
high_byte offset = offset / 2 ^ 8 % 2 ^ 8

abbrev pub low_byte : ℕ → ℕ
low_byte offset = offset % 2 ^ 8

module _ (e : Env) where
  -- The loop of `spec_eeprom_read`: all bytes but the last one are acknowledged.
  unfoldable pub read_bytes : ℕ → F (List ℕ)
  read_bytes zero = pure []
  read_bytes (suc size) = do
    c ← mi2c_get_byte e (not (size == 0))
    rest ← read_bytes size
    pure (c ∷ rest)

  -- The bus accesses of `spec_eeprom_read`, for a device at `addr`; `none` is no acknowledgement.
  unfoldable pub read_from : ℕ → ℕ → ℕ → F (Option (List ℕ))
  unfolding read_bytes
  read_from addr offset size = do
    mi2c_start
    found ← mi2c_put_byte e (addr * 2)
    if found
        then (do
          _ ← mi2c_put_byte e (high_byte offset)
          _ ← mi2c_put_byte e (low_byte offset)
          mi2c_stop
          mi2c_start
          _ ← mi2c_put_byte e (addr * 2 + 1)
          bytes ← read_bytes size
          mi2c_stop
          pure (some bytes))
        else (mi2c_stop >> pure none)

  -- `spec_eeprom_read`, with the buffer as it is afterwards.
  unfoldable pub spec_eeprom_read : ℕ → List ℕ → ℕ → F (I2cReturn × List ℕ)
  unfolding read_from
  spec_eeprom_read offset buf size = do
    f ← get_fmc
    if f.fake_eeprom
        then pure (count size, buf)
        else (if ltb eeprom_size offset
            then pure (einval, buf)
            else (if out_of_range offset size
                then pure (einval, buf)
                else (read_from f.eeprom_addr offset size >>= λ bytes. pure (elim bytes [
                  | none ↦ (eio, buf)
                  | some bs ↦ (count size, bs ++ drop size buf)
                ]))))

  -- The loop that waits until the chip is ready, with fuel.
  unfoldable pub wait_ready : ℕ → ℕ → F (Unit {0})
  wait_ready zero addr = λ f. waiting
  wait_ready (suc fuel) addr = do
    mi2c_start
    ready ← mi2c_put_byte e (addr * 2)
    mi2c_stop
    if ready then pure tt else wait_ready fuel addr

  -- One byte on the bus: whether the device answered.
  unfoldable pub write_byte : ℕ → ℕ → ℕ → ℕ → F Bool
  unfolding wait_ready
  write_byte fuel addr offset byte = do
    mi2c_start
    found ← mi2c_put_byte e (addr * 2)
    if found
        then (do
          _ ← mi2c_put_byte e (high_byte offset)
          _ ← mi2c_put_byte e (low_byte offset)
          _ ← mi2c_put_byte e byte
          mi2c_stop
          wait_ready fuel addr
          pure true)
        else (mi2c_stop >> pure false)

  -- `fmc->eeprom[offset] = byte`.
  unfoldable pub store_byte : ℕ → ℕ → F (Unit {0})
  store_byte offset byte f = elim f.eeprom [
    | none ↦ stop f
    | some mem ↦
        if ltb offset (length mem)
        then done tt (record f { eeprom = some (set mem offset byte) })
        else stop f
  ]

  -- The loop of `spec_eeprom_write`: whether all bytes were written.
  unfoldable pub write_bytes : ℕ → ℕ → List ℕ → F Bool
  unfolding write_byte store_byte
  write_bytes fuel offset [] = pure true
  write_bytes fuel offset (byte ∷ bytes) = do
    f ← get_fmc
    written ← if f.fake_eeprom then pure true else write_byte fuel f.eeprom_addr offset byte
    if written then (store_byte offset byte >> write_bytes fuel (offset + 1) bytes) else pure false

  -- `spec_eeprom_write`.
  unfoldable pub spec_eeprom_write : ℕ → ℕ → List ℕ → F I2cReturn
  unfolding write_bytes
  spec_eeprom_write fuel offset buf =
      if ltb eeprom_size offset
      then pure einval
      else (if out_of_range offset (length buf) then pure einval else (do
        written ← write_bytes fuel offset buf
        pure (if written then count (length buf) else minus_one)))

  unfoldable pub set_eeprom : Option (List ℕ) → ℕ → F (Unit {0})
  set_eeprom mem len f = done tt (record f { eeprom = mem; eeprom_len = len })

  -- A firmware file in place of the EEPROM: its image starts the buffer, if the file is there.
  unfoldable pub fake_image : Option (List ℕ) → F (List ℕ)
  fake_image none f =
      done (replicate eeprom_size 0) (record f { eeprom_index = f.eeprom_index + 1 })
  fake_image (some image) f =
      done (take eeprom_size image ++ drop (length image) (replicate eeprom_size 0))
        (record f { eeprom_index = f.eeprom_index + 1; fake_eeprom = true })

  -- The rest of `spec_i2c_init` once there is a buffer: the memory is what `spec_eeprom_read` made of it.
  unfoldable pub keep_image : List ℕ → F I2cReturn
  unfolding spec_eeprom_read set_eeprom
  keep_image buf = do
    r ← spec_eeprom_read 0 buf eeprom_size
    elim r.0 [
      | count n ↦
          if n == eeprom_size
          then (set_eeprom (some r.1) eeprom_size >> pure (count 0))
          else (set_eeprom none 0 >> pure eio)
      | einval ↦ set_eeprom none 0 >> pure eio
      | eio ↦ set_eeprom none 0 >> pure eio
      | enomem ↦ set_eeprom none 0 >> pure eio
      | minus_one ↦ set_eeprom none 0 >> pure eio
    ]

  -- `spec_i2c_init`. Whether there is memory, how many images were named and what `request_firmware`
  -- finds are arguments.
  unfoldable pub spec_i2c_init : Bool → ℕ → Option (List ℕ) → F I2cReturn
  unfolding keep_image fake_image
  spec_i2c_init allocated nr_eeprom firmware = do
    f ← get_fmc
    found ← mi2c_scan e f.eeprom_addr
    if found
        then (if allocated
            then ((if ltb f.eeprom_index nr_eeprom
                  then fake_image firmware
                  else pure (replicate eeprom_size 0))
                >>= keep_image)
            else pure enomem)
        else (λ f'. done (count 0) (record f' { no_mezzanine = true }))

  -- `spec_i2c_exit`.
  unfoldable pub spec_i2c_exit : F (Unit {0})
  unfolding set_eeprom
  spec_i2c_exit = set_eeprom none 0
