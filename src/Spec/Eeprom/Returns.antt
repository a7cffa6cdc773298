-- ===== src/Spec/Eeprom/Returns.antt =====
-- `spec_i2c_init` ends, whatever is on the bus: its loops have a fixed number of rounds, and it touches nothing out of bounds.
use sbndaq_wr.Base.{
  ℕ, zero, suc, ◌+◌, ◌*◌, List, [], ◌∷◌, Option, none, some, Bool, true, false, not, bit_or, pure,
  ◌>>◌, ltb, ◌==◌, has_bits, if◌then◌else◌, replicate, drop, ◌++◌,
}
use sbndaq_wr.Base.Triples.{returns, Triple, Triple-bind, Triple-pure, Triple-if}
use sbndaq_wr.Mmio.{Env}
use sbndaq_wr.Spec.I2c.{
  F, set_sda, set_scl, mi2c_start, mi2c_stop, put_bits, get_sda, get_bits, mi2c_put_byte,
  mi2c_get_byte, mi2c_scan,
}
use sbndaq_wr.Spec.Eeprom.{
  I2cReturn, count, einval, eio, enomem, minus_one, get_fmc, out_of_range, high_byte, low_byte,
  read_bytes, read_from, spec_eeprom_read, set_eeprom, fake_image, keep_image, spec_i2c_init,
  spec_i2c_exit, eeprom_size,
}

-- A program that returns from every state.
abbrev pub Fine : {A : Type 0} → F A → Type 0
Fine m = Triple ⊥ (λ _. Unit {0}) m (λ _ _. Unit {0})

fine : {A : Type 0} (a : A) → Fine (pure a)
fine a = Triple-pure a (λ _ _. tt)

set_sda-Fine : (b : Bool) → Fine (set_sda b)
unfolding set_sda
set_sda-Fine true = record { at = λ f h. returns tt }
set_sda-Fine false = record { at = λ f h. returns tt }

set_scl-Fine : (b : Bool) → Fine (set_scl b)
unfolding set_scl
set_scl-Fine true = record { at = λ f h. returns tt }
set_scl-Fine false = record { at = λ f h. returns tt }

start-Fine : Fine mi2c_start
unfolding mi2c_start
start-Fine = Triple-bind (set_sda-Fine false) λ _. set_scl-Fine false

stop-Fine : Fine mi2c_stop
unfolding mi2c_stop
stop-Fine =
    Triple-bind (Triple-bind (set_sda-Fine false) λ _. set_scl-Fine true) λ _. set_sda-Fine true

put_bits-Fine : (rounds byte : ℕ) → Fine (put_bits rounds byte)
unfolding put_bits
put_bits-Fine zero byte = fine tt
put_bits-Fine (suc rounds) byte = Triple-bind (set_sda-Fine (has_bits byte 0x80)) λ _.
    Triple-bind (set_scl-Fine true)
      λ _. Triple-bind (set_scl-Fine false) λ _. put_bits-Fine rounds (byte * 2)

module _ (e : Env) where
  get_sda-Fine : Fine (get_sda e)
  unfolding get_sda
  get_sda-Fine = record { at = λ f h. returns tt }

  put_byte-Fine : (byte : ℕ) → Fine (mi2c_put_byte e byte)
  unfolding mi2c_put_byte
  put_byte-Fine byte = Triple-bind (put_bits-Fine 8 byte) λ _. Triple-bind (set_sda-Fine true) λ _.
      Triple-bind (set_scl-Fine true) λ _. Triple-bind get_sda-Fine λ ack.
        Triple-bind (set_scl-Fine false) λ _. Triple-bind (set_sda-Fine false) λ _. fine (not ack)

  get_bits-Fine : (rounds indata : ℕ) → Fine (get_bits e rounds indata)
  unfolding get_bits
  get_bits-Fine zero indata = fine indata
  get_bits-Fine (suc rounds) indata = Triple-bind (set_scl-Fine true) λ _.
      Triple-bind get_sda-Fine λ sda.
        Triple-bind (set_scl-Fine false)
          λ _. get_bits-Fine rounds (if sda then bit_or (indata * 2) 1 else indata * 2)

  get_byte-Fine : (ack : Bool) → Fine (mi2c_get_byte e ack)
  unfolding mi2c_get_byte
  get_byte-Fine ack = Triple-bind (set_scl-Fine false) λ _. Triple-bind (set_sda-Fine true) λ _.
      Triple-bind (get_bits-Fine 8 0) λ indata.
        Triple-bind (set_sda-Fine (if ack then false else true)) λ _.
          Triple-bind (set_scl-Fine true)
            λ _. Triple-bind (set_scl-Fine false) λ _. Triple-bind (set_sda-Fine false) λ _. fine _

  scan-Fine : (addr : ℕ) → Fine (mi2c_scan e addr)
  unfolding mi2c_scan
  scan-Fine addr = Triple-bind start-Fine λ _. Triple-bind stop-Fine λ _.
      Triple-bind start-Fine
        λ _. Triple-bind (put_byte-Fine (addr * 2)) λ found. Triple-bind stop-Fine λ _. fine found

  read_bytes-Fine : (size : ℕ) → Fine (read_bytes e size)
  unfolding read_bytes
  read_bytes-Fine zero = fine []
  read_bytes-Fine (suc size) =
      Triple-bind (get_byte-Fine (not (size == 0)))
        λ c. Triple-bind (read_bytes-Fine size) λ rest. fine (c ∷ rest)

  read_from-Fine : (addr offset size : ℕ) → Fine (read_from e addr offset size)
  unfolding read_from
  read_from-Fine addr offset size = Triple-bind start-Fine λ _.
      Triple-bind (put_byte-Fine (addr * 2)) λ found.
        Triple-if found
          (λ _. Triple-bind (put_byte-Fine (high_byte offset)) λ _.
            Triple-bind (put_byte-Fine (low_byte offset)) λ _. Triple-bind stop-Fine λ _.
              Triple-bind start-Fine λ _. Triple-bind (put_byte-Fine (addr * 2 + 1)) λ _.
                Triple-bind (read_bytes-Fine size)
                  λ bytes. Triple-bind stop-Fine λ _. fine (some bytes))
          (λ _. Triple-bind stop-Fine λ _. fine none)

  get_fmc-Fine : Fine get_fmc
  unfolding get_fmc
  get_fmc-Fine = record { at = λ f h. returns tt }

  set_eeprom-Fine : (mem : Option (List ℕ)) (len : ℕ) → Fine (set_eeprom e mem len)
  unfolding set_eeprom
  set_eeprom-Fine mem len = record { at = λ f h. returns tt }

  read-Fine : (offset : ℕ) (buf : List ℕ) (size : ℕ) → Fine (spec_eeprom_read e offset buf size)
  unfolding spec_eeprom_read
  read-Fine offset buf size = Triple-bind get_fmc-Fine λ f.
      Triple-if f.fake_eeprom (λ _. fine (count size, buf))
        (λ _.
          Triple-if (ltb eeprom_size offset) (λ _. fine (einval, buf))
            (λ _.
              Triple-if (out_of_range offset size) (λ _. fine (einval, buf))
                (λ _. Triple-bind (read_from-Fine f.eeprom_addr offset size) λ bytes.
                  fine (elim bytes [
                    | none ↦ (eio, buf)
                    | some bs ↦ (count size, bs ++ drop size buf)
                  ]))))

  fake_image-Fine : (image : Option (List ℕ)) → Fine (fake_image e image)
  unfolding fake_image
  fake_image-Fine none = record { at = λ f h. returns tt }
  fake_image-Fine (some image) = record { at = λ f h. returns tt }

  refused-Fine : Fine (set_eeprom e none 0 >> pure eio)
  refused-Fine = Triple-bind (set_eeprom-Fine none 0) λ _. fine eio

  kept-Fine :
      (r : I2cReturn × List ℕ)
      → Fine (elim r.0 [
        | count n ↦
            if n == eeprom_size
            then (set_eeprom e (some r.1) eeprom_size >> pure (count 0))
            else (set_eeprom e none 0 >> pure eio)
        | einval ↦ set_eeprom e none 0 >> pure eio
        | eio ↦ set_eeprom e none 0 >> pure eio
        | enomem ↦ set_eeprom e none 0 >> pure eio
        | minus_one ↦ set_eeprom e none 0 >> pure eio
      ])
  kept-Fine (count n, buf) =
      Triple-if (n == eeprom_size)
        (λ _. Triple-bind (set_eeprom-Fine (some buf) eeprom_size) λ _. fine (count 0))
        (λ _. refused-Fine)
  kept-Fine (einval, buf) = refused-Fine
  kept-Fine (eio, buf) = refused-Fine
  kept-Fine (enomem, buf) = refused-Fine
  kept-Fine (minus_one, buf) = refused-Fine

  keep_image-Fine : (buf : List ℕ) → Fine (keep_image e buf)
  unfolding keep_image
  keep_image-Fine buf = Triple-bind (read-Fine 0 buf eeprom_size) λ r. kept-Fine r

  pub spec_i2c_init-Fine :
      (memory : Bool) (nr : ℕ) (image : Option (List ℕ)) → Fine (spec_i2c_init e memory nr image)
  unfolding spec_i2c_init
  spec_i2c_init-Fine memory nr image = Triple-bind get_fmc-Fine λ f.
      Triple-bind (scan-Fine f.eeprom_addr) λ found.
        Triple-if found
          (λ _.
            Triple-if memory
              (λ _.
                Triple-bind
                  (Triple-if (ltb f.eeprom_index nr) (λ _. fake_image-Fine image)
                    (λ _. fine (replicate eeprom_size 0)))
                  λ buf. keep_image-Fine buf)
              (λ _. fine enomem))
          (λ _. record { at = λ f' h. returns tt })

  pub spec_i2c_exit-Fine : Fine (spec_i2c_exit e)
  unfolding spec_i2c_exit
  spec_i2c_exit-Fine = set_eeprom-Fine none 0
