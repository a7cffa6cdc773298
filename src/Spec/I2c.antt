-- ===== src/Spec/I2c.antt =====
-- The bit-banged bus of spec-i2c.c: lines, bytes, and the state of `struct fmc_device` that it works on.
-- The delays between the accesses are left out.
pub mod Wire
pub mod Bytes
use sbndaq_wr.Base.{
  ℕ, zero, suc, ◌+◌, ◌*◌, ◌%◌, ◌^◌, List, [], ◌∷◌, Option, Bool, true, false, not, bit_or, Program,
  done, pure, ◌>>=◌, ◌>>◌, has_bits, if◌then◌else◌,
}
use sbndaq_wr.Mmio.{Addr, syscon, read, write, History, Env, u32}

-- `struct fmc_device` and the flag of its `struct spec_dev`, with the accesses to the card. `eeprom` is
-- `none` for a null pointer.
pub record Fmc : Type 0 where
  pub eeprom : Option (List ℕ)
  pub eeprom_len : ℕ
  pub eeprom_addr : ℕ
  pub fake_eeprom : Bool
  pub no_mezzanine : Bool
  pub eeprom_index : ℕ
  pub history : History

abbrev pub F : Type 0 → Type 0
F A = Program Fmc A

-- `SYSC_REG_GPSR`, `SYSC_REG_GPCR` and the bits of the two lines.
abbrev pub gpsr : Addr
gpsr = syscon 0x4

abbrev pub gpcr : Addr
gpcr = syscon 0x8

abbrev pub fmc_scl : ℕ
fmc_scl = 2 ^ 2

abbrev pub fmc_sda : ℕ
fmc_sda = 2 ^ 3

-- `fmc_readl` and `fmc_writel`.
abbrev pub fmc_readl : Env → Addr → F ℕ
fmc_readl e a f = done (u32 (e.answer f.history a)) (record f { history = read a ∷ f.history })

abbrev pub fmc_writel : ℕ → Addr → F (Unit {0})
fmc_writel v a f = done tt (record f { history = write a (u32 v) ∷ f.history })

unfoldable pub set_sda : Bool → F (Unit {0})
set_sda val = if val then fmc_writel fmc_sda gpsr else fmc_writel fmc_sda gpcr

unfoldable pub set_scl : Bool → F (Unit {0})
set_scl val = if val then fmc_writel fmc_scl gpsr else fmc_writel fmc_scl gpcr

unfoldable pub mi2c_start : F (Unit {0})
mi2c_start = set_sda false >> set_scl false

unfoldable pub mi2c_stop : F (Unit {0})
mi2c_stop = set_sda false >> set_scl true >> set_sda true

-- The loop of `mi2c_put_byte`, with `rounds` bits left: the top bit goes first.
unfoldable pub put_bits : ℕ → ℕ → F (Unit {0})
put_bits zero data_left = pure tt
put_bits (suc rounds) data_left = do
  set_sda (has_bits data_left 0x80)
  set_scl true
  set_scl false
  put_bits rounds (data_left * 2)

module _ (e : Env) where
  unfoldable pub get_sda : F Bool
  get_sda = fmc_readl e gpsr >>= λ reg. pure (has_bits reg fmc_sda)

  -- `mi2c_put_byte`: whether it was acknowledged, by a low line.
  unfoldable pub mi2c_put_byte : ℕ → F Bool
  mi2c_put_byte byte = do
    put_bits 8 byte
    set_sda true
    set_scl true
    ack ← get_sda
    set_scl false
    set_sda false
    pure (not ack)

  -- The loop of `mi2c_get_byte`, with `rounds` bits left.
  unfoldable pub get_bits : ℕ → ℕ → F ℕ
  get_bits zero indata = pure indata
  get_bits (suc rounds) indata = do
    set_scl true
    sda ← get_sda
    set_scl false
    get_bits rounds (if sda then bit_or (indata * 2) 1 else indata * 2)

  -- `mi2c_get_byte`, which keeps eight bits of what it shifted in.
  unfoldable pub mi2c_get_byte : Bool → F ℕ
  mi2c_get_byte ack = do
    set_scl false
    set_sda true
    indata ← get_bits 8 0
    set_sda (if ack then false else true)
    set_scl true
    set_scl false
    set_sda false
    pure (indata % 2 ^ 8)

  -- `mi2c_scan`: whether the device answers.
  unfoldable pub mi2c_scan : ℕ → F Bool
  mi2c_scan addr = do
    mi2c_start
    mi2c_stop
    mi2c_start
    found ← mi2c_put_byte (addr * 2)
    mi2c_stop
    pure found

unfoldable pub mi2c_init : F (Unit {0})
mi2c_init = set_scl true >> set_sda true
