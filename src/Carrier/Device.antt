-- ===== src/Carrier/Device.antt =====
-- The FMC device of the card: `check_golden`, `spec_fmc_create` and `spec_fmc_destroy` of spec-fmc.c.
pub mod Made
use sbndaq_wr.Base.{
  ℕ, ◌+◌, List, ◌∷◌, Option, none, some, Bool, true, false, done, pure, ◌>>=◌, ◌>>◌, stop, when,
  ◌==◌, get_or, ◌&&◌, not, if◌then◌else◌,
}
use sbndaq_wr.Mmio.{bar0, read, Env, u32}
use sbndaq_wr.Spec.Eeprom
use sbndaq_wr.Spec.Eeprom.{I2cReturn, count, spec_i2c_init, spec_i2c_exit}
use sbndaq_wr.Carrier.{C, get_spec, on_fmc, irq_init, irq_exit, free_handler}

-- The negative results.
pub data Errno : Type 0 where
  enomem enodev eio etimedout other : Errno

-- What the kernel and the modules' parameters say while the FMC device is made: `use_msi` and `test_irq`, what `request_irq`
-- says in the test and how often the handler is called then, whether the tree of SDB is read, whether there is memory for the
-- device and for the EEPROM, the images for the EEPROM, and whether the device can be registered.
pub record Kernel : Type 0 where
  pub use_msi : Bool
  pub testing : Bool
  pub requested : Bool
  pub calls : ℕ
  pub sdb_scanned : Bool
  pub fmc_memory : Bool
  pub eeprom_memory : Bool
  pub nr_eeprom : ℕ
  pub eeprom_file : Option (List ℕ)
  pub registers : Bool

unfoldable pub set_golden : C (Unit {0})
set_golden s = done tt (record s { golden = true; custom = false })

unfoldable pub set_registered : Bool → C (Unit {0})
set_registered b s = done tt (record s { registered = b })

-- `kzalloc` of the structure, with the fields that are set at once.
unfoldable pub new_fmc : C (Unit {0})
new_fmc s = done tt (record s {
  fmc_there = true;
  registered = false;
  golden = false;
  custom = false;
  fmc = record s.fmc { eeprom = none; eeprom_len = 0; eeprom_addr = 0x50; no_mezzanine = false };
})

-- `kfree(fmc)` at `out_free`: the buffer of the EEPROM is lost if there is one.
unfoldable pub drop_fmc : C (Unit {0})
drop_fmc s = done tt (record s {
  fmc_there = false;
  lost_buffers = s.lost_buffers + (elim s.fmc.eeprom [ none ↦ 0 | some buf ↦ 1 ]);
})

-- `spec->fmc = NULL` after the last reference is put.
unfoldable pub put_fmc : C (Unit {0})
put_fmc s = done tt (record s { fmc_there = false })

abbrev pub errno_of : I2cReturn → Option Errno
errno_of (count n) = none
errno_of I2cReturn.einval = some other
errno_of I2cReturn.eio = some eio
errno_of I2cReturn.enomem = some enomem
errno_of I2cReturn.minus_one = some other

module _ (e : Env) where
  -- `fmc_readl`.
  unfoldable pub window_readl : ℕ → C ℕ
  window_readl off s =
      if get_or s.remap 0 false
      then done (u32 (e.answer s.fmc.history (bar0 off)))
          (record s { fmc = record s.fmc { history = read (bar0 off) ∷ s.fmc.history } })
      else stop s

module _ (e : Env) (k : Kernel) where
  -- `check_golden`: whether it returns 0, not -ENODEV.
  unfoldable pub check_golden : C Bool
  unfolding window_readl
  check_golden = do
    magic ← window_readl e 0x100
    if not (magic == 0x5344422d) then pure false else if not k.sdb_scanned then pure false else (do
      vendor ← window_readl e 0x15c
      if not (vendor == 0x0000ce42)
          then pure false
          else (window_readl e 0x160 >>= λ device. pure (device == 0xff07fc47)))

  -- The end of `spec_fmc_create`, once the EEPROM was looked at.
  unfoldable pub register_fmc : C (Option Errno)
  unfolding irq_init irq_exit set_registered drop_fmc
  register_fmc = do
    tested ← irq_init e k.use_msi k.testing k.requested k.calls
    if not tested
        then (drop_fmc >> pure (some eio))
        else if k.registers
        then (set_registered true >> pure none)
        else (irq_exit e >> drop_fmc >> pure (some other))

  -- `spec_fmc_create`: the error, if there is one.
  unfoldable pub spec_fmc_create : C (Option Errno)
  unfolding new_fmc check_golden set_golden register_fmc
  spec_fmc_create = if not k.fmc_memory then pure (some enomem) else (do
    new_fmc
    checked ← check_golden
    if checked
        then (do
          set_golden
          r ← on_fmc (spec_i2c_init e k.eeprom_memory k.nr_eeprom k.eeprom_file)
          elim (errno_of r) [ some err ↦ drop_fmc >> pure (some err) | none ↦ register_fmc ])
        else (drop_fmc >> pure (some enodev)))

  -- `spec_fmc_destroy`: without a device it is a null pointer.
  unfoldable pub spec_fmc_destroy : C (Unit {0})
  unfolding get_spec set_registered irq_exit free_handler put_fmc
  spec_fmc_destroy = do
    s ← get_spec
    if s.fmc_there then pure tt else stop
    set_registered false
    irq_exit e
    on_fmc (spec_i2c_exit e)
    s ← get_spec
    when s.irq_registered free_handler
    put_fmc
