-- ===== src/Carrier/Operations.antt =====
-- The other operations that spec-fmc.c offers to a mezzanine's driver: `spec_validate`, `spec_reprogram`, `spec_read_ee` and
-- `spec_write_ee`. The names of files are numbers.
pub mod Flags
use sbndaq_wr.Base.{
  ℕ, suc, ◌+◌, ◌*◌, ◌^◌, ◌/◌, List, [], ◌∷◌, Option, none, some, Bool, true, false, done, pure,
  ◌>>=◌, ◌>>◌, stop, ◌==◌, bit_or, bit_and, if◌then◌else◌,
}
use sbndaq_wr.Base.Bits.{bit_not32}
use sbndaq_wr.Mmio.{Env}
use sbndaq_wr.Spec.Eeprom.{I2cReturn, spec_eeprom_read, spec_eeprom_write}
use sbndaq_wr.Spec.Loader.{spec_load_fpga}
use sbndaq_wr.Carrier.{C, get_spec, on_fmc, on_loader, gennum_readl, gennum_writel}

-- The parameters of a driver's module: `busid_val`, and `gw_val`, where `none` is a null pointer.
pub record FmcDriver : Type 0 where
  pub busids : List ℕ
  pub gateware : ℕ → Option ℕ

unfoldable pub find_busid : List ℕ → ℕ → ℕ → Option ℕ
find_busid [] busid i = none
find_busid (x ∷ xs) busid i = if x == busid then some i else find_busid xs busid (suc i)

-- `spec_validate`: the index, or `none` for -ENOENT.
unfoldable pub validate : FmcDriver → ℕ → Option ℕ
unfolding find_busid
validate drv busid = elim drv.busids [ [] ↦ some 0 | x ∷ xs ↦ find_busid (x ∷ xs) busid 0 ]

-- The argument `gw`: a null pointer, the empty string or a file name.
pub data Gateware : Type 0 where
  no_gateware empty_name : Gateware
  file_name : ℕ → Gateware

-- What `spec_reprogram` returns.
pub data Reprogrammed : Type 0 where
  reprogrammed esrch no_file etimedout : Reprogrammed

unfoldable pub set_flags : Bool → Bool → C (Unit {0})
set_flags golden custom s = done tt (record s { golden = golden; custom = custom })

abbrev pub sys_cfg_system : ℕ
sys_cfg_system = 0x800

-- What firmware there is for a name (`none` is `spec_fw_name`), with the buffer and its size, and the loader's fuel and clock.
pub record Files : Type 0 where
  pub firmware : Option ℕ → Option (List ℕ × ℕ)
  pub fuel : ℕ
  pub clock : List Bool

module _ (e : Env) (k : Files) where
  -- The reset after the load, by the register of the bridge.
  unfoldable pub reset_fpga : C (Unit {0})
  reset_fpga = do
    reg ← gennum_readl e sys_cfg_system
    gennum_writel (bit_or (bit_and reg (bit_not32 0xffff)) 0x3fff) sys_cfg_system
    gennum_writel (bit_or (bit_and reg (bit_not32 0xffff)) 0x7fff) sys_cfg_system

  -- The load of a file with a name that is known.
  unfoldable pub load_named : Option ℕ → Option (List ℕ × ℕ) → C Reprogrammed
  unfolding set_flags reset_fpga
  load_named name none = pure no_file
  load_named name (some fw) = do
    set_flags false false
    loaded ← on_loader (spec_load_fpga e k.fuel k.clock fw.0 fw.1)
    if loaded
        then (do
          elim name [ none ↦ set_flags true false | some gw ↦ set_flags false true ]
          reset_fpga
          pure reprogrammed)
        else pure etimedout

  -- The name that a driver has for an index.
  unfoldable pub load_own : Option ℕ → C Reprogrammed
  unfolding load_named
  load_own none = pure esrch
  load_own (some gw) = load_named (some gw) (k.firmware (some gw))

  -- A negative index is out of bounds.
  unfoldable pub reprogram_by : FmcDriver → Option ℕ → C Reprogrammed
  unfolding load_own
  reprogram_by drv none = stop
  reprogram_by drv (some index) = load_own (drv.gateware index)

  -- `spec_reprogram`. The tree of SDB is left out; `spec_fw_name` is not empty.
  unfoldable pub reprogram : FmcDriver → ℕ → Gateware → C Reprogrammed
  unfolding reprogram_by validate
  reprogram drv busid no_gateware = load_named none (k.firmware none)
  reprogram drv busid empty_name = reprogram_by drv (validate drv busid)
  reprogram drv busid (file_name gw) = load_named (some gw) (k.firmware (some gw))

-- What the accesses to the EEPROM return.
pub data EeReturn : Type 0 where
  accessed : I2cReturn → EeReturn
  enotsupp : EeReturn

module _ (e : Env) where
  -- `spec_read_ee`, with the buffer as it is then, and `spec_write_ee`.
  unfoldable pub read_ee : ℕ → List ℕ → ℕ → C (EeReturn × List ℕ)
  unfolding get_spec on_fmc
  read_ee pos buf len = do
    s ← get_spec
    if s.golden
        then (on_fmc (spec_eeprom_read e pos buf len) >>= λ r. pure (accessed r.0, r.1))
        else pure (enotsupp, buf)

  unfoldable pub write_ee : ℕ → ℕ → List ℕ → C EeReturn
  unfolding get_spec on_fmc
  write_ee fuel pos buf = do
    s ← get_spec
    if s.golden
        then (on_fmc (spec_eeprom_write e fuel pos buf) >>= λ r. pure (accessed r))
        else pure enotsupp
