-- ===== src/Carrier.antt =====
-- The card as the carrier of a mezzanine: the interrupts of spec-fmc.c, with the registers that `struct spec_dev` maps. What
-- the drivers hold of the kernel is in the state.
pub mod Device
pub mod Pci
pub mod Stage
pub mod Irq
pub mod Gpio
pub mod Operations
use sbndaq_wr.Base.{
  ℕ, zero, suc, ◌+◌, ◌*◌, ◌%◌, ◌^◌, List, [], ◌∷◌, Option, none, some, Bool, true, false, not,
  bit_and, bit_or, Program, Outcome, done, fault, waiting, pure, ◌>>=◌, ◌>>◌, stop, when, get_or,
  ◌==◌, if◌then◌else◌,
}
use sbndaq_wr.Base.Bits.{bit_not32}
use sbndaq_wr.Mmio.{Access, gennum, read, write, Env, u32}
use sbndaq_wr.Spec.I2c.{Fmc, F}
use sbndaq_wr.Spec.Loader.{L}

-- `struct spec_dev` with its `struct fmc_device` and what the kernel holds for it: whether the PCI device is enabled, the
-- memory of the structure, the driver data, MSI-X, the areas that are mapped, the FMC device and its registration, the flags
-- HAS_GOLDEN and HAS_CUSTOM, `irq_registered` and `irq_count`, whether the kernel has a handler, how often one was freed that
-- it does not have, and how many buffers of an EEPROM were lost.
pub record SpecDev : Type 0 where
  pub enabled : Bool
  pub allocated : Bool
  pub drvdata : Bool
  pub msix : Bool
  pub remap : List Bool
  pub fmc_there : Bool
  pub registered : Bool
  pub golden : Bool
  pub custom : Bool
  pub irq_registered : Bool
  pub irq_count : ℕ
  pub handler : Bool
  pub stray_frees : ℕ
  pub lost_buffers : ℕ
  pub fmc : Fmc

abbrev pub C : Type 0 → Type 0
C A = Program SpecDev A

unfoldable pub get_spec : C SpecDev
get_spec s = done s s

abbrev log : Access → SpecDev → SpecDev
log a s = record s { fmc = record s.fmc { history = a ∷ s.fmc.history } }

-- `gennum_readl`, `gennum_writel` and `gennum_mask_val`: through a null pointer if the third area is not mapped.
unfoldable pub gennum_writel : ℕ → ℕ → C (Unit {0})
gennum_writel val reg s =
    if get_or s.remap 2 false then done tt (log (write (gennum reg) (u32 val)) s) else stop s

-- `GNPPCI_MSI_CONTROL`, `GNPPCI_MSI_DATA`, `GNINT_STAT`, `GNINT_CFG`, `GNGPIO_INT_MASK_SET` and `GNGPIO_INT_STATUS`.
abbrev msi_control : ℕ
msi_control = 0x48

abbrev msi_data : ℕ
msi_data = 0x54

abbrev int_stat : ℕ
int_stat = 0x814

abbrev int_cfg : ℕ → ℕ
int_cfg x = 0x820 + 4 * x

abbrev pub int_mask_set : ℕ
int_mask_set = 0xa1c

abbrev gpio_int_status : ℕ
gpio_int_status = 0xa20

-- A program on the FMC device, and one of the loader: through the first area and through the third one.
unfoldable pub on_fmc : {A : Type 0} → F A → C A
on_fmc m s =
    if get_or s.remap 0 false
    then elim (m s.fmc) [
      | done a f ↦ done a (record s { fmc = f })
      | fault ↦ fault
      | waiting ↦ waiting
    ]
    else stop s

unfoldable pub on_loader : {A : Type 0} → L A → C A
on_loader m s =
    if get_or s.remap 2 false
    then elim (m s.fmc.history) [
      | done a h ↦ done a (record s { fmc = record s.fmc { history = h } })
      | fault ↦ fault
      | waiting ↦ waiting
    ]
    else stop s

-- What `request_irq` and `free_irq` leave of the handler and of `irq_registered`.
unfoldable pub add_handler : C (Unit {0})
add_handler s = done tt (record s { handler = true; irq_registered = true })

unfoldable pub free_handler : C (Unit {0})
free_handler s = done tt (record s {
  handler = false;
  irq_registered = false;
  stray_frees = s.stray_frees + (if s.handler then 0 else 1);
})

unfoldable pub set_irq_count : ℕ → C (Unit {0})
set_irq_count n s = done tt (record s { irq_count = n })

-- `spec_irq_free`.
unfoldable pub irq_free : C (Unit {0})
unfolding gennum_writel free_handler
irq_free = gennum_writel 0xffff int_mask_set >> free_handler

-- The loop over the configuration registers, with `rounds` left.
unfoldable pub clear_cfg : ℕ → ℕ → C (Unit {0})
unfolding gennum_writel
clear_cfg zero i = pure tt
clear_cfg (suc rounds) i = gennum_writel 0 (int_cfg i) >> clear_cfg rounds (i + 1)

module _ (e : Env) where
  unfoldable pub gennum_readl : ℕ → C ℕ
  gennum_readl reg s =
      if get_or s.remap 2 false
      then done (u32 (e.answer s.fmc.history (gennum reg))) (log (read (gennum reg)) s)
      else stop s

  unfoldable pub gennum_mask_val : ℕ → ℕ → ℕ → C (Unit {0})
  unfolding gennum_readl gennum_writel
  gennum_mask_val mask val reg = do
    v ← gennum_readl reg
    gennum_writel (bit_or (bit_and v (bit_not32 mask)) val) reg

  -- The hack for MSI of `spec_irq_request` and `spec_irq_init`.
  unfoldable pub msi_hack : Bool → C (Unit {0})
  unfolding gennum_readl gennum_writel
  msi_hack use_msi = when use_msi (
      gennum_readl msi_control >>= λ value.
      gennum_writel (bit_or 0xa50000 (value % 2 ^ 16)) msi_control)

  -- `spec_irq_request`, for what `request_irq` says: whether it returns 0.
  unfoldable pub irq_request : Bool → Bool → C Bool
  unfolding add_handler msi_hack
  irq_request use_msi requested =
      if requested then (add_handler >> msi_hack use_msi >> pure true) else pure false

  -- `spec_irq_ack`.
  unfoldable pub spec_irq_ack : C (Unit {0})
  unfolding gennum_readl
  spec_irq_ack = gennum_readl gpio_int_status >>= λ _. pure tt

  -- `spec_test_handler`, as often as it is called.
  unfoldable pub test_handler : ℕ → C (Unit {0})
  unfolding set_irq_count get_spec spec_irq_ack
  test_handler zero = pure tt
  test_handler (suc calls) = do
    s ← get_spec
    set_irq_count (u32 (s.irq_count + 1))
    spec_irq_ack
    test_handler calls

  -- The wait of the test: the kernel calls the handler that it has.
  unfoldable pub await_interrupts : ℕ → C (Unit {0})
  unfolding get_spec test_handler
  await_interrupts calls = do s ← get_spec; if s.handler then test_handler calls else pure tt

  -- The test of `spec_irq_init`: whether an interrupt was received.
  unfoldable pub test_irq : Bool → Bool → ℕ → C Bool
  unfolding irq_request await_interrupts irq_free
  test_irq use_msi requested calls = do
    set_irq_count 0
    _ ← irq_request use_msi requested
    gennum_writel 8 int_stat
    gennum_writel 0 int_stat
    await_interrupts calls
    irq_free
    s ← get_spec
    pure (not (s.irq_count == 0))

  -- `spec_irq_init`: whether it returns 0, not -EIO.
  unfoldable pub irq_init : Bool → Bool → Bool → ℕ → C Bool
  unfolding test_irq clear_cfg
  irq_init use_msi testing requested calls = do
    msi_hack use_msi
    value ← gennum_readl msi_data
    clear_cfg 7 0
    gennum_writel 0x800c (int_cfg (if use_msi then value % 4 else 0))
    if testing then test_irq use_msi requested calls else pure true

  -- `spec_irq_exit`.
  unfoldable pub irq_exit : C (Unit {0})
  unfolding clear_cfg spec_irq_ack
  irq_exit = clear_cfg 7 0 >> spec_irq_ack
