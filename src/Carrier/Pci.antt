-- ===== src/Carrier/Pci.antt =====
-- The card on the bus: `spec_load_fpga_file`, `spec_probe` and `spec_remove` of spec-pci.c.
pub mod Stages
pub mod Release
pub mod Removal
pub mod Tests
use sbndaq_wr.Base.{
  ℕ, zero, suc, List, [], ◌∷◌, Option, none, some, Bool, true, false, done, pure, ◌>>=◌, ◌>>◌, stop,
  when, replicate, not, ◌&&◌, if◌then◌else◌,
}
use sbndaq_wr.Mmio.{Env}
use sbndaq_wr.Spec.Loader.{spec_load_fpga}
use sbndaq_wr.Carrier.{C, get_spec, on_loader, gennum_writel, gennum_mask_val, int_mask_set}
use sbndaq_wr.Carrier.Device.{
  Errno, enomem, etimedout, other, Kernel, spec_fmc_create, spec_fmc_destroy,
}

-- A resource of the PCI device: absent, of ports, or of memory that `ioremap` can map or not.
pub data Bar : Type 0 where
  absent ports : Bar
  memory : Bool → Bar

-- What the kernel says while the card is probed: whether it can be enabled, whether there is memory and MSI-X, the
-- resources, the firmware file, and for `spec_load_fpga` the fuel of its loops and its clock.
pub record Bus : Type 0 where
  pub enables : Bool
  pub spec_memory : Bool
  pub msix_enables : Bool
  pub bars : List Bar
  pub firmware : Option (List ℕ × ℕ)
  pub fuel : ℕ
  pub clock : List Bool

unfoldable pub set_enabled : Bool → C (Unit {0})
set_enabled b s = done tt (record s { enabled = b })

-- `kzalloc` of `struct spec_dev`, and `kfree`.
unfoldable pub new_spec : C (Unit {0})
new_spec s = done tt (record s {
  allocated = true;
  remap = replicate 3 false;
  fmc_there = false;
  irq_registered = false;
  irq_count = 0;
  fmc = record s.fmc { fake_eeprom = false };
})

unfoldable pub set_allocated : Bool → C (Unit {0})
set_allocated b s = done tt (record s { allocated = b })

unfoldable pub set_drvdata : Bool → C (Unit {0})
set_drvdata b s = done tt (record s { drvdata = b })

unfoldable pub set_msix : C (Unit {0})
set_msix s = done tt (record s { msix = true })

unfoldable pub set_remap : List Bool → C (Unit {0})
set_remap areas s = done tt (record s { remap = areas })

-- What the loop of `spec_probe` makes of a resource: whether the area is mapped.
abbrev pub is_mapped : Bar → Bool
is_mapped absent = false
is_mapped ports = false
is_mapped (memory ok) = ok

-- Whether the loop fails.
abbrev pub is_refused : List Bar → Bool
is_refused [] = false
is_refused (absent ∷ bars) = is_refused bars
is_refused (ports ∷ bars) = is_refused bars
is_refused (memory true ∷ bars) = is_refused bars
is_refused (memory false ∷ bars) = true

abbrev pub areas_of : List Bar → List Bool
areas_of [] = []
areas_of (bar ∷ bars) = is_mapped bar ∷ areas_of bars

-- `out_unmap`; `pci_disable_msi` leaves MSI-X alone.
unfoldable pub release : Errno → C (Option Errno)
unfolding set_remap set_drvdata set_enabled set_allocated
release err = do
  set_remap (replicate 3 false)
  set_drvdata false
  set_enabled false
  set_allocated false
  pure (some err)

module _ (e : Env) (b : Bus) (k : Kernel) where
  -- `spec_load_fpga_file`.
  unfoldable pub spec_load_fpga_file : C (Option Errno)
  unfolding on_loader
  spec_load_fpga_file = elim b.firmware [
    | none ↦ pure (some other)
    | some file ↦
        (on_loader (spec_load_fpga e b.fuel b.clock file.0 file.1) >>= λ loaded.
        pure (if loaded then none else some etimedout))
  ]

  -- The part of `spec_probe` that uses the card.
  unfoldable pub start_card : C (Option Errno)
  unfolding gennum_mask_val gennum_writel spec_load_fpga_file spec_fmc_create set_drvdata release
  start_card = do
    gennum_mask_val e 0xfc0 0x000 0xa00
    gennum_mask_val e 0xfc0 0xfc0 0xa04
    gennum_writel 0xffff int_mask_set
    loaded ← spec_load_fpga_file
    elim loaded [
      | some err ↦ release err
      | none ↦ do
        created ← spec_fmc_create e k
        elim created [ some err ↦ release err | none ↦ set_drvdata true >> pure none ]
    ]

  -- `spec_probe`.
  unfoldable pub spec_probe : C (Option Errno)
  unfolding set_enabled new_spec set_msix set_remap start_card
  spec_probe = if not b.enables then pure (some other) else (do
    set_enabled true
    if not b.spec_memory then pure (some enomem) else (do
      new_spec
      when (k.use_msi && b.msix_enables) set_msix
      set_remap (areas_of b.bars)
      if is_refused b.bars then release enomem else start_card))

  -- `spec_remove`: without driver data it is a null pointer.
  unfoldable pub spec_remove : C (Unit {0})
  unfolding get_spec spec_fmc_destroy set_remap set_drvdata set_allocated set_enabled
  spec_remove = do
    s ← get_spec
    if s.drvdata then pure tt else stop
    spec_fmc_destroy e k
    set_remap (replicate 3 false)
    set_drvdata false
    set_allocated false
    set_enabled false
