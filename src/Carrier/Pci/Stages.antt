-- ===== src/Carrier/Pci/Stages.antt =====
-- What a card holds while it is probed, and the steps of spec-pci.c on it.
use mathlib.Core.Path.{subst}
use sbndaq_wr.Base.{
  ◌&&◌, ℕ, ◌+◌, ◌*◌, ◌/◌, ◌≤◌, ◌≡◌, ap, List, length, Option, none, some, Bool, true, false, when,
  replicate,
}
use sbndaq_wr.Base.Triples.{returns, Triple, Keeps-pure}
use sbndaq_wr.Carrier.{SpecDev}
use sbndaq_wr.Carrier.Stage.{Stage, IsAt}
use sbndaq_wr.Carrier.Device.{Kernel}
use sbndaq_wr.Carrier.Device.Made.{settled, refusals}
use sbndaq_wr.Carrier.Pci.{
  Bus, set_enabled, set_allocated, new_spec, set_drvdata, set_msix, set_remap,
}

-- MSI-X is enabled or not, some buffers are lost, the card is enabled with its structure there, its areas are mapped, and the driver data are set, or not.
abbrev pub base : Bool → ℕ → Bool → Bool → Bool → Stage
base msix lost on mapped drvdata = record {
  enabled = on;
  allocated = on;
  drvdata = drvdata;
  remap = replicate 3 mapped;
  fmc_there = false;
  registered = false;
  handler = false;
  irq_registered = false;
  irq_count = 0;
  stray_frees = 0;
  msix = msix;
  lost_buffers = lost;
}

-- Nothing is held, and all that a card in use holds.
abbrev pub away : Bool → ℕ → ℕ → ℕ → Stage
away msix lost strays counted = settled (base msix lost false false false) false strays counted

abbrev pub ready : Bool → ℕ → ℕ → ℕ → Stage
ready msix lost strays counted = settled (base msix lost true true true) true strays counted

abbrev pub started : Bool → ℕ → ℕ → ℕ → Stage
started msix lost strays counted = settled (base msix lost true true false) false strays counted

-- How the probing ends: `left` says whether the PCI device is left enabled by a failure.
abbrev pub ended : Bool → Bool → Bool → ℕ → ℕ → ℕ → Stage
ended left true msix lost strays counted = ready msix lost strays counted
ended left false msix lost strays counted = record (away msix lost strays counted) {
  enabled = left;
}

-- Whether the probing enables MSI-X.
abbrev pub enables_msix : Bus → Kernel → Bool
enables_msix b k = k.use_msi && b.msix_enables

pub record IsProbed (b : Bus) (k : Kernel) (l strays : ℕ) (ok : Bool) (s : SpecDev) : Type 0 where
  pub msix : Bool
  pub msix_only : msix ≡ true → enables_msix b k ≡ true
  pub lost : ℕ
  pub lost_least : l ≤ lost
  pub lost_most : lost ≤ l + 1
  pub freed : ℕ
  pub counted : ℕ
  pub left : Bool
  pub left_only : left ≡ true → b.spec_memory ≡ false
  pub at_least : strays ≤ freed
  pub at_most : freed ≤ strays + refusals k
  pub stage_is : IsAt (ended left ok msix lost freed counted) s

-- A file with a buffer of whole words.
abbrev pub IsWhole : Option (List ℕ × ℕ) → Type 0
IsWhole none = Unit
IsWhole (some (bytes, size)) = 4 * ((size + 3) / 4) ≤ length bytes

module _ {W : Type 0} (g : Stage) where
  pub set_enabled-IsAt :
      (x : Bool) → Triple W (IsAt g) (set_enabled x) (λ _. IsAt (record g { enabled = x }))
  unfolding set_enabled
  set_enabled-IsAt x = record {
    at = λ s i. returns (record { is = ap (λ (y : Stage). record y { enabled = x }) i.is });
  }

  pub set_allocated-IsAt :
      (x : Bool) → Triple W (IsAt g) (set_allocated x) (λ _. IsAt (record g { allocated = x }))
  unfolding set_allocated
  set_allocated-IsAt x = record {
    at = λ s i. returns (record { is = ap (λ (y : Stage). record y { allocated = x }) i.is });
  }

  pub set_drvdata-IsAt :
      (x : Bool) → Triple W (IsAt g) (set_drvdata x) (λ _. IsAt (record g { drvdata = x }))
  unfolding set_drvdata
  set_drvdata-IsAt x = record {
    at = λ s i. returns (record { is = ap (λ (y : Stage). record y { drvdata = x }) i.is });
  }

  pub set_remap-IsAt :
      (x : List Bool) → Triple W (IsAt g) (set_remap x) (λ _. IsAt (record g { remap = x }))
  unfolding set_remap
  set_remap-IsAt x = record {
    at = λ s i. returns (record { is = ap (λ (y : Stage). record y { remap = x }) i.is });
  }

  set_msix-IsAt : Triple W (IsAt g) set_msix (λ _. IsAt (record g { msix = true }))
  unfolding set_msix
  set_msix-IsAt = record {
    at = λ s i. returns (record { is = ap (λ (y : Stage). record y { msix = true }) i.is });
  }

pub when_msix-IsAt :
    {W : Type 0} (g : Stage) (x : Bool)
    → g.msix ≡ false
    → Triple W (IsAt g) (when x set_msix) (λ _. IsAt (record g { msix = x }))
when_msix-IsAt g true off = set_msix-IsAt g
when_msix-IsAt {W} g false off =
    subst (λ y. Triple W (IsAt g) (when false set_msix) (λ _. IsAt (record g { msix = y }))) off
      (Keeps-pure tt)

pub new_spec-IsAt :
    {W : Type 0} (l n c : ℕ)
    → Triple W
        (IsAt (record (away false l n c) { enabled = true }))
        new_spec
        (λ _. IsAt (record (started false l n 0) { remap = replicate 3 false }))
unfolding new_spec
new_spec-IsAt l n c = record {
  at = λ s i. returns (record {
    is =
        ap
          (λ (y : Stage). record y {
            allocated = true;
            remap = replicate 3 false;
            fmc_there = false;
            irq_registered = false;
            irq_count = 0;
          })
          i.is;
  });
}
