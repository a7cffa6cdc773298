-- ===== src/Carrier/Stage.antt =====
-- What is held of the kernel, and what the parts of spec-fmc.c do to it.
use sbndaq_wr.Base.{
  ℕ, zero, suc, ◌+◌, ◌≡◌, ap, ◌∙◌, List, Bool, true, false, get_or, Outcome, done, fault, waiting,
  if◌then◌else◌,
}
use sbndaq_wr.Base.Triples.{Ensures, returns, blocks, Triple, Keeps, Keeps-pure, Triple-bind}
use sbndaq_wr.Mmio.{Env, History}
use sbndaq_wr.Spec.I2c.{Fmc, F}
use sbndaq_wr.Spec.Loader.{L}
use sbndaq_wr.Carrier.{
  SpecDev, get_spec, gennum_readl, gennum_writel, gennum_mask_val, on_fmc, on_loader, add_handler,
  free_handler, set_irq_count, clear_cfg, msi_hack, spec_irq_ack, irq_exit,
}

pub record Stage : Type 0 where
  pub enabled : Bool
  pub allocated : Bool
  pub drvdata : Bool
  pub remap : List Bool
  pub fmc_there : Bool
  pub registered : Bool
  pub handler : Bool
  pub irq_registered : Bool
  pub irq_count : ℕ
  pub stray_frees : ℕ
  pub msix : Bool
  pub lost_buffers : ℕ

abbrev pub stage : SpecDev → Stage
stage s = record {
  enabled = s.enabled;
  allocated = s.allocated;
  drvdata = s.drvdata;
  remap = s.remap;
  fmc_there = s.fmc_there;
  registered = s.registered;
  handler = s.handler;
  irq_registered = s.irq_registered;
  irq_count = s.irq_count;
  stray_frees = s.stray_frees;
  msix = s.msix;
  lost_buffers = s.lost_buffers;
}

pub record IsAt (g : Stage) (s : SpecDev) : Type 0 where
  pub is : stage s ≡ g

-- The third area is mapped, and the first one.
abbrev pub HasGennum : Stage → Type 0
HasGennum g = get_or g.remap 2 false ≡ true

abbrev pub HasWindow : Stage → Type 0
HasWindow g = get_or g.remap 0 false ≡ true

pub Ensures-if_true :
    {W S A : Type 0} {Q : A → S → Type 0} (b : Bool) (x y : Outcome S A)
    → b ≡ true
    → Ensures W Q x
    → Ensures W Q (if b then x else y)
Ensures-if_true true x y e h = h
Ensures-if_true false x y e h = cc

on_fmc-Ensures :
    {W A : Type 0} (g : Stage) (s : SpecDev) (o : Outcome Fmc A)
    → IsAt g s
    → Ensures W (λ _ _. Unit {0}) o
    → Ensures W
        (λ (a : A). IsAt g)
        (elim o [ done a f ↦ done a (record s { fmc = f }) | fault ↦ fault | waiting ↦ waiting ])
on_fmc-Ensures g s (done a f) i h = returns (record { is = i.is })
on_fmc-Ensures g s fault i h = elim h [ ]
on_fmc-Ensures g s waiting i (blocks w) = blocks w

on_loader-Ensures :
    {W A : Type 0} (g : Stage) (s : SpecDev) (o : Outcome History A)
    → IsAt g s
    → Ensures W (λ _ _. Unit {0}) o
    → Ensures W
        (λ (a : A). IsAt g)
        (elim o [
          | done a h ↦ done a (record s { fmc = record s.fmc { history = h } })
          | fault ↦ fault
          | waiting ↦ waiting
        ])
on_loader-Ensures g s (done a h') i h = returns (record { is = i.is })
on_loader-Ensures g s fault i h = elim h [ ]
on_loader-Ensures g s waiting i (blocks w) = blocks w

gennum_at : (g : Stage) (s : SpecDev) → HasGennum g → IsAt g s → get_or s.remap 2 false ≡ true
gennum_at g s third i = ap (λ (x : Stage). get_or x.remap 2 false) i.is ∙ third

pub window_at : (g : Stage) (s : SpecDev) → HasWindow g → IsAt g s → get_or s.remap 0 false ≡ true
window_at g s first i = ap (λ (x : Stage). get_or x.remap 0 false) i.is ∙ first

module _ {W : Type 0} (g : Stage) where
  -- A program on the FMC device keeps the stage, if it does not fault.
  pub on_fmc-IsAt :
      {A : Type 0} (m : F A)
      → HasWindow g
      → Triple W (λ f. Unit {0}) m (λ _ f. Unit {0})
      → Keeps W (IsAt g) (on_fmc m)
  unfolding on_fmc
  on_fmc-IsAt m window t = record {
    at = λ s i.
        Ensures-if_true (get_or s.remap 0 false) _ fault (window_at g s window i)
          (on_fmc-Ensures g s (m s.fmc) i (t.at s.fmc tt));
  }

  pub on_loader-IsAt :
      {A : Type 0} (m : L A)
      → HasGennum g
      → Triple W (λ h. Unit {0}) m (λ _ h. Unit {0})
      → Keeps W (IsAt g) (on_loader m)
  unfolding on_loader
  on_loader-IsAt m third t = record {
    at = λ s i.
        Ensures-if_true (get_or s.remap 2 false) _ fault (gennum_at g s third i)
          (on_loader-Ensures g s (m s.fmc.history) i (t.at s.fmc.history tt));
  }

  -- The state that is read is at the stage.
  pub get_spec-IsAt : Triple W (IsAt g) get_spec (λ x s. IsAt g x × IsAt g s)
  unfolding get_spec
  get_spec-IsAt = record { at = λ s i. returns (i, i) }

  pub add_handler-IsAt :
      Triple W (IsAt g) add_handler (λ _. IsAt (record g { handler = true; irq_registered = true }))
  unfolding add_handler
  add_handler-IsAt = record {
    at = λ s i. returns (record {
      is = ap (λ (x : Stage). record x { handler = true; irq_registered = true }) i.is;
    });
  }

  -- A handler is freed that the kernel has, or that it has not.
  pub free_handler-IsAt : Triple W (IsAt g) free_handler (λ _. IsAt (record g {
    handler = false;
    irq_registered = false;
    stray_frees = g.stray_frees + (if g.handler then 0 else 1);
  }))
  unfolding free_handler
  free_handler-IsAt = record {
    at = λ s i. returns (record {
      is =
          ap
            (λ (x : Stage). record x {
              handler = false;
              irq_registered = false;
              stray_frees = x.stray_frees + (if x.handler then 0 else 1);
            })
            i.is;
    });
  }

  pub set_irq_count-IsAt :
      (n : ℕ) → Triple W (IsAt g) (set_irq_count n) (λ _. IsAt (record g { irq_count = n }))
  unfolding set_irq_count
  set_irq_count-IsAt n = record {
    at = λ s i. returns (record { is = ap (λ (x : Stage). record x { irq_count = n }) i.is });
  }

  module _ (third : HasGennum g) where
    pub gennum_writel-IsAt : (val reg : ℕ) → Keeps W (IsAt g) (gennum_writel val reg)
    unfolding gennum_writel
    gennum_writel-IsAt val reg = record {
      at = λ s i.
          Ensures-if_true (get_or s.remap 2 false) _ fault (gennum_at g s third i)
            (returns (record { is = i.is }));
    }

    pub gennum_readl-IsAt : (e : Env) (reg : ℕ) → Keeps W (IsAt g) (gennum_readl e reg)
    unfolding gennum_readl
    gennum_readl-IsAt e reg = record {
      at = λ s i.
          Ensures-if_true (get_or s.remap 2 false) _ fault (gennum_at g s third i)
            (returns (record { is = i.is }));
    }

    pub gennum_mask_val-IsAt :
        (e : Env) (mask val reg : ℕ) → Keeps W (IsAt g) (gennum_mask_val e mask val reg)
    unfolding gennum_mask_val
    gennum_mask_val-IsAt e mask val reg =
        Triple-bind (gennum_readl-IsAt e reg) λ v. gennum_writel-IsAt _ reg

    pub clear_cfg-IsAt : (rounds i : ℕ) → Keeps W (IsAt g) (clear_cfg rounds i)
    unfolding clear_cfg
    clear_cfg-IsAt zero i = Keeps-pure tt
    clear_cfg-IsAt (suc rounds) i =
        Triple-bind (gennum_writel-IsAt 0 _) λ _. clear_cfg-IsAt rounds (i + 1)

    pub spec_irq_ack-IsAt : (e : Env) → Keeps W (IsAt g) (spec_irq_ack e)
    unfolding spec_irq_ack
    spec_irq_ack-IsAt e = Triple-bind (gennum_readl-IsAt e _) λ _. Keeps-pure tt

    pub irq_exit-IsAt : (e : Env) → Keeps W (IsAt g) (irq_exit e)
    unfolding irq_exit
    irq_exit-IsAt e = Triple-bind (clear_cfg-IsAt 7 0) λ _. spec_irq_ack-IsAt e

    pub msi_hack-IsAt : (e : Env) (use_msi : Bool) → Keeps W (IsAt g) (msi_hack e use_msi)
    unfolding msi_hack
    msi_hack-IsAt e true = Triple-bind (gennum_readl-IsAt e _) λ v. gennum_writel-IsAt _ _
    msi_hack-IsAt e false = Keeps-pure tt
