-- ===== src/Carrier/Operations/Flags.antt =====
-- What the flags of the FMC device say after the FPGA was loaded again.
use sbndaq_wr.Base.{
  ℕ, ◌≡◌, refl, List, Option, none, some, Bool, true, false, get_or, Outcome, done, fault, waiting,
}
use sbndaq_wr.Base.Triples.{
  Ensures, returns, blocks, Triple, Keeps, Triple-bind, Triple-pure, Triple-if,
}
use sbndaq_wr.Mmio.{Env, History}
use sbndaq_wr.Spec.Loader.{L, spec_load_fpga}
use sbndaq_wr.Spec.Loader.Returns.{spec_load_fpga-Safe}
use sbndaq_wr.Carrier.{SpecDev, on_loader, gennum_readl, gennum_writel}
use sbndaq_wr.Carrier.Stage.{Ensures-if_true}
use sbndaq_wr.Carrier.Pci.Stages.{IsWhole}
use sbndaq_wr.Carrier.Operations.{
  FmcDriver, validate, Gateware, no_gateware, empty_name, file_name, Reprogrammed, reprogrammed,
  esrch, no_file, etimedout, set_flags, sys_cfg_system, Files, reset_fpga, load_named, load_own,
  reprogram_by, reprogram,
}

-- A card with its registers mapped, and the two flags.
pub record HasFlags (golden custom : Bool) (s : SpecDev) : Type 0 where
  pub mapped : get_or s.remap 2 false ≡ true
  pub golden_is : s.golden ≡ golden
  pub custom_is : s.custom ≡ custom

flags-Ensures :
    {W A : Type 0} {a b : Bool} (s : SpecDev) (o : Outcome History A)
    → HasFlags a b s
    → Ensures W (λ _ _. Unit {0}) o
    → Ensures W
        (λ (x : A). HasFlags a b)
        (elim o [
          | done x h ↦ done x (record s { fmc = record s.fmc { history = h } })
          | fault ↦ fault
          | waiting ↦ waiting
        ])
flags-Ensures s (done x h') i h =
    returns (record { mapped = i.mapped; golden_is = i.golden_is; custom_is = i.custom_is })
flags-Ensures s fault i h = elim h [ ]
flags-Ensures s waiting i (blocks w) = blocks w

module _ {W : Type 0} {a b : Bool} where
  on_loader-HasFlags :
      {A : Type 0} (m : L A)
      → Triple W (λ h. Unit {0}) m (λ _ h. Unit {0})
      → Keeps W (HasFlags a b) (on_loader m)
  unfolding on_loader
  on_loader-HasFlags m t = record {
    at = λ s i.
        Ensures-if_true (get_or s.remap 2 false) _ fault i.mapped
          (flags-Ensures s (m s.fmc.history) i (t.at s.fmc.history tt));
  }

  set_flags-HasFlags : (x y : Bool) → Triple W (HasFlags a b) (set_flags x y) (λ _. HasFlags x y)
  unfolding set_flags
  set_flags-HasFlags x y = record {
    at = λ s i. returns (record { mapped = i.mapped; golden_is = refl; custom_is = refl });
  }

  readl-HasFlags : (e : Env) (reg : ℕ) → Keeps W (HasFlags a b) (gennum_readl e reg)
  unfolding gennum_readl
  readl-HasFlags e reg = record {
    at = λ s i.
        Ensures-if_true (get_or s.remap 2 false) _ fault i.mapped (
          returns (record { mapped = i.mapped; golden_is = i.golden_is; custom_is = i.custom_is }));
  }

  writel-HasFlags : (val reg : ℕ) → Keeps W (HasFlags a b) (gennum_writel val reg)
  unfolding gennum_writel
  writel-HasFlags val reg = record {
    at = λ s i.
        Ensures-if_true (get_or s.remap 2 false) _ fault i.mapped (
          returns (record { mapped = i.mapped; golden_is = i.golden_is; custom_is = i.custom_is }));
  }

  reset-HasFlags : (e : Env) (k : Files) → Keeps W (HasFlags a b) (reset_fpga e k)
  unfolding reset_fpga
  reset-HasFlags e k =
      Triple-bind (readl-HasFlags e sys_cfg_system)
        λ reg. Triple-bind (writel-HasFlags _ sys_cfg_system) λ _. writel-HasFlags _ sys_cfg_system

abbrev is_default : Option ℕ → Bool
is_default none = true
is_default (some gw) = false

abbrev is_named : Option ℕ → Bool
is_named none = false
is_named (some gw) = true

-- The name of the file that is loaded: the driver's own one stands at its index.
abbrev own_name : Option ℕ → Option (Option ℕ)
own_name none = none
own_name (some gw) = some (some gw)

abbrev name_by : FmcDriver → Option ℕ → Option (Option ℕ)
name_by drv none = none
name_by drv (some index) = own_name (drv.gateware index)

abbrev pub chosen : FmcDriver → ℕ → Gateware → Option (Option ℕ)
chosen drv busid no_gateware = some none
chosen drv busid (file_name gw) = some (some gw)
chosen drv busid empty_name = name_by drv (validate drv busid)

-- A driver that asks for its own file is valid for the card.
abbrev pub IsSome : Option ℕ → Type 0
IsSome none = ⊥
IsSome (some index) = Unit

abbrev pub HasIndex : FmcDriver → ℕ → Gateware → Type 0
HasIndex drv busid empty_name = IsSome (validate drv busid)
HasIndex drv busid _ = Unit

-- The flags after a load of a named file, or of none.
abbrev pub FlagsOf : Bool → Bool → Option (Option ℕ) → Reprogrammed → SpecDev → Type 0
FlagsOf a b (some name) reprogrammed = HasFlags (is_default name) (is_named name)
FlagsOf a b none reprogrammed = λ _. ⊥
FlagsOf a b name etimedout = HasFlags false false
FlagsOf a b name esrch = HasFlags a b
FlagsOf a b name no_file = HasFlags a b

-- Each file has a buffer of whole words.
abbrev pub AllWhole : Files → Type 0
AllWhole k = (name : Option ℕ) → IsWhole (k.firmware name)

module _ (e : Env) (k : Files) (a b : Bool) where
  flag-HasFlags :
      (name : Option ℕ)
      → Triple
          (Unit {0})
          (HasFlags false false)
          (elim name [ none ↦ set_flags true false | some gw ↦ set_flags false true ])
          (λ _. HasFlags (is_default name) (is_named name))
  flag-HasFlags none = set_flags-HasFlags true false
  flag-HasFlags (some gw) = set_flags-HasFlags false true

  load_named-Triple :
      (name : Option ℕ) (o : Option (List ℕ × ℕ))
      → IsWhole o
      → Triple (Unit {0}) (HasFlags a b) (load_named e k name o) (FlagsOf a b (some name))
  unfolding load_named
  load_named-Triple name none w = Triple-pure no_file (λ s i. i)
  load_named-Triple name (some (bytes, size)) w = Triple-bind (set_flags-HasFlags false false) λ _.
      Triple-bind
        (on_loader-HasFlags (spec_load_fpga e k.fuel k.clock bytes size)
          (spec_load_fpga-Safe e k.fuel k.clock bytes size w))
        λ loaded.
          Triple-if loaded
            (λ _.
              Triple-bind (flag-HasFlags name)
                λ _. Triple-bind (reset-HasFlags e k) λ _. Triple-pure reprogrammed (λ s i. i))
            (λ _. Triple-pure etimedout (λ s i. i))

  load_own-Triple :
      (o : Option ℕ)
      → AllWhole k
      → Triple (Unit {0}) (HasFlags a b) (load_own e k o) (FlagsOf a b (own_name o))
  unfolding load_own
  load_own-Triple none whole = Triple-pure esrch (λ s i. i)
  load_own-Triple (some gw) whole =
      load_named-Triple (some gw) (k.firmware (some gw)) (whole (some gw))

  reprogram_by-Triple :
      (drv : FmcDriver) (o : Option ℕ)
      → IsSome o
      → AllWhole k
      → Triple (Unit {0}) (HasFlags a b) (reprogram_by e k drv o) (FlagsOf a b (name_by drv o))
  unfolding reprogram_by
  reprogram_by-Triple drv none i whole = absurd i
  reprogram_by-Triple drv (some index) i whole = load_own-Triple (drv.gateware index) whole

  -- Loading the FPGA again never faults, for files in whole words, registers that are mapped and a driver that is valid for
  -- the card if it asks for its own file. If it returns 0, the flags say the default gateware or another one as the name
  -- was; after a time-out they say neither, and after another error they are as they were.
  pub reprogram-Triple :
      (drv : FmcDriver) (busid : ℕ) (gw : Gateware)
      → AllWhole k
      → HasIndex drv busid gw
      → Triple
          (Unit {0})
          (HasFlags a b)
          (reprogram e k drv busid gw)
          (FlagsOf a b (chosen drv busid gw))
  unfolding reprogram
  reprogram-Triple drv busid no_gateware whole i =
      load_named-Triple none (k.firmware none) (whole none)
  reprogram-Triple drv busid (file_name gw) whole i =
      load_named-Triple (some gw) (k.firmware (some gw)) (whole (some gw))
  reprogram-Triple drv busid empty_name whole i =
      reprogram_by-Triple drv (validate drv busid) i whole
