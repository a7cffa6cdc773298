-- ===== src/Core/Fmc/Unready.antt =====
-- The start of the driver that returns 0 and has started nothing, and the end of the driver after it.
use sbndaq_wr.Base.{
  ℕ, ◌≡◌, refl, ap, ◌∙◌, Option, none, some, Bool, true, false, not, fault, done, ◌>>=◌, ◌&&◌,
  if◌then◌else◌, waiting, Outcome,
}
use sbndaq_wr.Base.Triples.{bind-fault, bind-done, if_known}
use sbndaq_wr.Mmio.{Env}
use sbndaq_wr.Board.{vic_exit}
use sbndaq_wr.Carrier.{SpecDev, C}
use sbndaq_wr.Core.{Card, Services, on_spec, on_vic, eth_exit}
use sbndaq_wr.Core.Fmc.{
  is_default_wrc, bus_ok, Setup, fmc_ok, set_drvdata, fmc_remove, gpio_exit, needs_wrc, load_if,
  after_reload, after_reprogram, fmc_probe,
}

if_fault :
    {S A : Type 0} (b : Bool) (o : Outcome S A) → b ≡ false → (if b then o else fault) ≡ fault
if_fault true o h = absurd (cc)
if_fault false o h = refl

no_vic : (c : Card) → c.mezzanine_data ≡ false → on_vic vic_exit c ≡ fault
unfolding on_vic
no_vic c h = if_fault (c.mezzanine_data && c.vic_base) _ (ap (λ b. b && c.vic_base) h)

remove_faults : (c : Card) → c.mezzanine_data ≡ false → fmc_remove c ≡ fault
unfolding fmc_remove eth_exit
remove_faults c h =
    bind-fault eth_exit (λ _. gpio_exit) {s = c}
      (bind-fault (on_vic vic_exit) _ {s = c} (no_vic c h))

spec_done :
    {A : Type 0} (m : C A) (c : Card) {a : A} {s : SpecDev}
    → m c.spec ≡ done a s
    → on_spec m c ≡ done a (record c { spec = s })
unfolding on_spec
spec_done m c h =
    ap
      (λ o. elim o [
        | done a s ↦ done a (record c { spec = s })
        | fault ↦ fault
        | waiting ↦ waiting
      ])
      h

module _ (e : Env) (k : Services) (t : Setup) (own : is_default_wrc t.wrc ≡ false) where
  needs : (o : Option (ℕ × ℕ)) (s : SpecDev) → o ≡ none → needs_wrc e k t o s ≡ done true s
  unfolding needs_wrc
  needs none s h = ap (λ b. done (not b) s) own
  needs (some ram) s h = absurd (cc)

  loads :
      (o : Option (ℕ × ℕ)) (syscon : Option ℕ) (s : SpecDev)
      → o ≡ none
      → load_if e k t true o syscon s ≡ done (true, false) s
  unfolding load_if
  loads none syscon s h = refl
  loads (some ram) syscon s h = absurd (cc)

  -- Without the RAM in the tree of SDB, nothing is loaded or started.
  nothing : (c : Card) → t.ram ≡ none → after_reprogram e k t bus_ok c ≡ done fmc_ok c
  unfolding after_reprogram after_reload
  nothing c no_ram =
      bind-done (on_spec (needs_wrc e k t t.ram)) _ {s = c}
        (spec_done (needs_wrc e k t t.ram) c (needs t.ram c.spec no_ram))
      ∙ bind-done (on_spec (load_if e k t true t.ram t.syscon)) _ {s = c}
          (spec_done (load_if e k t true t.ram t.syscon) c (loads t.ram t.syscon c.spec no_ram))

  reprogrammed :
      (c : Card) (s : SpecDev)
      → t.ram ≡ none
      → t.reprogram c.spec ≡ done bus_ok s
      → (on_spec t.reprogram >>= λ r. after_reprogram e k t r) c
        ≡ done fmc_ok (record c { spec = s })
  reprogrammed c s no_ram h =
      bind-done (on_spec t.reprogram) (λ r. after_reprogram e k t r) {s = c}
        (spec_done t.reprogram c h)
      ∙ nothing (record c { spec = s }) no_ram

  probes :
      (c : Card) (s : SpecDev)
      → t.valid ≡ true
      → t.driver_memory ≡ true
      → t.ram ≡ none
      → t.reprogram c.spec ≡ done bus_ok s
      → fmc_probe e k t c ≡ done fmc_ok (record c { drvdata = true; chip = false; spec = s })
  unfolding fmc_probe set_drvdata
  probes c s valid memory no_ram h = if_known _ _ c (ap not valid) (
      if_known _ _ c (ap not memory)
        (reprogrammed (record c { drvdata = true; chip = false }) s no_ram h))

  -- If another program than the default one is asked for and the RAM is not in the tree of SDB, the start for a mezzanine
  -- that is valid and could be loaded returns 0 and starts nothing, so that the end of the driver goes through a null pointer.
  pub fmc_probe_unready :
      (c : Card) (s : SpecDev)
      → t.valid ≡ true
      → t.driver_memory ≡ true
      → t.ram ≡ none
      → t.reprogram c.spec ≡ done bus_ok s
      → c.mezzanine_data ≡ false
      → (fmc_probe e k t c ≡ done fmc_ok (record c { drvdata = true; chip = false; spec = s }))
        × ((fmc_probe e k t >>= λ _. fmc_remove) c ≡ fault)
  fmc_probe_unready c s valid memory no_ram h none_there = (
    probes c s valid memory no_ram h,
    bind-done (fmc_probe e k t) (λ _. fmc_remove) {s = c} (probes c s valid memory no_ram h)
        ∙ remove_faults (record c { drvdata = true; chip = false; spec = s }) none_there,
  )
