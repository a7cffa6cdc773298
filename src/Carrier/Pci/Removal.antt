-- ===== src/Carrier/Pci/Removal.antt =====
-- What the removal of the card gives back.
use sbndaq_wr.Base.{
  ℕ, refl, ap, Option, none, some, Bool, true, false, pure, ◌>>=◌, ◌>>◌, stop, replicate,
}
use sbndaq_wr.Base.Triples.{Triple, Keeps-pure, Triple-bind, Triple-given, Triple-if}
use sbndaq_wr.Mmio.{Env}
use sbndaq_wr.Carrier.{C, irq_request}
use sbndaq_wr.Carrier.Stage.{Stage, IsAt, get_spec-IsAt}
use sbndaq_wr.Carrier.Device.{Errno, Kernel}
use sbndaq_wr.Carrier.Device.Made.{settled, spec_fmc_destroy-Triple}
use sbndaq_wr.Carrier.Pci.{Bus, spec_probe, spec_remove}
use sbndaq_wr.Carrier.Pci.Stages.{
  base, away, ready, set_enabled-IsAt, set_allocated-IsAt, set_drvdata-IsAt, set_remap-IsAt,
}

module _ {W : Type 0} (e : Env) (b : Bus) (k : Kernel) where
  -- From a card in use, with a handler of a mezzanine's driver that is counted or without one, the removal gives back all.
  pub spec_remove-Triple :
      (x : Bool) (l n c : ℕ) (held : Bool)
      → Triple W
          (IsAt (record (ready x l n c) { handler = held; irq_registered = held }))
          (spec_remove e b k)
          (λ _. IsAt (away x l n c))
  unfolding spec_remove
  spec_remove-Triple x l n c held =
      let g0 : Stage = record (ready x l n c) { handler = held; irq_registered = held } in
      Triple-bind (get_spec-IsAt g0) λ y. Triple-given λ iy.
        Triple-bind
          (Triple-if y.drvdata {m = pure tt} {n = stop} (λ _. Keeps-pure tt)
            (λ absent. absurd (cc (absent, ap (λ (z : Stage). z.drvdata) iy.is))))
          λ _.
            Triple-bind (spec_fmc_destroy-Triple e k (base x l true true true) refl refl n c held)
              λ _.
                Triple-bind
                  (set_remap-IsAt (settled (base x l true true true) false n c) (replicate 3 false))
                  λ _.
                    Triple-bind
                      (set_drvdata-IsAt (settled (base x l true false true) false n c) false)
                      λ _.
                        Triple-bind
                          (set_allocated-IsAt (settled (base x l true false false) false n c) false)
                          λ _.
                            set_enabled-IsAt
                              (record (settled (base x l true false false) false n c) {
                                allocated = false;
                              })
                              false

-- The life of a card: it is probed, and if that went well a driver asks for the interrupt, which the kernel grants or not,
-- and the card is removed.
unfoldable pub probe_and_remove : Env → Bus → Kernel → Bool → C (Option Errno)
unfolding spec_probe spec_remove irq_request
probe_and_remove e b k granted = do
  r ← spec_probe e b k
  elim r [
    | some err ↦ pure (some err)
    | none ↦ (irq_request e k.use_msi granted >>= λ _. spec_remove e b k >> pure none)
  ]
