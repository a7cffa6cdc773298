-- ===== src/Carrier/Irq.antt =====
-- The interrupt test of `spec_irq_init`: what it finds, and what it leaves.
use mathlib.Core.Path.{subst}
use sbndaq_wr.Base.{
  ℕ, zero, suc, ◌+◌, ◌^◌, ◌<◌, ◌≡◌, refl, ap, Bool, true, false, not, arith, pure, ◌==◌,
  if◌then◌else◌,
}
use sbndaq_wr.Base.Triples.{
  Triple, Keeps, Keeps-pure, Triple-bind, Triple-given, Triple-pure, Triple-pre, Triple-post,
  Triple-if,
}
use sbndaq_wr.Mmio.{Env, u32}
use sbndaq_wr.Carrier.{irq_free, irq_request, test_handler, await_interrupts, test_irq, irq_init}
use sbndaq_wr.Carrier.Stage.{
  Stage, IsAt, HasGennum, get_spec-IsAt, set_irq_count-IsAt, clear_cfg-IsAt, add_handler-IsAt,
  free_handler-IsAt, gennum_readl-IsAt, gennum_writel-IsAt, spec_irq_ack-IsAt, msi_hack-IsAt,
}

-- The stage with a handler, and after it was freed.
abbrev pub requested_stage : Bool → Stage → Stage
requested_stage granted g = record g {
  handler = if granted then true else g.handler;
  irq_registered = if granted then true else g.irq_registered;
}

abbrev pub freed_stage : Stage → Stage
freed_stage g = record g {
  handler = false;
  irq_registered = false;
  stray_frees = g.stray_frees + (if g.handler then 0 else 1);
}

abbrev pub counted : Stage → ℕ → Stage
counted g n = record g { irq_count = n }

module _ {W : Type 0} (e : Env) where
  pub irq_request-IsAt :
      (g : Stage) (use_msi requested : Bool)
      → HasGennum g
      → Triple W
          (IsAt g)
          (irq_request e use_msi requested)
          (λ r s. (r ≡ requested) × IsAt (requested_stage requested g) s)
  unfolding irq_request
  irq_request-IsAt g use_msi true third = Triple-bind (add_handler-IsAt g) λ _.
      Triple-bind (msi_hack-IsAt (requested_stage true g) third e use_msi)
        λ _. Triple-pure true (λ s i. (refl, i))
  irq_request-IsAt g use_msi false third = Triple-pure false (λ s i. (refl, i))

  pub irq_free-IsAt :
      (g : Stage) → HasGennum g → Triple W (IsAt g) irq_free (λ _. IsAt (freed_stage g))
  unfolding irq_free
  irq_free-IsAt g third = Triple-bind (gennum_writel-IsAt g third 0xffff _) λ _. free_handler-IsAt g

  test_handler-IsAt :
      (g : Stage) (n calls : ℕ)
      → HasGennum g
      → n + calls < 2 ^ 32
      → Triple W (IsAt (counted g n)) (test_handler e calls) (λ _. IsAt (counted g (n + calls)))
  unfolding test_handler
  test_handler-IsAt g n zero third small =
      Triple-pure tt (λ s i. subst (λ m. IsAt (counted g m) s) (omega arith) i)
  test_handler-IsAt g n (suc calls) third small = Triple-bind (get_spec-IsAt (counted g n)) λ x.
      Triple-given λ ix.
        let same : x.irq_count ≡ n = ap (λ (y : Stage). y.irq_count) ix.is in
        let next : u32 (x.irq_count + 1) ≡ n + 1 = omega (arith, same, small) in
        Triple-bind (set_irq_count-IsAt (counted g n) (u32 (x.irq_count + 1))) λ _.
          Triple-pre (λ s i. subst (λ m. IsAt (counted g m) s) next i)
            (Triple-bind (spec_irq_ack-IsAt (counted g (n + 1)) third e) λ _.
              Triple-post (λ _ s i. subst (λ m. IsAt (counted g m) s) (omega arith) i)
                (test_handler-IsAt g (n + 1) calls third (omega arith)))

-- How many interrupts the test counts, and the stage that it leaves.
abbrev pub received : Bool → ℕ → ℕ
received requested calls = if requested then calls else 0

abbrev pub tested_stage : Bool → ℕ → Stage → Stage
tested_stage requested calls g =
    freed_stage (requested_stage requested (record g { irq_count = received requested calls }))

module _ {W : Type 0} (e : Env) where
  await_interrupts-IsAt :
      (g : Stage) (calls : ℕ)
      → HasGennum g
      → g.handler ≡ true
      → calls < 2 ^ 32
      → Triple W (IsAt (counted g 0)) (await_interrupts e calls) (λ _. IsAt (counted g calls))
  unfolding await_interrupts
  await_interrupts-IsAt g calls third handler small = Triple-bind (get_spec-IsAt (counted g 0)) λ x.
      Triple-given λ ix.
        Triple-if x.handler {n = pure tt}
          (λ _.
            Triple-post (λ _ s i. subst (λ m. IsAt (counted g m) s) (omega arith) i)
              (test_handler-IsAt e g 0 calls third (omega arith)))
          (λ no. absurd (cc (handler, no, ap (λ (y : Stage). y.handler) ix.is)))

  idle-IsAt :
      (g : Stage) (calls : ℕ) → g.handler ≡ false → Keeps W (IsAt g) (await_interrupts e calls)
  unfolding await_interrupts
  idle-IsAt g calls none = Triple-bind (get_spec-IsAt g) λ x. Triple-given λ ix.
      Triple-if x.handler {m = test_handler e calls}
        (λ yes_it. absurd (cc (none, yes_it, ap (λ (y : Stage). y.handler) ix.is)))
        (λ _. Keeps-pure tt)

  -- The test from the request on, which the interrupts reach if the request was granted.
  waited-IsAt :
      (g : Stage) (requested : Bool) (calls : ℕ)
      → HasGennum g
      → g.handler ≡ false
      → calls < 2 ^ 32
      → Triple W
          (IsAt (requested_stage requested (counted g 0)))
          (await_interrupts e calls)
          (λ _. IsAt (requested_stage requested (counted g (received requested calls))))
  waited-IsAt g true calls third none small =
      await_interrupts-IsAt (requested_stage true g) calls third refl small
  waited-IsAt g false calls third none small = idle-IsAt (counted g 0) calls none

  test_irq-IsAt :
      (g : Stage) (use_msi requested : Bool) (calls : ℕ)
      → HasGennum g
      → g.handler ≡ false
      → calls < 2 ^ 32
      → Triple W (IsAt g) (test_irq e use_msi requested calls) (λ r s.
        (r ≡ not (received requested calls == 0)) × IsAt (tested_stage requested calls g) s)
  unfolding test_irq
  test_irq-IsAt g use_msi requested calls third none small =
      let g1 = requested_stage requested (counted g 0) in
      Triple-bind (set_irq_count-IsAt g 0) λ _.
        Triple-bind (irq_request-IsAt e (counted g 0) use_msi requested third) λ r.
          Triple-given λ same. Triple-bind (gennum_writel-IsAt g1 third 8 0x814) λ _.
            Triple-bind (gennum_writel-IsAt g1 third 0 0x814) λ _.
              Triple-bind (waited-IsAt g requested calls third none small) λ _.
                Triple-bind
                  (irq_free-IsAt e
                    (requested_stage requested (counted g (received requested calls))) third)
                  λ _. Triple-bind (get_spec-IsAt (tested_stage requested calls g)) λ x.
                    Triple-given λ ix.
                      Triple-pure (not (x.irq_count == 0))
                        (λ s i. (ap (λ (y : Stage). not (y.irq_count == 0)) ix.is, i))

-- The stage that `spec_irq_init` leaves, and whether it succeeds.
abbrev pub init_stage : Bool → Bool → ℕ → Stage → Stage
init_stage true requested calls g = tested_stage requested calls g
init_stage false requested calls g = g

abbrev pub passes : Bool → Bool → ℕ → Bool
passes true requested calls = not (received requested calls == 0)
passes false requested calls = true

module _ {W : Type 0} (e : Env) where
  -- With the third area mapped, no handler yet and fewer than 2 ^ 32 calls of the test's handler, the initialization of the
  -- interrupts succeeds without a test; with one it
  -- does exactly if the request was granted and the handler was called. What it counts is the number of calls. Afterwards
  -- there is no handler again, and nothing else that is held of the kernel has changed; if the request was refused, a handler
  -- was freed that is not there.
  pub irq_init-Triple :
      (g : Stage) (use_msi testing requested : Bool) (calls : ℕ)
      → HasGennum g
      → g.handler ≡ false
      → calls < 2 ^ 32
      → Triple W (IsAt g) (irq_init e use_msi testing requested calls) (λ r s.
        (r ≡ passes testing requested calls) × IsAt (init_stage testing requested calls g) s)
  unfolding irq_init
  irq_init-Triple g use_msi testing requested calls third none small =
      Triple-bind (msi_hack-IsAt g third e use_msi) λ _.
        Triple-bind (gennum_readl-IsAt g third e 0x54) λ value.
          Triple-bind (clear_cfg-IsAt g third 7 0)
            λ _. Triple-bind (gennum_writel-IsAt g third 0x800c _) λ _. tested testing
    where
      tested :
          (b : Bool)
          → Triple W
              (IsAt g)
              (if b then test_irq e use_msi requested calls else pure true)
              (λ r s. (r ≡ passes b requested calls) × IsAt (init_stage b requested calls g) s)
      tested true = test_irq-IsAt e g use_msi requested calls third none small
      tested false = Triple-pure true (λ s i. (refl, i))
