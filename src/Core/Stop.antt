-- ===== src/Core/Stop.antt =====
-- What the network part gives back to the kernel when it ends.
use mathlib.Core.Path.{subst}
use sbndaq_wr.Base.{
  ℕ, ◌+◌, ◌-◌, ◌≤◌, ◌≡◌, refl, sym, ◌∙◌, Bool, true, false, arith, replicate, if◌then◌else◌,
}
use sbndaq_wr.Base.Triples.{Triple, Keeps-pure, Triple-bind, Triple-post, Triple-given}
use sbndaq_wr.Mmio.{Env}
use sbndaq_wr.Board.{vic_init, vic_exit}
use sbndaq_wr.Carrier.{irq_free}
use sbndaq_wr.Carrier.Stage.{Stage, HasGennum}
use sbndaq_wr.Carrier.Irq.{freed_stage, irq_free-IsAt}
use sbndaq_wr.Nic.Probe.{wrn_remove}
use sbndaq_wr.Nic.Probe.Views.{Net, View}
use sbndaq_wr.Nic.Probe.Removed.{removed, wrn_remove-Shows}
use sbndaq_wr.Core.{Card, on_spec, idle, unregister_platform, eth_exit}
use sbndaq_wr.Core.Views.{
  Parts, IsCard, Accesses, on_spec-IsCard, on_pdev-IsCard, on_vic-IsCard, give_back-IsCard,
  set_mezzanine-IsCard, set_bound-IsCard, is_bound-IsCard,
}

-- No handler is registered, or the driver's one.
abbrev pub quiet : Stage → Stage
quiet g = record g { handler = false; irq_registered = false }

abbrev pub listening : Stage → Stage
listening g = record g { handler = true; irq_registered = true }

abbrev pub off : Parts → Parts
off x = record x { mezzanine_data = false; vic_base = false; bound = false }

abbrev pub on : Bool → Parts → Parts
on b x = record x { mezzanine_data = true; vic_base = true; bound = b; held = x.held + 4 }

-- The network part is not there; `m` net devices are allocated.
pub record IsOff (g : Stage) (x : Parts) (m : ℕ) (c : Card) : Type 0 where
  pub seen : View
  pub netdevs : seen.netdevs ≡ m
  pub card : IsCard (quiet g) seen (off x) c

-- A bound platform device is one in use.
pub record InUse (m : ℕ) (v : View) : Type 0 where
  pub wrdio : v.wrdio ≡ true
  pub there : v.shortcuts ≡ true
  pub full : v.bases ≡ replicate 4 true
  pub dev : v.dev ≡ true
  pub one_more : v.netdevs ≡ m + 1

-- The network part is there, and the platform device is bound or not.
pub record IsOn (g : Stage) (x : Parts) (m : ℕ) (c : Card) : Type 0 where
  pub seen : View
  pub has_driver : Bool
  pub in_use : has_driver ≡ true → InUse m seen
  pub at_least : m ≤ seen.netdevs
  pub at_most : seen.netdevs ≤ m + 1
  pub card : IsCard (listening g) seen (on has_driver x) c

abbrev pub queue : Net
queue = record { head = 0; tail = 0; rx = 0; descs = replicate 8 idle }

pub vic_init-Accesses : Accesses vic_init
unfolding vic_init
vic_init-Accesses b = (_, refl)

vic_exit-Accesses : Accesses vic_exit
unfolding vic_exit
vic_exit-Accesses b = (_, refl)

-- The handler of the driver is freed.
quiet_again :
    {v : View} {x : Parts} (g : Stage) (c : Card)
    → IsCard (freed_stage (listening g)) v x c
    → IsCard (quiet g) v x c
quiet_again {v} {x} g c i =
    subst (λ (n : ℕ). IsCard (record (quiet g) { stray_frees = n }) v x c) (omega arith) i

module _ (e : Env) (g : Stage) (third : HasGennum g) where
  pub irq_free-IsCard :
      {W : Type 0} (v : View) (x : Parts)
      → Triple W (IsCard (listening g) v x) (on_spec irq_free) (λ _. IsCard (quiet g) v x)
  irq_free-IsCard v x =
      Triple-post (λ _ c i. quiet_again g c i.1)
        (on_spec-IsCard (listening g) v x (λ _. Unit {0}) (λ _. freed_stage (listening g)) irq_free
          (Triple-post (λ _ s i. (tt, i)) (irq_free-IsAt e (listening g) third)))

  -- The end of the network part, from one in which the platform device is bound or not.
  unregister-IsCard :
      {W : Type 0} (v : View) (x : Parts) (b : Bool) (m : ℕ)
      → (b ≡ true → InUse m v)
      → Triple W
          (IsCard (listening g) v x)
          (unregister_platform b)
          (λ _. IsCard (listening g) (if b then removed v else v) (record x { bound = false }))
  unfolding unregister_platform
  unregister-IsCard v x true m u =
      let held = u refl in
      Triple-bind
        (on_pdev-IsCard (listening g) v x (λ _. removed v) wrn_remove
          (wrn_remove-Shows v held.there held.full held.dev held.wrdio))
        λ _. set_bound-IsCard (listening g) (removed v) x false
  unregister-IsCard v x false m u =
      Triple-bind (Keeps-pure tt) λ _. set_bound-IsCard (listening g) v x false

left_netdevs :
    (v : View) (b : Bool) (m : ℕ)
    → (b ≡ true → InUse m v)
    → m ≤ v.netdevs
    → v.netdevs ≤ m + 1
    → (m ≤ (if b then removed v else v).netdevs) × ((if b then removed v else v).netdevs ≤ m + 1)
left_netdevs v true m u lo hi = (omega (arith, (u refl).one_more), omega (arith, (u refl).one_more))
left_netdevs v false m u lo hi = (lo, hi)

-- The network part is gone; one net device may be lost.
pub record IsGone (g : Stage) (x : Parts) (m : ℕ) (c : Card) : Type 0 where
  pub left : ℕ
  pub at_least : m ≤ left
  pub at_most : left ≤ m + 1
  pub gone : IsOff g x left c

module _ (e : Env) (g : Stage) (third : HasGennum g) (x : Parts) (m : ℕ) where
  exit-Triple :
      {W : Type 0} (v : View) (b : Bool)
      → (b ≡ true → InUse m v)
      → m ≤ v.netdevs
      → v.netdevs ≤ m + 1
      → Triple W (IsCard (listening g) v (on b x)) eth_exit (λ _. IsGone g x m)
  unfolding eth_exit
  exit-Triple v b u lo hi =
      Triple-bind (on_vic-IsCard (listening g) v (on b x) vic_exit refl vic_exit-Accesses) λ _.
        Triple-bind (is_bound-IsCard (listening g) v (on b x)) λ b'. Triple-given λ same.
          let v' : View = if b' then removed v else v in
          let u' : b' ≡ true → InUse m v = λ yes. u (sym same ∙ yes) in
          let bounds = left_netdevs v b' m u' lo hi in
          Triple-bind (unregister-IsCard e g third v (on b x) b' m u') λ _.
            Triple-bind (give_back-IsCard (listening g) v' (record (on b x) { bound = false }) 4)
              λ _.
                Triple-bind
                  (set_mezzanine-IsCard (listening g) v'
                    (record (on b x) { bound = false; held = x.held + 4 - 4 }) false false)
                  λ _.
                    Triple-post
                      (λ _ c i. record {
                        left = v'.netdevs;
                        at_least = bounds.0;
                        at_most = bounds.1;
                        gone = record {
                          seen = v';
                          netdevs = refl;
                          card =
                              subst (λ n. IsCard (quiet g) v' (record (off x) { held = n }) c)
                                (omega arith) i;
                        };
                      })
                      (irq_free-IsCard e g third v' (record (on b x) {
                        mezzanine_data = false;
                        vic_base = false;
                        bound = false;
                        held = x.held + 4 - 4;
                      }))

  -- The end of the network part never faults once it was started, on a card whose third area is mapped. The
  -- handler is freed, the four blocks are given back, and at most one net device more is allocated than before the
  -- start.
  pub eth_exit-Triple : {W : Type 0} → Triple W (IsOn g x m) eth_exit (λ _. IsGone g x m)
  eth_exit-Triple = record {
    at = λ c i. (exit-Triple i.seen i.has_driver i.in_use i.at_least i.at_most).at c i.card;
  }
