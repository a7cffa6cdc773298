-- ===== src/Core/Start.antt =====
-- What the network part takes of the kernel when it starts, and what is left of it after its end.
use mathlib.Core.Path.{subst}
use sbndaq_wr.Base.{
  ℕ, ◌+◌, ◌-◌, ◌≡◌, refl, sym, ◌∙◌, List, [], ◌∷◌, Option, none, some, Bool, true, false, not,
  arith, replicate, ◌>>=◌, when, length,
}
use sbndaq_wr.Base.Triples.{
  Triple, Keeps, Triple-bind, Triple-pure, Triple-pre, Triple-post, Triple-given, Triple-if,
  Triple-when, Ensures-weaken,
}
use sbndaq_wr.Mmio.{Env}
use sbndaq_wr.Board.{vic_init}
use sbndaq_wr.Carrier.{irq_request}
use sbndaq_wr.Carrier.Stage.{Stage, HasGennum}
use sbndaq_wr.Carrier.Irq.{requested_stage, irq_request-IsAt}
use sbndaq_wr.Carrier.Gpio.{place_by, map_pin, gpio_config}
use sbndaq_wr.Carrier.Gpio.Mapped.{IsConfigured, AllShiftable, gpio_config-Triple}
use sbndaq_wr.Nic.Probe.{Resource, region, ProbeReturn, ready, enomem, enodev, other, wrn_probe}
use sbndaq_wr.Nic.Probe.Views.{Net, Mezzanine, View}
use sbndaq_wr.Nic.Probe.Steps.{blank, left_by, wrn_probe-Shows}
use sbndaq_wr.Core.{
  Card, Services, on_pdev, on_vic, count_true, all_true, set_bound, is_ready, new_wrn, resources_of,
  wrn_gpio_cfg, register_platform, out_mem, start_platform, eth_init, eth_exit,
}
use sbndaq_wr.Core.Views.{
  Parts, IsCard, on_spec-IsCard, on_pdev-IsCard, on_vic-IsCard, hold-IsCard, give_back-IsCard,
  set_mezzanine-IsCard, set_bound-IsCard, new_wrn-IsCard,
}
use sbndaq_wr.Core.Stop.{
  quiet, listening, off, on, IsOff, InUse, IsOn, queue, vic_init-Accesses, irq_free-IsCard, IsGone,
  eth_exit-Triple,
}

-- All four resources can be mapped, if they are in the tree of SDB.
abbrev pub CanMap : Option (List Resource) → Type 0
CanMap none = Unit
CanMap (some rs) = rs ≡ replicate 4 (region true)

-- What the start leaves: it succeeds, or nothing is held.
abbrev pub Started : Stage → Parts → ℕ → Bool → Card → Type 0
Started g x m true = IsOn g x m
Started g x m false = IsOff g x m

probed-InUse :
    (r : ProbeReturn) (b : Bool) (m : ℕ) (q : Net) (d : Mezzanine)
    → is_ready r ≡ true
    → InUse m (left_by r b m q d)
probed-InUse ready b m q d h = record {
  wrdio = refl;
  there = refl;
  full = refl;
  dev = refl;
  one_more = refl;
}
probed-InUse enomem b m q d h = absurd (cc)
probed-InUse enodev b m q d h = absurd (cc)
probed-InUse other b m q d h = absurd (cc)

probed-netdevs :
    (r : ProbeReturn) (b : Bool) (m : ℕ) (q : Net) (d : Mezzanine)
    → (left_by r b m q d).netdevs ≡ m + 1
probed-netdevs ready b m q d = refl
probed-netdevs enomem b m q d = refl
probed-netdevs enodev b m q d = refl
probed-netdevs other b m q d = refl

module _ (e : Env) (k : Services) (g : Stage) (third : HasGennum g) (x : Parts) (m : ℕ) where
  -- The platform device, before its driver is bound.
  abbrev fresh : Mezzanine → View
  fresh d = blank m queue d

  probe-IsOn :
      {W : Type 0} (d : Mezzanine)
      → Triple W
          (IsCard (listening g) (fresh d) (on false x))
          (on_pdev (wrn_probe e (replicate 4 (region true)) true k.registered k.mezzanine) >>= λ r.
            set_bound (is_ready r))
          (λ _. IsOn g x m)
  probe-IsOn d =
      Triple-bind
        (on_pdev-IsCard (listening g) (fresh d) (on false x) (λ r. left_by r k.mezzanine m queue d)
          (wrn_probe e (replicate 4 (region true)) true k.registered k.mezzanine)
          (wrn_probe-Shows m queue d e k.registered k.mezzanine))
        λ r.
          Triple-post
            (λ _ c i. record {
              seen = left_by r k.mezzanine m queue d;
              has_driver = is_ready r;
              in_use = probed-InUse r k.mezzanine m queue d;
              at_least = omega (arith, probed-netdevs r k.mezzanine m queue d);
              at_most = omega (arith, probed-netdevs r k.mezzanine m queue d);
              card = i;
            })
            (set_bound-IsCard (listening g) (left_by r k.mezzanine m queue d) (on false x)
              (is_ready r))

  register-IsOn :
      {W : Type 0} (d : Mezzanine)
      → k.netdev ≡ true
      → Triple W
          (IsCard (listening g) (fresh d) (on false x))
          (register_platform e k (replicate 4 (region true)))
          (λ _. IsOn g x m)
  unfolding register_platform
  register-IsOn d netdev = rw netdev (
      Triple-when k.driver (λ _. probe-IsOn d)
        λ _ c i. record {
          seen = fresh d;
          has_driver = false;
          in_use = λ no_driver. absurd (cc);
          at_least = omega arith;
          at_most = omega arith;
          card = i;
        })

  vic_init-IsOn : {W : Type 0} → Keeps W (IsOn g x m) (on_vic vic_init)
  vic_init-IsOn = record {
    at = λ c i.
        Ensures-weaken
          (λ _ c' j. record {
            seen = i.seen;
            has_driver = i.has_driver;
            in_use = i.in_use;
            at_least = i.at_least;
            at_most = i.at_most;
            card = j;
          })
          ((on_vic-IsCard (listening g) i.seen (on i.has_driver x) vic_init refl
              vic_init-Accesses).at
            c i.card);
  }

  out_mem-Triple :
      {W : Type 0} (v : View)
      → v.netdevs ≡ m
      → Triple W
          (IsCard (listening g) v (record (off x) { held = x.held + count_true k.memory }))
          (out_mem e k)
          (Started g x m)
  unfolding out_mem
  out_mem-Triple v netdevs =
      let left : Parts = record (off x) {
        held = x.held + count_true k.memory - count_true k.memory;
      } in
      Triple-bind
        (give_back-IsCard (listening g) v (record (off x) { held = x.held + count_true k.memory })
          (count_true k.memory))
        λ _. Triple-bind (irq_free-IsCard e g third v left) λ _. Triple-pure false (λ c i. record {
          seen = v;
          netdevs = netdevs;
          card = subst (λ n. IsCard (quiet g) v (record (off x) { held = n }) c) (omega arith) i;
        })

  start_platform-Triple :
      {W : Type 0} (d : Mezzanine) (o : Option (List Resource))
      → CanMap o
      → k.netdev ≡ true
      → k.vic ≡ true
      → count_true k.memory ≡ 4
      → Triple W
          (IsCard (listening g) (fresh d) (record (off x) { held = x.held + count_true k.memory }))
          (start_platform e k o)
          (Started g x m)
  unfolding start_platform
  start_platform-Triple {W} d none can netdev vic four = out_mem-Triple (fresh d) refl
  start_platform-Triple {W} d (some rs) can netdev vic four =
      Triple-bind
        (set_mezzanine-IsCard (listening g) (fresh d)
          (record (off x) { held = x.held + count_true k.memory }) true k.vic)
        λ _.
          Triple-pre
            (λ c i.
              subst
                (λ n. IsCard (listening g) (fresh d) (record (on false x) { held = x.held + n }) c)
                four
                (subst
                  (λ b.
                    IsCard (listening g) (fresh d)
                      (record (on false x) { vic_base = b; held = x.held + count_true k.memory }) c)
                  vic i))
            (Triple-bind
              (subst
                (λ y.
                  Triple W (IsCard (listening g) (fresh d) (on false x)) (register_platform e k y)
                    (λ _. IsOn g x m))
                (sym can) (register-IsOn d netdev))
              λ _. Triple-bind vic_init-IsOn λ _. Triple-pure true (λ c i. i))

-- The pin of the driver is mapped to number 9.
gpio_cfg-AllShiftable : AllShiftable wrn_gpio_cfg
unfolding place_by map_pin
gpio_cfg-AllShiftable = (omega arith, tt)

not-true : {b c : Bool} → b ≡ c → not b ≡ true → c ≡ false
not-true {b = true} e h = absurd (cc)
not-true {b = false} e h = sym e

not-false : {b c : Bool} → b ≡ c → not b ≡ false → c ≡ true
not-false {b = true} e h = sym e
not-false {b = false} e h = absurd (cc)

count_all : (bs : List Bool) → all_true bs ≡ true → count_true bs ≡ length bs
count_all [] h = refl
count_all (true ∷ bs) h = omega (arith, count_all bs h)
count_all (false ∷ bs) h = absurd (cc)

module _ (e : Env) (k : Services) (g : Stage) (third : HasGennum g) (x : Parts) (m : ℕ)
    (can : CanMap (resources_of k.cores)) (netdev : k.netdev ≡ true) (vic : k.vic ≡ true)
    (wrdio : k.wrdio ≡ true) (four : length k.memory ≡ 4) where
  granted :
      {v : View} {y : Parts} (c : Card) (b : Bool)
      → k.requested ≡ b
      → IsCard (requested_stage k.requested (quiet g)) v y c
      → IsCard (requested_stage b (quiet g)) v y c
  granted {v} {y} c b h i = subst (λ b. IsCard (requested_stage b (quiet g)) v y c) h i

  known_wrn :
      {W : Type 0} (v : View) (y : Parts)
      → Triple W
          (IsCard (listening g) v y)
          (new_wrn k.wrdio)
          (λ _. IsCard (listening g) (blank v.netdevs queue v.dio) y)
  known_wrn {W} v y =
      subst
        (λ b.
          Triple W (IsCard (listening g) v y) (new_wrn b)
            (λ _. IsCard (listening g) (blank v.netdevs queue v.dio) y))
        (sym wrdio) (new_wrn-IsCard (listening g) v y)

  start-Triple :
      {W : Type 0} (v : View)
      → v.netdevs ≡ m
      → Triple W (IsCard (quiet g) v (off x)) (eth_init e k) (Started g x m)
  unfolding eth_init
  start-Triple v netdevs =
      let counted : Parts = record (off x) { held = x.held + count_true k.memory } in
      Triple-bind
        (on_spec-IsCard (quiet g) v (off x) (λ r. r ≡ k.requested)
          (λ _. requested_stage k.requested (quiet g)) (irq_request e k.use_msi k.requested)
          (irq_request-IsAt e (quiet g) k.use_msi k.requested third))
        λ r. Triple-given λ same.
          Triple-if (not r)
            (λ refused. Triple-pure false (λ c i. record {
              seen = v;
              netdevs = netdevs;
              card = granted c false (not-true same refused) i;
            }))
            λ accepted.
              Triple-pre (λ c i. granted c true (not-false same accepted) i)
                (Triple-bind
                  (on_spec-IsCard (listening g) v (off x) (IsConfigured (length wrn_gpio_cfg))
                    (λ _. listening g) (gpio_config e wrn_gpio_cfg)
                    (gpio_config-Triple e (listening g) third wrn_gpio_cfg gpio_cfg-AllShiftable))
                  λ _. Triple-given λ _.
                    Triple-bind (hold-IsCard (listening g) v (off x) (count_true k.memory)) λ _.
                      Triple-if (not (all_true k.memory))
                        (λ _. out_mem-Triple e k g third x m v netdevs)
                        λ all. Triple-bind (known_wrn v counted) λ _.
                          Triple-pre
                            (λ c i.
                              subst (λ n. IsCard (listening g) (blank n queue v.dio) counted c)
                                netdevs i)
                            (start_platform-Triple e k g third x m v.dio (resources_of k.cores) can
                              netdev vic (count_all k.memory (not-false refl all) ∙ four)))

  -- On a card whose third area is mapped, the start of the network part always returns, for resources that can be
  -- mapped, memory for the net device, and a VIC and a WR-DIO in the tree of SDB. After an error no handler is registered, and
  -- no more memory is held and no more net devices are allocated than before; after success the handler is there
  -- with four blocks more, and a platform device that is bound has its blocks mapped and one net device more.
  pub eth_init-Triple : Triple ⊥ (IsOff g x m) (eth_init e k) (Started g x m)
  eth_init-Triple = record { at = λ c i. (start-Triple i.seen i.netdevs).at c i.card }

  ended-Triple : (ok : Bool) → Triple ⊥ (Started g x m ok) (when ok eth_exit) (λ _. IsGone g x m)
  ended-Triple true = eth_exit-Triple e g third x m
  ended-Triple false =
      Triple-pure tt
        (λ c i. record { left = m; at_least = omega arith; at_most = omega arith; gone = i })

  -- On a card whose third area is mapped, for resources that can be mapped, memory for the net device, and a VIC and a
  -- WR-DIO in the tree of SDB: the start and the end of the network part together, whatever the start's result is, leave no
  -- handler registered, all memory that was taken given back, and at most one net device more allocated than
  -- before.
  pub init_exit :
      Triple ⊥ (IsOff g x m) (eth_init e k >>= λ ok. when ok eth_exit) (λ _. IsGone g x m)
  init_exit = Triple-bind eth_init-Triple ended-Triple
