-- ===== src/Core/Fmc/Held.antt =====
-- What the driver holds of the kernel after its start for a mezzanine.
use sbndaq_wr.Base.{
  ℕ, ◌≡◌, ap, ◌⊎◌, inl, inr, length, Option, Bool, true, false, not, pure, ◌>>=◌, ◌>>◌, stop, ◌&&◌,
  if◌then◌else◌,
}
use sbndaq_wr.Base.Triples.{
  returns, Triple, Keeps, Triple-bind, Triple-pure, Triple-pre, Triple-post, Triple-given,
  Triple-if,
}
use sbndaq_wr.Mmio.{Env}
use sbndaq_wr.Carrier.{C}
use sbndaq_wr.Carrier.Stage.{Stage, IsAt, HasGennum, HasWindow}
use sbndaq_wr.Carrier.Pci.Stages.{IsWhole}
use sbndaq_wr.Nic.Probe.Views.{View}
use sbndaq_wr.Core.{Card, Services, on_spec, eth_init, resources_of}
use sbndaq_wr.Core.Views.{Parts, IsCard, on_spec-IsCard}
use sbndaq_wr.Core.Stop.{quiet, IsOff, IsOn}
use sbndaq_wr.Core.Start.{CanMap, Started, eth_init-Triple}
use sbndaq_wr.Core.Fmc.{
  BusReturn, bus_ok, bus_esrch, bus_error, Setup, FmcReturn, fmc_ok, fmc_enodev, fmc_enomem,
  fmc_other, set_drvdata, set_chip, free_managed, get_card, gpio_init, gpio_exit, needs_wrc,
  load_if, start_parts, after_reload, after_reprogram, fmc_probe,
}
use sbndaq_wr.Core.Fmc.Steps.{needs_wrc-IsAt, load_if-IsAt}

-- The parts of a card without the network part.
abbrev pub idle_parts : Bool → Bool → ℕ → Parts
idle_parts there chip n = record {
  mezzanine_data = false;
  vic_base = false;
  bound = false;
  drvdata = there;
  chip = chip;
  held = n;
}

-- Nothing is there of the driver but its data; or the pins and the network part are.
pub record IsDown (g : Stage) (n m : ℕ) (c : Card) : Type 0 where
  pub has_data : Bool
  pub is : IsOff g (idle_parts has_data false n) m c

abbrev pub IsUp : Stage → ℕ → ℕ → Card → Type 0
IsUp g n m = IsOn g (idle_parts true true n) m

abbrev pub Held : Stage → ℕ → ℕ → FmcReturn → Card → Type 0
Held g n m fmc_ok c = IsUp g n m c ⊎ IsDown g n m c
Held g n m fmc_enodev c = IsDown g n m c
Held g n m fmc_enomem c = IsDown g n m c
Held g n m fmc_other c = IsDown g n m c

module _ {W : Type 0} (g : Stage) (v : View) (x : Parts) where
  on_spec-Keeps : {A : Type 0} (m : C A) → Keeps W (IsAt g) m → Keeps W (IsCard g v x) (on_spec m)
  on_spec-Keeps m t =
      Triple-post (λ _ c i. i.1)
        (on_spec-IsCard g v x (λ _. Unit {0}) (λ _. g) m (Triple-post (λ _ s i. (tt, i)) t))

  get_card-IsCard : Triple W (IsCard g v x) get_card (λ c' c. IsCard g v x c' × IsCard g v x c)
  unfolding get_card
  get_card-IsCard = record { at = λ c i. returns (i, i) }

  free_managed-IsCard : Keeps W (IsCard g v x) free_managed
  unfolding free_managed
  free_managed-IsCard = record {
    at =
        λ c i. returns (record { spec_at = i.spec_at; pdev_at = i.pdev_at; parts_at = i.parts_at });
  }

  set_chip-IsCard :
      (b : Bool) → Triple W (IsCard g v x) (set_chip b) (λ _. IsCard g v (record x { chip = b }))
  unfolding set_chip
  set_chip-IsCard b = record {
    at = λ c i. returns (record {
      spec_at = i.spec_at;
      pdev_at = i.pdev_at;
      parts_at = ap (λ (y : Parts). record y { chip = b }) i.parts_at;
    });
  }

  set_drvdata-IsCard :
      Triple W
        (IsCard g v x)
        set_drvdata
        (λ _. IsCard g v (record x { drvdata = true; chip = false }))
  unfolding set_drvdata
  set_drvdata-IsCard = record {
    at = λ c i. returns (record {
      spec_at = i.spec_at;
      pdev_at = i.pdev_at;
      parts_at = ap (λ (y : Parts). record y { drvdata = true; chip = false }) i.parts_at;
    });
  }

module _ {W : Type 0} (g : Stage) (v : View) (n : ℕ) where
  gpio_init-IsCard :
      (t : Setup)
      → Triple W
          (IsCard g v (idle_parts true false n))
          (gpio_init t)
          (λ ok. IsCard g v (idle_parts true ok n))
  unfolding gpio_init
  gpio_init-IsCard t = Triple-bind (get_card-IsCard g v (idle_parts true false n)) λ c.
      Triple-given λ i.
        let there = ap (λ (y : Parts). y.drvdata) i.parts_at in
        Triple-if (not t.chip_memory) (λ _. Triple-pure false (λ c i. i))
          λ _.
            Triple-if (not t.chip_added)
              (λ _.
                Triple-bind (free_managed-IsCard g v (idle_parts true false n))
                  λ _. Triple-pure false (λ c i. i))
              λ _.
                Triple-if (not c.drvdata) {m = stop} (λ none. absurd (cc))
                  λ _.
                    Triple-bind (set_chip-IsCard g v (idle_parts true false n) true)
                      λ _. Triple-pure true (λ c i. i)

  gpio_exit-IsCard :
      Triple W
        (IsCard g v (idle_parts true true n))
        gpio_exit
        (λ _. IsCard g v (idle_parts true false n))
  unfolding gpio_exit
  gpio_exit-IsCard = Triple-bind (get_card-IsCard g v (idle_parts true true n)) λ c.
      Triple-given λ i.
        let there = ap (λ (y : Parts). y.drvdata && y.chip) i.parts_at in
        Triple-if (c.drvdata && c.chip) {n = stop}
          (λ _. set_chip-IsCard g v (idle_parts true true n) false) (λ none. absurd (cc))

module _ (e : Env) (k : Services) (t : Setup) (g : Stage) (third : HasGennum g)
    (first : HasWindow g) (n m : ℕ) (can : CanMap (resources_of k.cores)) (netdev : k.netdev ≡ true)
    (vic : k.vic ≡ true) (wrdio : k.wrdio ≡ true) (four : length k.memory ≡ 4) where
  gpio_exit-Held : Triple ⊥ (IsOff g (idle_parts true true n) m) gpio_exit (λ _. IsDown g n m)
  gpio_exit-Held = record {
    at = λ c i.
        (Triple-post
            (λ _ c' j. record {
              has_data = true;
              is = record { seen = i.seen; netdevs = i.netdevs; card = j };
            })
            (gpio_exit-IsCard (quiet g) i.seen n)).at
          c i.card;
  }

  after_eth :
      (ok : Bool)
      → Triple ⊥
          (Started g (idle_parts true true n) m ok)
          (if ok then pure fmc_ok else (gpio_exit >> pure fmc_other))
          (Held g n m)
  after_eth true = Triple-pure fmc_ok (λ c i. inl i)
  after_eth false = Triple-bind gpio_exit-Held λ _. Triple-pure fmc_other (λ c i. i)

  after_chip :
      (v : View)
      → v.netdevs ≡ m
      → (ok : Bool)
      → Triple ⊥
          (IsCard (quiet g) v (idle_parts true ok n))
          (if not ok
            then pure fmc_other
            else (eth_init e k >>= λ ok. if ok then pure fmc_ok else (gpio_exit >> pure fmc_other)))
          (Held g n m)
  after_chip v netdevs true =
      Triple-pre (λ c i. record { seen = v; netdevs = netdevs; card = i })
        (Triple-bind
          (eth_init-Triple e k g third (idle_parts true true n) m can netdev vic wrdio four)
          after_eth)
  after_chip v netdevs false =
      Triple-pure fmc_other
        (λ c i. record { has_data = true; is = record { seen = v; netdevs = netdevs; card = i } })

  start_parts-Held :
      (v : View)
      → v.netdevs ≡ m
      → Triple ⊥ (IsCard (quiet g) v (idle_parts true false n)) (start_parts e k t) (Held g n m)
  unfolding start_parts
  start_parts-Held v netdevs = Triple-bind (gpio_init-IsCard (quiet g) v n t) (after_chip v netdevs)

  down :
      {has_data : Bool} (v : View)
      → v.netdevs ≡ m
      → (r : FmcReturn) → ((c : Card) → IsDown g n m c → Held g n m r c)
      → Triple ⊥ (IsCard (quiet g) v (idle_parts has_data false n)) (pure r) (Held g n m)
  down {has_data} v netdevs r h = Triple-pure r (λ c i.
      h c (record { has_data = has_data; is = record { seen = v; netdevs = netdevs; card = i } }))

  after_reload-Held :
      (v : View)
      → v.netdevs ≡ m
      → (r : Bool × Bool)
      → Triple ⊥ (IsCard (quiet g) v (idle_parts true false n)) (after_reload e k t r) (Held g n m)
  unfolding after_reload
  after_reload-Held v netdevs (good, true) = start_parts-Held v netdevs
  after_reload-Held v netdevs (true, false) = down v netdevs fmc_ok (λ c i. inr i)
  after_reload-Held v netdevs (false, false) = down v netdevs fmc_other (λ c i. i)

  module _ (whole : (name : Option ℕ) → IsWhole (t.wrc_files name)) where
    after_reprogram-Held :
        (v : View)
        → v.netdevs ≡ m
        → (r : BusReturn)
        → Triple ⊥
            (IsCard (quiet g) v (idle_parts true false n))
            (after_reprogram e k t r)
            (Held g n m)
    unfolding after_reprogram
    after_reprogram-Held v netdevs bus_esrch = down v netdevs fmc_enodev (λ c i. i)
    after_reprogram-Held v netdevs bus_error = down v netdevs fmc_other (λ c i. i)
    after_reprogram-Held v netdevs bus_ok =
        Triple-bind
          (on_spec-Keeps (quiet g) v (idle_parts true false n) (needs_wrc e k t t.ram)
            (needs_wrc-IsAt (quiet g) first e k t whole t.ram))
          λ need.
            Triple-bind
              (on_spec-Keeps (quiet g) v (idle_parts true false n)
                (load_if e k t need t.ram t.syscon)
                (load_if-IsAt (quiet g) first e k t whole need t.ram t.syscon))
              λ r. after_reload-Held v netdevs r

    probe-Held :
        (v : View) (there : Bool)
        → v.netdevs ≡ m
        → Keeps ⊥ (IsAt (quiet g)) t.reprogram
        → Triple ⊥ (IsCard (quiet g) v (idle_parts there false n)) (fmc_probe e k t) (Held g n m)
    unfolding fmc_probe
    probe-Held v there netdevs keeps =
        Triple-if (not t.valid) (λ _. down v netdevs fmc_enodev (λ c i. i))
          λ _.
            Triple-if (not t.driver_memory) (λ _. down v netdevs fmc_enomem (λ c i. i))
              λ _. Triple-bind (set_drvdata-IsCard (quiet g) v (idle_parts there false n)) λ _.
                Triple-bind (on_spec-Keeps (quiet g) v (idle_parts true false n) t.reprogram keeps)
                  λ r. after_reprogram-Held v netdevs r

    -- On a card whose first and third areas are mapped, the start of the driver for a mezzanine always returns, if
    -- the call of the bus that loads the FPGA returns and keeps what the carrier holds, the files are whole words,
    -- the resources can be mapped, there is memory for the net device, and the VIC and WR-DIO are in the tree of SDB. After an
    -- error neither the pins nor the network part are there, no handler is registered, and no more memory is held
    -- and no more net devices are allocated than before; if it returns 0 both parts are there with all that they
    -- hold, or neither is, as after an error.
    pub fmc_probe-Triple :
        Keeps ⊥ (IsAt (quiet g)) t.reprogram
        → Triple ⊥ (IsDown g n m) (fmc_probe e k t) (Held g n m)
    fmc_probe-Triple keeps = record {
      at = λ c i. (probe-Held i.is.seen i.has_data i.is.netdevs keeps).at c i.is.card;
    }
