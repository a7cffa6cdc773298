-- ===== src/Core/Views.antt =====
-- What the proofs on the driver look at, and how each of its parts changes it.
use sbndaq_wr.Base.{
  ℕ, ◌+◌, ◌-◌, ◌≡◌, ap, ◌∙◌, Bool, true, Outcome, done, fault, waiting, ◌&&◌, replicate,
}
use sbndaq_wr.Base.Triples.{Ensures, returns, blocks, Triple, Keeps}
use sbndaq_wr.Mmio.{History}
use sbndaq_wr.Board.{B, Board}
use sbndaq_wr.Carrier.{C, SpecDev}
use sbndaq_wr.Carrier.Stage.{Stage, IsAt, Ensures-if_true}
use sbndaq_wr.Nic.Probe.{Pdev, D}
use sbndaq_wr.Nic.Probe.Views.{View, Shows}
use sbndaq_wr.Nic.Probe.Steps.{blank}
use sbndaq_wr.Core.{
  Card, on_spec, on_pdev, on_vic, board_of, hold, give_back, set_mezzanine, set_bound, is_bound,
  new_wrn, idle,
}

-- The rest of the card.
pub record Parts : Type 0 where
  pub mezzanine_data : Bool
  pub vic_base : Bool
  pub bound : Bool
  pub drvdata : Bool
  pub chip : Bool
  pub held : ℕ

abbrev pub parts : Card → Parts
parts c = record {
  mezzanine_data = c.mezzanine_data;
  vic_base = c.vic_base;
  bound = c.bound;
  drvdata = c.drvdata;
  chip = c.chip;
  held = c.held;
}

pub record IsCard (g : Stage) (v : View) (x : Parts) (c : Card) : Type 0 where
  pub spec_at : IsAt g c.spec
  pub pdev_at : Shows v c.pdev
  pub parts_at : parts c ≡ x

module _ {W A : Type 0} {g : Stage} {v : View} {x : Parts} (c : Card) (i : IsCard g v x c) where
  spec-Ensures :
      (F : A → Type 0) (g' : A → Stage) (o : Outcome SpecDev A)
      → Ensures W (λ a s. F a × IsAt (g' a) s) o
      → Ensures W
          (λ (a : A) c'. F a × IsCard (g' a) v x c')
          (elim o [ done a s ↦ done a (record c { spec = s }) | fault ↦ fault | waiting ↦ waiting ])
  spec-Ensures F g' (done a s) (returns h) =
      returns (h.0, record { spec_at = h.1; pdev_at = i.pdev_at; parts_at = i.parts_at })
  spec-Ensures F g' fault h = elim h [ ]
  spec-Ensures F g' waiting (blocks w) = blocks w

  pdev-Ensures :
      (v' : A → View) (o : Outcome Pdev A)
      → Ensures W (λ a. Shows (v' a)) o
      → Ensures W
          (λ (a : A). IsCard g (v' a) x)
          (elim o [ done a p ↦ done a (record c { pdev = p }) | fault ↦ fault | waiting ↦ waiting ])
  pdev-Ensures v' (done a p) (returns h) =
      returns (record { spec_at = i.spec_at; pdev_at = h; parts_at = i.parts_at })
  pdev-Ensures v' fault h = elim h [ ]
  pdev-Ensures v' waiting (blocks w) = blocks w

-- A program of the VIC that only accesses registers.
abbrev pub Accesses : B (Unit {0}) → Type 0
Accesses m = (b : Board) → (h : History) × (m b ≡ done tt (record b { history = h }))

module _ {W : Type 0} (g : Stage) (v : View) (x : Parts) where
  pub on_spec-IsCard :
      {A : Type 0} (F : A → Type 0) (g' : A → Stage) (m : C A)
      → Triple W (IsAt g) m (λ a s. F a × IsAt (g' a) s)
      → Triple W (IsCard g v x) (on_spec m) (λ a c. F a × IsCard (g' a) v x c)
  unfolding on_spec
  on_spec-IsCard F g' m t = record {
    at = λ c i. spec-Ensures c i F g' (m c.spec) (t.at c.spec i.spec_at);
  }

  pub on_pdev-IsCard :
      {A : Type 0} (v' : A → View) (m : D A)
      → Triple W (Shows v) m (λ a. Shows (v' a))
      → Triple W (IsCard g v x) (on_pdev m) (λ a. IsCard g (v' a) x)
  unfolding on_pdev
  on_pdev-IsCard v' m t = record {
    at = λ c i. pdev-Ensures c i v' (m c.pdev) (t.at c.pdev i.pdev_at);
  }

  pub on_vic-IsCard :
      (m : B (Unit {0}))
      → (x.mezzanine_data && x.vic_base) ≡ true
      → Accesses m
      → Keeps W (IsCard g v x) (on_vic m)
  unfolding on_vic
  on_vic-IsCard m there a = record {
    at = λ c i.
        Ensures-if_true (c.mezzanine_data && c.vic_base) _ fault
          (ap (λ (y : Parts). y.mezzanine_data && y.vic_base) i.parts_at ∙ there)
          (rw ((a (board_of c)).1) (
            returns (record {
              spec_at = record { is = i.spec_at.is };
              pdev_at = record { is = i.pdev_at.is };
              parts_at = i.parts_at;
            })));
  }

  pub hold-IsCard :
      (n : ℕ) → Triple W (IsCard g v x) (hold n) (λ _. IsCard g v (record x { held = x.held + n }))
  unfolding hold
  hold-IsCard n = record {
    at = λ c i. returns (record {
      spec_at = i.spec_at;
      pdev_at = i.pdev_at;
      parts_at = ap (λ (y : Parts). record y { held = y.held + n }) i.parts_at;
    });
  }

  pub give_back-IsCard :
      (n : ℕ)
      → Triple W (IsCard g v x) (give_back n) (λ _. IsCard g v (record x { held = x.held - n }))
  unfolding give_back
  give_back-IsCard n = record {
    at = λ c i. returns (record {
      spec_at = i.spec_at;
      pdev_at = i.pdev_at;
      parts_at = ap (λ (y : Parts). record y { held = y.held - n }) i.parts_at;
    });
  }

  pub set_mezzanine-IsCard :
      (there vic : Bool)
      → Triple W
          (IsCard g v x)
          (set_mezzanine there vic)
          (λ _. IsCard g v (record x { mezzanine_data = there; vic_base = vic }))
  unfolding set_mezzanine
  set_mezzanine-IsCard there vic = record {
    at = λ c i. returns (record {
      spec_at = i.spec_at;
      pdev_at = i.pdev_at;
      parts_at = ap (λ (y : Parts). record y { mezzanine_data = there; vic_base = vic }) i.parts_at;
    });
  }

  pub set_bound-IsCard :
      (b : Bool) → Triple W (IsCard g v x) (set_bound b) (λ _. IsCard g v (record x { bound = b }))
  unfolding set_bound
  set_bound-IsCard b = record {
    at = λ c i. returns (record {
      spec_at = i.spec_at;
      pdev_at = i.pdev_at;
      parts_at = ap (λ (y : Parts). record y { bound = b }) i.parts_at;
    });
  }

  pub is_bound-IsCard : Triple W (IsCard g v x) is_bound (λ b c. (b ≡ x.bound) × IsCard g v x c)
  unfolding is_bound
  is_bound-IsCard = record { at = λ c i. returns (ap (λ (y : Parts). y.bound) i.parts_at, i) }

  pub new_wrn-IsCard : Triple W (IsCard g v x) (new_wrn true) (λ _.
      IsCard g
        (blank v.netdevs (record { head = 0; tail = 0; rx = 0; descs = replicate 8 idle }) v.dio)
        x)
  unfolding new_wrn
  new_wrn-IsCard = record {
    at = λ c i. returns (record {
      spec_at = i.spec_at;
      pdev_at = record {
        is =
            ap
              (λ (y : View).
                blank y.netdevs (record { head = 0; tail = 0; rx = 0; descs = replicate 8 idle })
                  y.dio)
              i.pdev_at.is;
      };
      parts_at = i.parts_at;
    });
  }
