-- ===== src/Carrier/Device/Made.antt =====
-- What `spec_fmc_create` and `spec_fmc_destroy` leave.
use mathlib.Core.Path.{subst}
use sbndaq_wr.Base.{
  List, ℕ, ◌+◌, ◌^◌, ◌<◌, ◌≤◌, ◌≡◌, refl, ap, Option, none, some, Bool, true, false, not, arith,
  pure, ◌>>◌, get_or, ◌==◌, ◌&&◌, when, stop, if◌then◌else◌,
}
use sbndaq_wr.Base.Triples.{
  returns, Triple, Keeps, Keeps-pure, Triple-bind, Triple-pure, Triple-post, Triple-given,
  Triple-if, Triple-weak,
}
use sbndaq_wr.Mmio.{Env}
use sbndaq_wr.Carrier.{SpecDev, free_handler}
use sbndaq_wr.Carrier.Stage.{
  Stage, IsAt, HasGennum, HasWindow, Ensures-if_true, window_at, get_spec-IsAt, free_handler-IsAt,
  on_fmc-IsAt, irq_exit-IsAt,
}
use sbndaq_wr.Carrier.Irq.{init_stage, received, irq_init-Triple}
use sbndaq_wr.Carrier.Device.{
  Errno, enomem, enodev, eio, other, errno_of, Kernel, set_golden, set_registered, new_fmc,
  drop_fmc, put_fmc, window_readl, check_golden, register_fmc, spec_fmc_create, spec_fmc_destroy,
}
use sbndaq_wr.Spec.Eeprom.{spec_i2c_init, spec_i2c_exit}
use sbndaq_wr.Spec.Eeprom.Returns.{spec_i2c_init-Fine, spec_i2c_exit-Fine}

-- No handler, and an FMC device that is registered or none at all.
abbrev pub settled : Stage → Bool → ℕ → ℕ → Stage
settled g there strays counted = record g {
  fmc_there = there;
  registered = there;
  handler = false;
  irq_registered = false;
  stray_frees = strays;
  irq_count = counted;
}

-- The same, with the FMC device that is being made.
abbrev making : Stage → ℕ → ℕ → Stage
making g strays counted = record (settled g false strays counted) { fmc_there = true }

-- The handlers that the test frees although the kernel has refused them.
abbrev pub refusals : Kernel → ℕ
refusals k = if k.testing && not k.requested then 1 else 0

abbrev pub succeeded : Option Errno → Bool
succeeded none = true
succeeded (some err) = false

-- The stage after the device was made or not.
pub record IsSettled (g : Stage) (k : Kernel) (strays : ℕ) (there : Bool) (s : SpecDev)
    : Type 0 where
  pub freed : ℕ
  pub counted : ℕ
  pub at_least : strays ≤ freed
  pub at_most : freed ≤ strays + refusals k
  pub lost : ℕ
  pub lost_least : g.lost_buffers ≤ lost
  pub lost_most : lost ≤ g.lost_buffers + 1
  pub stage_is : IsAt (record (settled g there freed counted) { lost_buffers = lost }) s

abbrev tested_strays : Bool → Bool → ℕ → ℕ
tested_strays testing requested n = if testing then (n + (if requested then 0 else 1)) else n

abbrev tested_count : Bool → Bool → ℕ → ℕ → ℕ
tested_count testing requested calls c = if testing then received requested calls else c

init_making :
    (testing requested : Bool) (calls : ℕ) (g : Stage) (n c : ℕ)
    → init_stage testing requested calls (making g n c)
      ≡ making g (tested_strays testing requested n) (tested_count testing requested calls c)
init_making false requested calls g n c = refl
init_making true false calls g n c = refl
init_making true true calls g n c = refl

strays_bounds :
    (testing requested : Bool) (n : ℕ)
    → (n ≤ tested_strays testing requested n)
      × (tested_strays testing requested n ≤ n + (if testing && not requested then 1 else 0))
strays_bounds false requested n = omega arith
strays_bounds true false n = omega arith
strays_bounds true true n = omega arith

abbrev buffers_of : Option (List ℕ) → ℕ
buffers_of o = elim o [ none ↦ 0 | some buf ↦ 1 ]

buffer_bounds : (o : Option (List ℕ)) → buffers_of o ≤ 1
buffer_bounds none = omega arith
buffer_bounds (some buf) = omega arith

module _ {W : Type 0} (g : Stage) where
  new_fmc-IsAt :
      (n c : ℕ) → Triple W (IsAt (settled g false n c)) new_fmc (λ _. IsAt (making g n c))
  unfolding new_fmc
  new_fmc-IsAt n c = record {
    at = λ s i. returns (record {
      is = ap (λ (x : Stage). record x { fmc_there = true; registered = false }) i.is;
    });
  }

  drop_fmc-IsAt :
      (n c : ℕ)
      → Triple W (IsAt (making g n c)) drop_fmc (λ _ s.
        (lost : ℕ) × (g.lost_buffers ≤ lost)
        × (lost ≤ g.lost_buffers + 1)
        × IsAt (record (settled g false n c) { lost_buffers = lost }) s)
  unfolding drop_fmc
  drop_fmc-IsAt n c = record {
    at = λ s i.
        let before = ap (λ (x : Stage). x.lost_buffers) i.is in
        let bounds = buffer_bounds s.fmc.eeprom in
        returns (
          s.lost_buffers + buffers_of s.fmc.eeprom,
          omega (arith, before),
          omega (arith, before, bounds),
          record {
            is =
                ap
                  (λ (x : Stage). record x {
                    fmc_there = false;
                    lost_buffers = s.lost_buffers + buffers_of s.fmc.eeprom;
                  })
                  i.is;
          },
        );
  }

  set_registered-IsAt :
      (b : Bool) → Triple W (IsAt g) (set_registered b) (λ _. IsAt (record g { registered = b }))
  unfolding set_registered
  set_registered-IsAt b = record {
    at = λ s i. returns (record { is = ap (λ (x : Stage). record x { registered = b }) i.is });
  }

  set_golden-IsAt : Keeps W (IsAt g) set_golden
  unfolding set_golden
  set_golden-IsAt = record { at = λ s i. returns (record { is = i.is }) }

  put_fmc-IsAt : Triple W (IsAt g) put_fmc (λ _. IsAt (record g { fmc_there = false }))
  unfolding put_fmc
  put_fmc-IsAt = record {
    at = λ s i. returns (record { is = ap (λ (x : Stage). record x { fmc_there = false }) i.is });
  }

module _ {W : Type 0} (e : Env) (k : Kernel) (g : Stage) (first : HasWindow g)
    (third : HasGennum g) where
  window_readl-IsAt : (n c off : ℕ) → Keeps W (IsAt (making g n c)) (window_readl e off)
  unfolding window_readl
  window_readl-IsAt n c off = record {
    at = λ s i.
        Ensures-if_true (get_or s.remap 0 false) _ _ (window_at (making g n c) s first i)
          (returns (record { is = i.is }));
  }

  check_golden-IsAt : (n c : ℕ) → Keeps W (IsAt (making g n c)) (check_golden e k)
  unfolding check_golden
  check_golden-IsAt n c = Triple-bind (window_readl-IsAt n c 0x100) λ magic.
      Triple-if (not (magic == 0x5344422d)) (λ _. Keeps-pure false)
        (λ _.
          Triple-if (not k.sdb_scanned) (λ _. Keeps-pure false)
            (λ _. Triple-bind (window_readl-IsAt n c 0x15c) λ vendor.
              Triple-if (not (vendor == 0x0000ce42)) (λ _. Keeps-pure false)
                (λ _.
                  Triple-bind (window_readl-IsAt n c 0x160)
                    λ device. Keeps-pure (device == 0xff07fc47))))

  failed :
      (n c freed counted : ℕ) (err : Errno)
      → n ≤ freed
      → freed ≤ n + refusals k
      → Triple W
          (IsAt (making g freed counted))
          (drop_fmc >> pure (some err))
          (λ r. IsSettled g k n (succeeded r))
  failed n c freed counted err lo hi = Triple-bind (drop_fmc-IsAt g freed counted) λ _.
      Triple-pure (some err) (λ s (lost, least, most, i). record {
        freed = freed;
        counted = counted;
        at_least = lo;
        at_most = hi;
        lost = lost;
        lost_least = least;
        lost_most = most;
        stage_is = i;
      })

  register_fmc-Triple :
      (n c : ℕ)
      → k.calls < 2 ^ 32
      → Triple W (IsAt (making g n c)) (register_fmc e k) (λ r. IsSettled g k n (succeeded r))
  unfolding register_fmc
  register_fmc-Triple n c small =
      let m = tested_strays k.testing k.requested n in
      let d = tested_count k.testing k.requested k.calls c in
      let bounds = strays_bounds k.testing k.requested n in
      Triple-bind
        (Triple-post
          (λ r s p. subst (λ x. IsAt x s) (init_making k.testing k.requested k.calls g n c) p.1)
          (irq_init-Triple e (making g n c) k.use_msi k.testing k.requested k.calls third refl
            small))
        λ tested.
          Triple-if (not tested) (λ _. failed n c m d eio bounds.0 bounds.1)
            (λ _.
              Triple-if k.registers
                (λ _. Triple-bind (set_registered-IsAt (making g m d) true) λ _.
                  Triple-pure none (λ s i. record {
                    freed = m;
                    counted = d;
                    at_least = bounds.0;
                    at_most = bounds.1;
                    lost = g.lost_buffers;
                    lost_least = omega arith;
                    lost_most = omega arith;
                    stage_is = i;
                  }))
                (λ _.
                  Triple-bind
                    (Triple-bind (irq_exit-IsAt (making g m d) third e) λ _. drop_fmc-IsAt g m d)
                    λ _. Triple-pure (some other) (λ s (lost, least, most, i). record {
                      freed = m;
                      counted = d;
                      at_least = bounds.0;
                      at_most = bounds.1;
                      lost = lost;
                      lost_least = least;
                      lost_most = most;
                      stage_is = i;
                    })))

  looked-Triple :
      (n c : ℕ)
      → k.calls < 2 ^ 32
      → (o : Option Errno)
      → Triple W
          (IsAt (making g n c))
          (elim o [ some err ↦ drop_fmc >> pure (some err) | none ↦ register_fmc e k ])
          (λ r. IsSettled g k n (succeeded r))
  looked-Triple n c small none = register_fmc-Triple n c small
  looked-Triple n c small (some err) = failed n c n c err (omega arith) (omega arith)

  -- From a card with both areas mapped, no FMC device and no handler, the making of the device ends, touches nothing through a
  -- null pointer, and leaves no handler. If it returns 0 the device is there and registered, and otherwise there is none.
  pub spec_fmc_create-Triple :
      (n c : ℕ)
      → k.calls < 2 ^ 32
      → Triple W
          (IsAt (settled g false n c))
          (spec_fmc_create e k)
          (λ r. IsSettled g k n (succeeded r))
  unfolding spec_fmc_create
  spec_fmc_create-Triple n c small =
      Triple-if (not k.fmc_memory)
        (λ _. Triple-pure (some enomem) (λ s i. record {
          freed = n;
          counted = c;
          at_least = omega arith;
          at_most = omega arith;
          lost = g.lost_buffers;
          lost_least = omega arith;
          lost_most = omega arith;
          stage_is = i;
        }))
        (λ _. Triple-bind (new_fmc-IsAt g n c) λ _. Triple-bind (check_golden-IsAt n c) λ checked.
          Triple-if checked
            (λ _. Triple-bind (set_golden-IsAt (making g n c)) λ _.
              Triple-bind
                (on_fmc-IsAt (making g n c)
                  (spec_i2c_init e k.eeprom_memory k.nr_eeprom k.eeprom_file) first
                  (Triple-weak (spec_i2c_init-Fine e k.eeprom_memory k.nr_eeprom k.eeprom_file)))
                λ r. looked-Triple n c small (errno_of r))
            (λ _. failed n c n c enodev (omega arith) (omega arith)))

  -- The handler that is left is freed, if there is one.
  clean_up-IsAt :
      (g0 : Stage) (b held : Bool)
      → b ≡ held
      → Triple W
          (IsAt (record g0 { handler = held; irq_registered = held }))
          (when b free_handler)
          (λ _. IsAt (record g0 { handler = false; irq_registered = false }))
  clean_up-IsAt g0 true true same =
      Triple-post
        (λ _ s i.
          subst
            (λ (m : ℕ).
              IsAt (record g0 { handler = false; irq_registered = false; stray_frees = m }) s)
            (omega arith) i)
        (free_handler-IsAt (record g0 { handler = true; irq_registered = true }))
  clean_up-IsAt g0 true false same = absurd (cc)
  clean_up-IsAt g0 false true same = absurd (cc)
  clean_up-IsAt g0 false false same = Keeps-pure tt

  -- With a device and a handler that is counted as such, if there is one, the destruction frees what is there.
  pub spec_fmc_destroy-Triple :
      (n c : ℕ) (held : Bool)
      → Triple W
          (IsAt (record (settled g true n c) { handler = held; irq_registered = held }))
          (spec_fmc_destroy e k)
          (λ _. IsAt (settled g false n c))
  unfolding spec_fmc_destroy
  spec_fmc_destroy-Triple n c held =
      let g0 : Stage = record (settled g true n c) { handler = held; irq_registered = held } in
      let g1 : Stage = record g0 { registered = false } in
      Triple-bind (get_spec-IsAt g0) λ x. Triple-given λ ix.
        Triple-bind
          (Triple-if x.fmc_there {m = pure tt} {n = stop} (λ _. Keeps-pure tt)
            (λ absent. absurd (cc (absent, ap (λ (y : Stage). y.fmc_there) ix.is))))
          λ _. Triple-bind (set_registered-IsAt g0 false) λ _.
            Triple-bind (irq_exit-IsAt g1 third e) λ _.
              Triple-bind
                (on_fmc-IsAt g1 (spec_i2c_exit e) first (Triple-weak (spec_i2c_exit-Fine e)))
                λ _. Triple-bind (get_spec-IsAt g1) λ y. Triple-given λ iy.
                  Triple-bind
                    (clean_up-IsAt (record (settled g true n c) { registered = false })
                      y.irq_registered held (ap (λ (z : Stage). z.irq_registered) iy.is))
                    λ _. put_fmc-IsAt (record g1 { handler = false; irq_registered = false })
