-- ===== src/Nic/Probe/Steps.antt =====
-- The probing step by step, on what its proofs look at.
use mathlib.Core.Path.{subst}
use sbndaq_wr.Base.{
  ℕ, zero, suc, ◌+◌, ◌-◌, ◌≡◌, refl, sym, ap, List, [], ◌∷◌, Bool, true, false, not, pure, ◌>>◌,
  when, replicate, bit_or, ◌*◌, ◌^◌, ◌==◌,
}
use sbndaq_wr.Base.Triples.{
  returns, Triple, Keeps, Keeps-pure, Triple-bind, Triple-pure, Triple-given, Triple-if,
  Triple-post, Triple-when,
}
use sbndaq_wr.Mmio.{Addr, Env}
use sbndaq_wr.Dio.Ioctl.{fresh_channel, mezzanine_init}
use sbndaq_wr.Nic.State.{writel, rx1, rx3, tx1, eic_ier, desc_offset, ddir_rx}
use sbndaq_wr.Nic.Stamps.{tstamp_init}
use sbndaq_wr.Nic.Endpoint.{
  Endpoint, Registered, registered_ok, register_enodev, register_other, Probed, probed,
  probe_enodev, probe_eio, probe_other, endpoint_probe, endpoint_remove, idcode_reg, mach_reg,
  macl_reg, mac_of, ep_readl, endpoint_shutdown, store_mac, set_registered,
}
use sbndaq_wr.Nic.Probe.{
  region, unmap_bases, map_resources, remove_netdev, wrn_remove, clear_tx, prepare_rx,
  reset_positions, start_nic, after_endpoint, ProbeReturn, ready, enomem, enodev, other, give_up,
  probe_endpoint, wrn_probe, fb_nic, fb_ts, cr_reg,
}
use sbndaq_wr.Nic.Probe.Views.{
  Net, Mezzanine, View, Shows, ShowsNet, ShowsDio, on_nic-Shows, on_endpoint-Shows,
  on_mezzanine-Shows, set_dev-Shows, set_shortcuts-Shows, alloc_netdev-Shows, set_base-Shows,
  unmap_bases-Shows, get_pdev-Shows,
}

-- The programs of the network card keep its queue, but for `reset_positions`.
module _ {W : Type 0} (q : Net) where
  pub writel-ShowsNet : (x : ℕ) (a : Addr) → Keeps W (ShowsNet q) (writel x a)
  writel-ShowsNet x a = record { at = λ w i. returns (record { is = i.is }) }

  clear_tx-ShowsNet : (rounds i : ℕ) → Keeps W (ShowsNet q) (clear_tx rounds i)
  unfolding clear_tx
  clear_tx-ShowsNet zero i = Keeps-pure tt
  clear_tx-ShowsNet (suc rounds) i =
      Triple-bind (writel-ShowsNet 0 (tx1 i)) λ _. clear_tx-ShowsNet rounds (i + 1)

  prepare_rx-ShowsNet : (rounds i : ℕ) → Keeps W (ShowsNet q) (prepare_rx rounds i)
  unfolding prepare_rx
  prepare_rx-ShowsNet zero i = Keeps-pure tt
  prepare_rx-ShowsNet (suc rounds) i =
      Triple-bind (writel-ShowsNet (bit_or (2000 * 2 ^ 16) (desc_offset ddir_rx i)) (rx3 i))
        λ _. Triple-bind (writel-ShowsNet (2 ^ 0) (rx1 i)) λ _. prepare_rx-ShowsNet rounds (i + 1)

  tstamp_init-ShowsNet : Keeps W (ShowsNet q) tstamp_init
  unfolding tstamp_init
  tstamp_init-ShowsNet = record { at = λ w i. returns (record { is = i.is }) }

  reset_positions-ShowsNet :
      Triple W
        (ShowsNet q)
        reset_positions
        (λ _. ShowsNet (record q { head = 0; tail = 0; rx = 0 }))
  unfolding reset_positions
  reset_positions-ShowsNet = record {
    at = λ w i.
        returns (record { is = ap (λ (x : Net). record x { head = 0; tail = 0; rx = 0 }) i.is });
  }

abbrev pub with_memory : Bool → Mezzanine → Mezzanine
with_memory true m = record m { channels = replicate 5 fresh_channel; lock = false }
with_memory false m = m

mezzanine_init-ShowsDio :
    {W : Type 0} (m : Mezzanine) (b : Bool)
    → Triple W (ShowsDio m) (mezzanine_init b) (λ _. ShowsDio (with_memory b m))
unfolding mezzanine_init
mezzanine_init-ShowsDio m true = record {
  at = λ d i. returns (record {
    is =
        ap (λ (x : Mezzanine). record x { channels = replicate 5 fresh_channel; lock = false })
          i.is;
  });
}
mezzanine_init-ShowsDio m false = record { at = λ d i. returns i }

-- The endpoint's programs always end.
abbrev Any : Endpoint → Type 0
Any s = Unit

module _ {W : Type 0} where
  ep_readl-Ends : (e : Env) (a : Addr) → Keeps W Any (ep_readl e a)
  ep_readl-Ends e a = record { at = λ s i. returns tt }

  set_registered-Ends : (b : Bool) → Keeps W Any (set_registered b)
  unfolding set_registered
  set_registered-Ends b = record { at = λ s i. returns tt }

  store_mac-Ends : (addr : List ℕ) → Keeps W Any (store_mac addr)
  unfolding store_mac
  store_mac-Ends addr = record { at = λ s i. returns tt }

  endpoint_shutdown-Ends : Keeps W Any endpoint_shutdown
  unfolding endpoint_shutdown
  endpoint_shutdown-Ends = record { at = λ s i. returns tt }

  shut-Ends : (p : Probed) → Keeps W Any (endpoint_shutdown >> pure p)
  shut-Ends p = Triple-bind endpoint_shutdown-Ends λ _. Keeps-pure p

  endpoint_probe-Ends : (e : Env) (r : Registered) → Keeps W Any (endpoint_probe e r)
  unfolding endpoint_probe
  endpoint_probe-Ends e registered_ok = Triple-bind (ep_readl-Ends e idcode_reg) λ val.
      Triple-if (not (val == 0xcafebabe)) (λ _. Keeps-pure probe_enodev)
        λ _. Triple-bind (set_registered-Ends true) λ _.
          Triple-bind (ep_readl-Ends e mach_reg) λ high.
            Triple-bind (ep_readl-Ends e macl_reg)
              λ low. Triple-bind (store_mac-Ends (mac_of high low)) λ _. Keeps-pure probed
  endpoint_probe-Ends e register_enodev = Triple-bind (ep_readl-Ends e idcode_reg) λ val.
      Triple-if (not (val == 0xcafebabe)) (λ _. Keeps-pure probe_enodev) λ _. shut-Ends probe_eio
  endpoint_probe-Ends e register_other = Triple-bind (ep_readl-Ends e idcode_reg) λ val.
      Triple-if (not (val == 0xcafebabe)) (λ _. Keeps-pure probe_enodev) λ _. shut-Ends probe_other

  pub endpoint_remove-Ends : Keeps W Any endpoint_remove
  unfolding endpoint_remove
  endpoint_remove-Ends = Triple-bind (set_registered-Ends false) λ _. endpoint_shutdown-Ends

-- What the probing starts from, and what it leaves.
abbrev pub blank : ℕ → Net → Mezzanine → View
blank n q m = record {
  wrdio = true;
  bases = replicate 4 false;
  shortcuts = false;
  dev = false;
  netdevs = n;
  queue = q;
  dio = m;
}

abbrev pub mapped : ℕ → Net → Mezzanine → View
mapped n q m = record (blank n q m) { bases = replicate 4 true; shortcuts = true }

abbrev pub at_zero : Net → Net
at_zero q = record q { head = 0; tail = 0; rx = 0 }

abbrev pub left_by : ProbeReturn → Bool → ℕ → Net → Mezzanine → View
left_by ready b n q m = record (mapped (n + 1) (at_zero q) (with_memory b m)) { dev = true }
left_by enodev b n q m = mapped (n + 1) q m
left_by enomem b n q m = record (mapped (n + 1) q m) { bases = replicate 4 false }
left_by other b n q m = record (mapped (n + 1) q m) { bases = replicate 4 false }

module _ {W : Type 0} (n : ℕ) (q : Net) (m : Mezzanine) where
  wrn_remove-Shows :
      Triple W
        (Shows (mapped n q m))
        wrn_remove
        (λ _. Shows (record (mapped n q m) { bases = replicate 4 false }))
  unfolding wrn_remove
  wrn_remove-Shows =
      Triple-bind
        (on_nic-Shows (mapped n q m) fb_nic (writel 0 cr_reg) q refl (writel-ShowsNet q 0 cr_reg))
        λ _.
          Triple-bind {f = λ p. when p.dev remove_netdev >> unmap_bases}
            (get_pdev-Shows (mapped n q m))
            λ p. Triple-given λ i.
              let no_dev = ap (λ (x : View). x.dev) i.is in
              Triple-bind
                (Triple-when p.dev {m = remove_netdev} (λ d. absurd (cc)) (λ _ _ shown. shown))
                λ _. unmap_bases-Shows (mapped n q m)

  give_up-Shows :
      (r : ProbeReturn)
      → Triple W
          (Shows (mapped n q m))
          (give_up r)
          (λ r' p. (r' ≡ r) × Shows (record (mapped n q m) { bases = replicate 4 false }) p)
  unfolding give_up
  give_up-Shows r = Triple-bind wrn_remove-Shows λ _. Triple-pure r (λ p i. (refl, i))

  start_nic-Shows :
      (x : Mezzanine)
      → let v : View = record (mapped n q x) { dev = true } in
        Triple W (Shows v) start_nic (λ _. Shows (record v { queue = at_zero q }))
  unfolding start_nic
  start_nic-Shows x =
      let v : View = record (mapped n q x) { dev = true } in
      let z : View = record v { queue = at_zero q } in
      Triple-bind (on_nic-Shows v fb_nic (clear_tx 8 0) q refl (clear_tx-ShowsNet q 8 0)) λ _.
        Triple-bind (on_nic-Shows v fb_nic (prepare_rx 8 0) q refl (prepare_rx-ShowsNet q 8 0)) λ _.
          Triple-bind
            (on_nic-Shows v fb_nic reset_positions (at_zero q) refl (reset_positions-ShowsNet q))
            λ _.
              Triple-bind
                (on_nic-Shows z fb_nic (writel 3 cr_reg) (at_zero q) refl
                  (writel-ShowsNet (at_zero q) 3 cr_reg))
                λ _.
                  Triple-bind
                    (on_nic-Shows z fb_nic (writel (2 ^ 32 - 1) eic_ier) (at_zero q) refl
                      (writel-ShowsNet (at_zero q) (2 ^ 32 - 1) eic_ier))
                    λ _.
                      on_nic-Shows z fb_ts tstamp_init (at_zero q) refl
                        (tstamp_init-ShowsNet (at_zero q))

module _ {W : Type 0} (n : ℕ) (q : Net) (m : Mezzanine) where
  all_mapped-Shows :
      Triple W
        (Shows (blank n q m))
        (map_resources 0 (replicate 4 (region true)))
        (λ ok p. (ok ≡ true) × Shows (record (mapped n q m) { shortcuts = false }) p)
  unfolding map_resources
  all_mapped-Shows =
      let v : View = blank n q m in
      Triple-bind (set_base-Shows v 0) λ _.
        Triple-bind (set_base-Shows (record v { bases = true ∷ false ∷ false ∷ false ∷ [] }) 1) λ _.
          Triple-bind (set_base-Shows (record v { bases = true ∷ true ∷ false ∷ false ∷ [] }) 2)
            λ _.
              Triple-bind (set_base-Shows (record v { bases = true ∷ true ∷ true ∷ false ∷ [] }) 3)
                λ _. Triple-pure true (λ p i. (refl, i))

  gives_up-Shows :
      (b : Bool)
      → Triple W (Shows (mapped (n + 1) q m)) (give_up other) (λ r. Shows (left_by r b n q m))
  gives_up-Shows b =
      Triple-post (λ r p i. subst (λ x. Shows (left_by x b n q m) p) (sym i.0) i.1)
        (give_up-Shows (n + 1) q m other)

  after_endpoint-Shows :
      (b : Bool) (p : Probed)
      → Triple W (Shows (mapped (n + 1) q m)) (after_endpoint b p) (λ r. Shows (left_by r b n q m))
  unfolding after_endpoint
  after_endpoint-Shows b probed =
      let v : View = mapped (n + 1) q m in
      Triple-bind (set_dev-Shows v true) λ _.
        Triple-bind
          (on_mezzanine-Shows (record v { dev = true }) b (mezzanine_init b) (with_memory b m) refl
            (mezzanine_init-ShowsDio m b))
          λ _.
            Triple-bind (start_nic-Shows (n + 1) q m (with_memory b m))
              λ _. Triple-pure ready (λ p i. i)
  after_endpoint-Shows b probe_enodev = Triple-pure enodev (λ p i. i)
  after_endpoint-Shows b probe_eio = gives_up-Shows b
  after_endpoint-Shows b probe_other = gives_up-Shows b

  probe_endpoint-Shows :
      (e : Env) (r : Registered) (b : Bool)
      → let v : View = mapped n q m in
        Triple W (Shows v) (probe_endpoint e true r b) (λ r'. Shows (left_by r' b n q m))
  unfolding probe_endpoint
  probe_endpoint-Shows e r b = Triple-bind (alloc_netdev-Shows (mapped n q m)) λ _.
      Triple-bind
        (on_endpoint-Shows (mapped (n + 1) q m) (endpoint_probe e r) refl (endpoint_probe-Ends e r))
        λ p. after_endpoint-Shows b p

  pub wrn_probe-Shows :
      (e : Env) (r : Registered) (b : Bool)
      → Triple W
          (Shows (blank n q m))
          (wrn_probe e (replicate 4 (region true)) true r b)
          (λ r'. Shows (left_by r' b n q m))
  unfolding wrn_probe
  wrn_probe-Shows e r b = Triple-bind all_mapped-Shows λ ok. Triple-given λ yes.
      Triple-if (not ok) {m = give_up enomem} (λ no. absurd (cc))
        λ _. Triple-bind (set_shortcuts-Shows (record (mapped n q m) { shortcuts = false })) λ _.
          Triple-bind
            (on_nic-Shows (mapped n q m) fb_nic (writel 0 cr_reg) q refl
              (writel-ShowsNet q 0 cr_reg))
            λ _. Triple-bind (set_dev-Shows (mapped n q m) false) λ _. probe_endpoint-Shows e r b
