-- ===== src/Nic/Probe/Removed.antt =====
-- The removal of a card in use: what `wrn_probe` took is given back.
use sbndaq_wr.Base.{◌-◌, ◌≡◌, refl, ap, [], true, false, replicate, ◌>>◌, when}
use sbndaq_wr.Base.Triples.{returns, Triple, Triple-bind, Triple-given, Triple-when}
use sbndaq_wr.Dio.Ioctl.{mezzanine_exit}
use sbndaq_wr.Nic.State.{writel}
use sbndaq_wr.Nic.Endpoint.{endpoint_remove}
use sbndaq_wr.Nic.Probe.{fb_nic, cr_reg, wrn_remove, remove_netdev, unmap_bases}
use sbndaq_wr.Nic.Probe.Views.{
  Mezzanine, View, Shows, ShowsDio, on_nic-Shows, on_endpoint-Shows, on_mezzanine-Shows,
  set_dev-Shows, unmap_bases-Shows, get_pdev-Shows, free_netdev-Shows,
}
use sbndaq_wr.Nic.Probe.Steps.{writel-ShowsNet, endpoint_remove-Ends}

mezzanine_exit-ShowsDio :
    {W : Type 0} (m : Mezzanine)
    → Triple W (ShowsDio m) mezzanine_exit (λ _. ShowsDio (record m { channels = [] }))
unfolding mezzanine_exit
mezzanine_exit-ShowsDio m = record {
  at = λ d i. returns (record { is = ap (λ (x : Mezzanine). record x { channels = [] }) i.is });
}

-- What a removal leaves of a view.
abbrev pub removed : View → View
removed v = record v {
  bases = replicate 4 false;
  dev = false;
  netdevs = v.netdevs - 1;
  dio = record v.dio { channels = [] };
}

module _ {W : Type 0} (v : View) (there : v.shortcuts ≡ true) (full : v.bases ≡ replicate 4 true)
    (dev : v.dev ≡ true) (wrdio : v.wrdio ≡ true) where
  remove_netdev-Shows : Triple W (Shows v) remove_netdev (λ _.
      Shows
        (record v { dev = false; netdevs = v.netdevs - 1; dio = record v.dio { channels = [] } }))
  unfolding remove_netdev
  remove_netdev-Shows =
      Triple-bind
        (on_mezzanine-Shows v true mezzanine_exit (record v.dio { channels = [] }) wrdio
          (mezzanine_exit-ShowsDio v.dio))
        λ _.
          Triple-bind
            (on_endpoint-Shows (record v { dio = record v.dio { channels = [] } }) endpoint_remove
              (rw there (rw full refl)) endpoint_remove-Ends)
            λ _.
              Triple-bind (free_netdev-Shows (record v { dio = record v.dio { channels = [] } }))
                λ _.
                  set_dev-Shows
                    (record v { dio = record v.dio { channels = [] }; netdevs = v.netdevs - 1 })
                    false

  pub wrn_remove-Shows : Triple W (Shows v) wrn_remove (λ _. Shows (removed v))
  unfolding wrn_remove
  wrn_remove-Shows =
      Triple-bind
        (on_nic-Shows v fb_nic (writel 0 cr_reg) v.queue (rw there (rw full refl))
          (writel-ShowsNet v.queue 0 cr_reg))
        λ _. Triple-bind {f = λ p. when p.dev remove_netdev >> unmap_bases} (get_pdev-Shows v) λ p.
          Triple-given λ i.
            let has_dev = ap (λ (x : View). x.dev) i.is in
            Triple-bind
              (Triple-when p.dev {m = remove_netdev} (λ _. remove_netdev-Shows)
                (λ no_dev. absurd (cc)))
              λ _. unmap_bases-Shows (record v {
                dev = false;
                netdevs = v.netdevs - 1;
                dio = record v.dio { channels = [] };
              })
