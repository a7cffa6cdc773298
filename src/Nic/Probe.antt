-- ===== src/Nic/Probe.antt =====
-- device.c: the platform driver of the network card, from its resources to the interrupts. The card has one endpoint.
pub mod Views
pub mod Steps
pub mod Ready
pub mod Unmapped
pub mod Removed
pub mod Tests
use sbndaq_wr.Base.{
  ℕ, zero, suc, ◌+◌, ◌-◌, ◌*◌, ◌^◌, List, [], ◌∷◌, Option, none, some, Bool, true, false, not, ◌||◌,
  bit_or, Program, Outcome, done, fault, waiting, pure, ◌>>=◌, ◌>>◌, stop, when, set, get_or,
  replicate, if◌then◌else◌,
}
use sbndaq_wr.Mmio.{Addr, nic, Env}
use sbndaq_wr.Dio.Device.{Driver, M, Ret}
use sbndaq_wr.Dio.Ioctl.{mezzanine_init, mezzanine_exit}
use sbndaq_wr.Nic.State.{Wrn, N, writel, tx1, rx1, rx3, desc_offset, ddir_rx, eic_ier}
use sbndaq_wr.Nic.Stamps.{tstamp_init}
use sbndaq_wr.Nic.Endpoint.{
  Endpoint, E, Registered, Probed, probed, probe_enodev, probe_eio, probe_other, endpoint_probe,
  endpoint_remove,
}

-- The three parts of the driver, whether `wrdio_base` of the platform data is set, which of the four blocks `bases` has mapped, whether `regs` and the other shortcuts are
-- set, whether `dev[0]` is, and how many net devices are allocated.
pub record Pdev : Type 0 where
  pub wrn : Wrn
  pub ep : Endpoint
  pub dio : Driver
  pub wrdio : Bool
  pub bases : List Bool
  pub shortcuts : Bool
  pub dev : Bool
  pub netdevs : ℕ

abbrev pub D : Type 0 → Type 0
D A = Program Pdev A

-- A resource: `res->start` is 0, or there is a region that `ioremap` can map or not.
pub data Resource : Type 0 where
  no_region : Resource
  region : Bool → Resource

-- The indexes of the blocks.
abbrev pub fb_nic : ℕ
fb_nic = 0

abbrev pub fb_ep : ℕ
fb_ep = 1

abbrev pub fb_ts : ℕ
fb_ts = 3

-- `NIC_CR_RX_EN | NIC_CR_TX_EN`, `NIC_RX1_D1_EMPTY` and `CR`.
abbrev cr_enable : ℕ
cr_enable = bit_or (2 ^ 0) (2 ^ 1)

abbrev rx1_empty : ℕ
rx1_empty = 2 ^ 0

abbrev pub cr_reg : Addr
cr_reg = nic 0x00

unfoldable pub get_pdev : D Pdev
get_pdev p = done p p

unfoldable pub set_dev : Bool → D (Unit {0})
set_dev b p = done tt (record p { dev = b })

unfoldable pub set_shortcuts : D (Unit {0})
set_shortcuts p = done tt (record p { shortcuts = true })

unfoldable pub alloc_netdev : D (Unit {0})
alloc_netdev p = done tt (record p { netdevs = p.netdevs + 1 })

unfoldable pub free_netdev : D (Unit {0})
free_netdev p = done tt (record p { netdevs = p.netdevs - 1 })

unfoldable pub set_base : ℕ → D (Unit {0})
set_base i p = done tt (record p { bases = set p.bases i true })

unfoldable pub unmap_bases : D (Unit {0})
unmap_bases p = done tt (record p { bases = replicate 4 false })

-- An access to a block goes through a null pointer if the shortcuts are not set or the block is not mapped.
abbrev pub is_usable : ℕ → Pdev → Bool
is_usable block p = if p.shortcuts then get_or p.bases block false else false

unfoldable pub on_nic : {A : Type 0} → ℕ → N A → D A
on_nic block m p =
    if is_usable block p
    then elim (m p.wrn) [
      | done a w ↦ done a (record p { wrn = w })
      | fault ↦ fault
      | waiting ↦ waiting
    ]
    else stop p

unfoldable pub on_endpoint : {A : Type 0} → E A → D A
on_endpoint m p =
    if is_usable fb_ep p
    then elim (m p.ep) [
      | done a s ↦ done a (record p { ep = s })
      | fault ↦ fault
      | waiting ↦ waiting
    ]
    else stop p

-- The mezzanine driver's functions; one that accesses the registers of WR-DIO does so through a null
-- pointer if the core is not there.
unfoldable pub on_mezzanine : {A : Type 0} → Bool → M A → D A
on_mezzanine accesses m p =
    if p.wrdio || not accesses
    then elim (m p.dio) [
      | done a d ↦ done a (record p { dio = d })
      | fault ↦ fault
      | waiting ↦ waiting
    ]
    else stop p

-- The loop of `__wrn_map_resources`: whether it returns 0, not -ENOMEM.
unfoldable pub map_resources : ℕ → List Resource → D Bool
unfolding set_base
map_resources i [] = pure true
map_resources i (no_region ∷ resources) = map_resources (i + 1) resources
map_resources i (region true ∷ resources) = set_base i >> map_resources (i + 1) resources
map_resources i (region false ∷ resources) = pure false

-- The part of `wrn_remove` for the one endpoint.
unfoldable pub remove_netdev : D (Unit {0})
unfolding on_mezzanine on_endpoint free_netdev set_dev
remove_netdev = do
  on_mezzanine true mezzanine_exit
  on_endpoint endpoint_remove
  free_netdev
  set_dev false

-- `wrn_remove`; no interrupt is registered here, so that the last loop has no round.
unfoldable pub wrn_remove : D (Unit {0})
unfolding on_nic get_pdev remove_netdev unmap_bases
wrn_remove = do on_nic fb_nic (writel 0 cr_reg); p ← get_pdev; when p.dev remove_netdev; unmap_bases

-- The loops over the descriptors, with `rounds` left.
unfoldable pub clear_tx : ℕ → ℕ → N (Unit {0})
clear_tx zero i = pure tt
clear_tx (suc rounds) i = writel 0 (tx1 i) >> clear_tx rounds (i + 1)

unfoldable pub prepare_rx : ℕ → ℕ → N (Unit {0})
unfolding desc_offset
prepare_rx zero i = pure tt
prepare_rx (suc rounds) i = do
  writel (bit_or (2000 * 2 ^ 16) (desc_offset ddir_rx i)) (rx3 i)
  writel rx1_empty (rx1 i)
  prepare_rx rounds (i + 1)

unfoldable pub reset_positions : N (Unit {0})
reset_positions w = done tt (record w { next_tx_head = 0; next_tx_tail = 0; next_rx = 0 })

-- The end of `wrn_probe`, once there is an endpoint.
unfoldable pub start_nic : D (Unit {0})
unfolding on_nic clear_tx prepare_rx reset_positions tstamp_init
start_nic = do
  on_nic fb_nic (clear_tx 8 0)
  on_nic fb_nic (prepare_rx 8 0)
  on_nic fb_nic reset_positions
  on_nic fb_nic (writel cr_enable cr_reg)
  on_nic fb_nic (writel (2 ^ 32 - 1) eic_ier)
  on_nic fb_ts tstamp_init

-- What `wrn_probe` returns.
pub data ProbeReturn : Type 0 where
  ready enomem enodev other : ProbeReturn

unfoldable pub give_up : ProbeReturn → D ProbeReturn
unfolding wrn_remove
give_up err = wrn_remove >> pure err

-- What follows `wrn_endpoint_probe`. Whether there is memory for the mezzanine is an argument.
unfoldable pub after_endpoint : Bool → Probed → D ProbeReturn
unfolding set_dev on_mezzanine start_nic give_up
after_endpoint memory probed = do
  set_dev true
  _ ← on_mezzanine memory (mezzanine_init memory)
  start_nic
  pure ready
after_endpoint memory probe_enodev = pure enodev
after_endpoint memory probe_eio = give_up other
after_endpoint memory probe_other = give_up other

module _ (e : Env) where
  -- The loop over the endpoints, and what follows it. Whether `alloc_etherdev` succeeds and what `register_netdev` says are
  -- arguments; without memory the parent is stored through a null pointer.
  unfoldable pub probe_endpoint : Bool → Registered → Bool → D ProbeReturn
  unfolding alloc_netdev on_endpoint after_endpoint
  probe_endpoint allocated registered memory =
      if not allocated
      then stop
      else (do alloc_netdev; p ← on_endpoint (endpoint_probe e registered); after_endpoint memory p)

  -- `wrn_probe`.
  unfoldable pub wrn_probe : List Resource → Bool → Registered → Bool → D ProbeReturn
  unfolding map_resources set_shortcuts probe_endpoint
  wrn_probe resources allocated registered memory = do
    mapped ← map_resources 0 resources
    if not mapped then give_up enomem else (do
      set_shortcuts
      on_nic fb_nic (writel 0 cr_reg)
      set_dev false
      probe_endpoint allocated registered memory)
