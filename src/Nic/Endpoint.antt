-- ===== src/Nic/Endpoint.antt =====
-- endpoint.c: the link of one endpoint, its start and its end. `ep_flags` is the three flags that the
-- code sets.
use sbndaq_wr.Base.{
  ℕ, ◌-◌, ◌/◌, ◌%◌, ◌^◌, List, [], ◌∷◌, Bool, true, false, not, bit_or, Program, done, pure, ◌>>=◌,
  ◌>>◌, waiting, ◌==◌, ◌&&◌, has_bits, if◌then◌else◌,
}
use sbndaq_wr.Mmio.{Addr, endpoint, read, write, History, Env, u32}

-- `struct wrn_ep` with what the driver tells the kernel of its `struct net_device`: whether the queue is stopped, the
-- carrier, the address, and whether the device is registered.
pub record Endpoint : Type 0 where
  pub up : Bool
  pub stamping_tx : Bool
  pub stamping_rx : Bool
  pub queue_stopped : Bool
  pub carrier : Bool
  pub registered : Bool
  pub dev_addr : List ℕ
  pub lock : Bool
  pub history : History

abbrev pub E : Type 0 → Type 0
E A = Program Endpoint A

-- The registers of `struct EP_WB`.
abbrev pub ecr_reg : Addr
ecr_reg = endpoint 0x00

abbrev pub rfcr_reg : Addr
rfcr_reg = endpoint 0x08

abbrev pub mach_reg : Addr
mach_reg = endpoint 0x24

abbrev pub macl_reg : Addr
macl_reg = endpoint 0x28

abbrev pub idcode_reg : Addr
idcode_reg = endpoint 0x34

abbrev pub sizeof_ep_wb : ℕ
sizeof_ep_wb = 0x100

-- `EP_ECR_RST_CNT`.
abbrev ecr_rst_cnt : ℕ
ecr_rst_cnt = 2 ^ 5

-- `WRN_EP_MAGIC`.
abbrev ep_magic : ℕ
ep_magic = 0xcafebabe

-- `BMCR_ANENABLE` and `BMSR_ANEGCOMPLETE` of the kernel.
abbrev bmcr_anenable : ℕ
bmcr_anenable = 0x1000

abbrev bmsr_anegcomplete : ℕ
bmsr_anegcomplete = 0x0020

abbrev pub ep_readl : Env → Addr → E ℕ
ep_readl e a s = done (u32 (e.answer s.history a)) (record s { history = read a ∷ s.history })

abbrev pub ep_writel : ℕ → Addr → E (Unit {0})
ep_writel v a s = done tt (record s { history = write a (u32 v) ∷ s.history })

unfoldable pub get_endpoint : E Endpoint
get_endpoint s = done s s

unfoldable pub set_carrier : Bool → E (Unit {0})
set_carrier on s = done tt (record s { carrier = on })

unfoldable pub set_up : Bool → E (Unit {0})
set_up on s = done tt (record s { up = on })

unfoldable pub set_queue_stopped : Bool → E (Unit {0})
set_queue_stopped b s = done tt (record s { queue_stopped = b })

-- `spin_lock` and `spin_unlock` on `ep->lock`.
unfoldable pub lock_endpoint : E (Unit {0})
lock_endpoint s = if s.lock then waiting else done tt (record s { lock = true })

unfoldable pub unlock_endpoint : E (Unit {0})
unlock_endpoint s = done tt (record s { lock = false })

-- `wrn_phy_read` and `wrn_phy_write`, which leave the phy alone: -1 as a `u32`.
unfoldable pub phy_read : ℕ → E ℕ
phy_read location = pure (2 ^ 32 - 1)

unfoldable pub phy_write : ℕ → ℕ → E (Unit {0})
phy_write location value = pure tt

module _ (e : Env) where
  -- The bring-up step of `wrn_update_link_status`.
  unfoldable pub bring_up : E (Unit {0})
  unfolding set_carrier set_up
  bring_up = do
    set_carrier true
    set_up true
    ecr ← ep_readl e ecr_reg
    ep_writel (bit_or ecr ecr_rst_cnt) ecr_reg
    ep_writel ecr ecr_reg

  -- `wrn_update_link_status`, with what `mii_link_ok` says.
  unfoldable pub update_link_status : Bool → E (Unit {0})
  unfolding bring_up phy_read
  update_link_status link_ok = do
    bmsr ← phy_read 1
    bmcr ← phy_read 0
    s ← get_endpoint
    if not link_ok
        then (if s.carrier then (set_carrier false >> set_up false) else pure tt)
        else (if s.carrier
            then pure tt
            else (if has_bits bmcr bmcr_anenable && not (has_bits bmsr bmsr_anegcomplete)
                then pure tt
                else bring_up))

  -- `wrn_ep_check_link`; the timer that calls it again is left out.
  unfoldable pub check_link : Bool → E (Unit {0})
  unfolding update_link_status lock_endpoint unlock_endpoint
  check_link link_ok = do lock_endpoint; update_link_status link_ok; unlock_endpoint

-- `wrn_ep_open` and `wrn_ep_close`, as they are on this card.
unfoldable pub ep_open : E (Unit {0})
unfolding set_carrier
ep_open = set_carrier true

unfoldable pub ep_close : E (Unit {0})
ep_close = pure tt

-- `__wrn_endpoint_shutdown`.
unfoldable pub endpoint_shutdown : E (Unit {0})
endpoint_shutdown = ep_writel 0 ecr_reg

-- `put_unaligned_be16` of the high part and `put_unaligned_be32` of the low one.
abbrev pub mac_of : ℕ → ℕ → List ℕ
mac_of high low =
    high / 2 ^ 8 % 2 ^ 8
    ∷ high % 2 ^ 8
    ∷ low / 2 ^ 24 % 2 ^ 8
    ∷ low / 2 ^ 16 % 2 ^ 8
    ∷ low / 2 ^ 8 % 2 ^ 8
    ∷ low % 2 ^ 8
    ∷ []

-- What `register_netdev` returns, and what the probe returns.
pub data Registered : Type 0 where
  registered_ok register_enodev register_other : Registered

pub data Probed : Type 0 where
  probed probe_enodev probe_eio probe_other : Probed

unfoldable pub store_mac : List ℕ → E (Unit {0})
store_mac addr s = done tt (record s { dev_addr = addr })

unfoldable pub set_registered : Bool → E (Unit {0})
set_registered b s = done tt (record s { registered = b })

module _ (e : Env) where
  -- `wrn_endpoint_probe`; the fields for ethtool are left out.
  unfoldable pub endpoint_probe : Registered → E Probed
  unfolding endpoint_shutdown store_mac set_registered
  endpoint_probe r = do
    val ← ep_readl e idcode_reg
    if not (val == ep_magic) then pure probe_enodev else elim r [
      | registered_ok ↦ do
        set_registered true
        high ← ep_readl e mach_reg
        low ← ep_readl e macl_reg
        store_mac (mac_of high low)
        pure probed
      | register_enodev ↦ endpoint_shutdown >> pure probe_eio
      | register_other ↦ endpoint_shutdown >> pure probe_other
    ]

-- `wrn_endpoint_remove`.
unfoldable pub endpoint_remove : E (Unit {0})
unfolding endpoint_shutdown set_registered
endpoint_remove = set_registered false >> endpoint_shutdown
