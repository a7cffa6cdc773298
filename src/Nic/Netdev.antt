-- ===== src/Nic/Netdev.antt =====
-- The calls of a net device in nic-core.c, and `wrn_tstamp_ioctl` of timestamp.c.
pub mod Safety
use sbndaq_wr.Base.{
  ℕ, ◌+◌, ◌-◌, ◌*◌, ◌/◌, ◌%◌, ◌^◌, List, [], ◌∷◌, Option, none, some, Bool, true, false, not,
  bit_and, bit_or, Program, done, fault, waiting, pure, stop, ◌>>=◌, ◌>>◌, checked, get_elem?, ltb,
  ◌==◌, ◌||◌, has_bits, if◌then◌else◌,
}
use sbndaq_wr.Base.Bits.{bit_not32}
use sbndaq_wr.Mmio.{Addr, endpoint, Env, u32}
use sbndaq_wr.Dio.Device.{Driver, Cmd, Ret, M}
use sbndaq_wr.Dio.Stamp.{Wake}
use sbndaq_wr.Dio.Ioctl.{Services, priv_mezzanine_id, priv_mezzanine_cmd, mezzanine_ioctl}
use sbndaq_wr.Nic.Endpoint.{
  Endpoint, E, rfcr_reg, mach_reg, macl_reg, sizeof_ep_wb, ep_readl, ep_writel, get_endpoint,
  set_carrier, set_up, set_queue_stopped, lock_endpoint, unlock_endpoint, phy_read, phy_write,
  ep_open, ep_close, store_mac,
}

-- The endpoint, and the mezzanine behind its ioctl.
pub record Netdev : Type 0 where
  pub ep : Endpoint
  pub mezzanine : Driver

abbrev pub D : Type 0 → Type 0
D A = Program Netdev A

-- A function of one of the two parts.
unfoldable pub on_endpoint : {A : Type 0} → E A → D A
on_endpoint m s = elim (m s.ep) [
  | done a ep ↦ done a (record s { ep = ep })
  | fault ↦ fault
  | waiting ↦ waiting
]

unfoldable pub on_mezzanine : {A : Type 0} → M A → D A
on_mezzanine m s = elim (m s.mezzanine) [
  | done a d ↦ done a (record s { mezzanine = d })
  | fault ↦ fault
  | waiting ↦ waiting
]

-- What the calls return.
pub data NetRet : Type 0 where
  net_ok eaddrnotavail net_efault net_einval erange eopnotsupp : NetRet
  of_mezzanine : Ret → NetRet
  of_mii : ℕ → NetRet

-- `EP_RFCR_MRU_MASK`, and `EP_RFCR_MRU_W(2048)`.
abbrev mru_mask : ℕ
mru_mask = (2 ^ 14 - 1) * 2 ^ 12

abbrev mru_2048 : ℕ
mru_2048 = 2048 * 2 ^ 12

module _ (e : Env) (is_valid_ether_addr : List ℕ → Bool) where
  -- `wrn_open`. A queue that is woken and one that is started are both not stopped.
  unfoldable pub wrn_open : E NetRet
  unfolding set_up ep_open set_queue_stopped
  wrn_open = do
    s ← get_endpoint
    if not (is_valid_ether_addr s.dev_addr) then pure eaddrnotavail else (do
      set_up false
      ep_open
      set_queue_stopped false
      val ← ep_readl e rfcr_reg
      ep_writel (bit_or (bit_and val (bit_not32 mru_mask)) mru_2048) rfcr_reg
      pure net_ok)

  -- `wrn_set_mac_address`, for the six bytes of an address.
  unfoldable pub wrn_set_mac_address : List ℕ → E NetRet
  unfolding store_mac
  wrn_set_mac_address (b0 ∷ b1 ∷ b2 ∷ b3 ∷ b4 ∷ b5 ∷ []) =
      if not (is_valid_ether_addr (b0 ∷ b1 ∷ b2 ∷ b3 ∷ b4 ∷ b5 ∷ []))
      then pure eaddrnotavail
      else (do
        store_mac (b0 ∷ b1 ∷ b2 ∷ b3 ∷ b4 ∷ b5 ∷ [])
        ep_writel (b0 * 2 ^ 8 + b1) mach_reg
        ep_writel (b2 * 2 ^ 24 + b3 * 2 ^ 16 + b4 * 2 ^ 8 + b5) macl_reg
        pure net_ok)
  wrn_set_mac_address addr = stop

-- `wrn_close`.
unfoldable pub wrn_close : E NetRet
unfolding ep_close set_queue_stopped set_carrier set_up
wrn_close = do ep_close; set_queue_stopped true; set_carrier false; set_up false; pure net_ok

unfoldable pub set_stamping_tx : Bool → E (Unit {0})
set_stamping_tx on s = done tt (record s { stamping_tx = on })

unfoldable pub set_stamping_rx : Bool → E (Unit {0})
set_stamping_rx on s = done tt (record s { stamping_rx = on })

-- `wrn_tstamp_ioctl`, for the types of transmit stamps and the receive filters of the kernel's header: 0 is off, or none.
-- `none` is a configuration that cannot be read, and the last argument says whether it can be written.
unfoldable pub tstamp_ioctl : Option (ℕ × ℕ) → Bool → E NetRet
unfolding set_stamping_tx set_stamping_rx
tstamp_ioctl none copied = pure net_efault
tstamp_ioctl (some config) copied =
    let rest : E NetRet =
      set_stamping_rx (not (config.1 == 0)) >> pure (if copied then net_ok else net_efault) in
    if config.0 == 1
    then (set_stamping_tx true >> rest)
    else if config.0 == 0
    then (set_stamping_tx false >> rest)
    else pure erange

-- The request numbers: `SIOCSHWTSTAMP` of the kernel, and those of wr-nic.h.
abbrev pub siocshwtstamp : ℕ
siocshwtstamp = 0x89b0

abbrev pub priv_iocgcalibrate : ℕ
priv_iocgcalibrate = 0x89f0 + 1

abbrev pub priv_iocggetphase : ℕ
priv_iocggetphase = 0x89f0 + 2

abbrev pub priv_iocreadreg : ℕ
priv_iocreadreg = 0x89f0 + 3

abbrev pub priv_iocphyreg : ℕ
priv_iocphyreg = 0x89f0 + 4

-- One call of `ioctl`: what `get_user` reads, whether `put_user` works, the configuration for time stamps, what the
-- kernel does in the mezzanine's call and its command, and what `generic_mii_ioctl` returns.
pub record Request : Type 0 where
  pub number : ℕ
  pub word : Option ℕ
  pub put_works : Bool
  pub config : Option (ℕ × ℕ)
  pub services : Services
  pub wakes : List Wake
  pub command : Cmd
  pub mii_result : ℕ

-- What the user gets: the result, and a word or a command where one is copied.
pub record NetReply : Type 0 where
  pub ret : NetRet
  pub word : Option ℕ
  pub command : Option Cmd

abbrev pub plain : NetRet → NetReply
plain ret = record { ret = ret; word = none; command = none }

-- `put_user` of a word.
abbrev pub put_user : Bool → ℕ → NetReply
put_user true word = record { ret = net_ok; word = some word; command = none }
put_user false word = plain net_efault

module _ (e : Env) where
  -- `PRIV_IOCREADREG`.
  unfoldable pub read_register : Request → E NetReply
  read_register q = elim q.word [
    | none ↦ pure (plain net_efault)
    | some reg ↦
        if ltb sizeof_ep_wb reg || has_bits reg 3
        then pure (plain net_einval)
        else (ep_readl e (endpoint reg) >>= λ val. pure (put_user q.put_works val))
  ]

  -- `PRIV_IOCPHYREG`.
  unfoldable pub phy_register : Request → E NetReply
  unfolding phy_read phy_write
  phy_register q = elim q.word [
    | none ↦ pure (plain net_efault)
    | some reg ↦
        if has_bits reg (2 ^ 31)
        then (phy_write (reg / 2 ^ 16 % 2 ^ 8) (reg % 2 ^ 16) >> pure (plain net_ok))
        else (phy_read (reg / 2 ^ 16 % 2 ^ 8) >>= λ val. pure (put_user q.put_works val))
  ]

  -- `generic_mii_ioctl`, with the lock.
  unfoldable pub mii_ioctl : Request → E NetReply
  unfolding lock_endpoint unlock_endpoint
  mii_ioctl q = do lock_endpoint; unlock_endpoint; pure (plain (of_mii q.mii_result))

  -- `wrn_ioctl`.
  unfoldable pub wrn_ioctl : Request → D NetReply
  unfolding on_endpoint on_mezzanine tstamp_ioctl read_register phy_register mii_ioctl
  wrn_ioctl q =
      if q.number == siocshwtstamp
      then on_endpoint (tstamp_ioctl q.config q.put_works >>= λ r. pure (plain r))
      else if q.number == priv_iocgcalibrate || q.number == priv_iocggetphase
      then pure (plain eopnotsupp)
      else if q.number == priv_iocreadreg
      then on_endpoint (read_register q)
      else if q.number == priv_iocphyreg
      then on_endpoint (phy_register q)
      else if q.number == priv_mezzanine_id || q.number == priv_mezzanine_cmd
      then (on_mezzanine (mezzanine_ioctl e q.services q.wakes q.number q.command) >>= λ r.
          pure (record { ret = of_mezzanine r.0; word = none; command = r.1 }))
      else on_endpoint (mii_ioctl q)
