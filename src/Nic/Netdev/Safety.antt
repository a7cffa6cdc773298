-- ===== src/Nic/Netdev/Safety.antt =====
-- The ioctl of a net device with the mezzanine behind it.
use sbndaq_wr.Base.{
  ℕ, ◌/◌, ◌%◌, ◌^◌, ◌≤◌, ◌≡◌, refl, [], ◌∷◌, Option, none, some, Bool, true, false, not, arith, ltb,
  ◌==◌, ◌||◌, has_bits, Outcome, done, fault, waiting, pure, ◌>>=◌, ◌>>◌, if◌then◌else◌,
}
use sbndaq_wr.Base.Triples.{Ensures, Keeps, Keeps-pure, returns, blocks, Triple-bind, Triple-if}
use sbndaq_wr.Mmio.{endpoint, Access, read, write, History, Env}
use sbndaq_wr.Dio.Device.{Driver, M}
use sbndaq_wr.Dio.Ioctl.Safety.{mezzanine_ioctl-Triple}
use sbndaq_wr.Dio.Invariant.{IsDriver}
use sbndaq_wr.Dio.Pulse.Safety.{IsCmd}
use sbndaq_wr.Dio.Stamp.Safety.{AllWakes, IsTarget}
use sbndaq_wr.Nic.Endpoint.{
  Endpoint, E, sizeof_ep_wb, ep_readl, lock_endpoint, unlock_endpoint, phy_read, phy_write,
}
use sbndaq_wr.Nic.Netdev.{
  Netdev, on_endpoint, on_mezzanine, NetReply, plain, put_user, Request, read_register,
  phy_register, mii_ioctl, tstamp_ioctl, set_stamping_tx, set_stamping_rx, siocshwtstamp,
  priv_iocgcalibrate, priv_iocggetphase, priv_iocreadreg, priv_iocphyreg, wrn_ioctl, eopnotsupp,
  net_ok, net_efault, net_einval, erange, of_mezzanine,
}
use sbndaq_wr.Dio.Ioctl.{priv_mezzanine_id, priv_mezzanine_cmd, mezzanine_ioctl}

-- An access to the endpoint's registers, up to the end of their block.
abbrev pub IsInside : Access → Type 0
IsInside (read (endpoint reg)) = reg ≤ sizeof_ep_wb
IsInside (write (endpoint reg) v) = reg ≤ sizeof_ep_wb
IsInside a = Unit

abbrev pub AllInside : History → Type 0
AllInside [] = Unit
AllInside (a ∷ h) = IsInside a × AllInside h

-- The lock is free, and no access so far left the block.
pub record IsEndpoint (s : Endpoint) : Type 0 where
  pub free : s.lock ≡ false
  pub inside : AllInside s.history

pub record IsNetdev (s : Netdev) : Type 0 where
  pub endpoint : IsEndpoint s.ep
  pub driver : IsDriver false s.mezzanine

module _ {W : Type 0} where
  lift_ep :
      {A : Type 0} {o : Outcome Endpoint A} (s : Netdev)
      → IsDriver false s.mezzanine
      → Ensures W (λ _. IsEndpoint) o
      → Ensures W
          (λ _. IsNetdev)
          (elim o [ done a ep ↦ done a (record s { ep = ep }) | fault ↦ fault | waiting ↦ waiting ])
  lift_ep s d (returns q) = returns (record { endpoint = q; driver = d })
  lift_ep s d (blocks w) = blocks w

  on_endpoint-Keeps :
      {A : Type 0} (m : E A) → Keeps W IsEndpoint m → Keeps W IsNetdev (on_endpoint m)
  unfolding on_endpoint
  on_endpoint-Keeps m k = record { at = λ s n. lift_ep s n.driver (k.at s.ep n.endpoint) }

  lift_mezzanine :
      {A : Type 0} {o : Outcome Driver A} (s : Netdev)
      → IsEndpoint s.ep
      → Ensures W (λ _. IsDriver false) o
      → Ensures W
          (λ _. IsNetdev)
          (elim o [
            | done a d ↦ done a (record s { mezzanine = d })
            | fault ↦ fault
            | waiting ↦ waiting
          ])
  lift_mezzanine s p (returns q) = returns (record { endpoint = p; driver = q })
  lift_mezzanine s p (blocks w) = blocks w

  on_mezzanine-Keeps :
      {A : Type 0} (m : M A) → Keeps W (IsDriver false) m → Keeps W IsNetdev (on_mezzanine m)
  unfolding on_mezzanine
  on_mezzanine-Keeps m k = record {
    at = λ s n. lift_mezzanine s n.endpoint (k.at s.mezzanine n.driver);
  }

  stamping-Keeps :
      (on : Bool)
      → Keeps W IsEndpoint (set_stamping_tx on) × Keeps W IsEndpoint (set_stamping_rx on)
  unfolding set_stamping_tx set_stamping_rx
  stamping-Keeps on = (
    record { at = λ s p. returns (record { free = p.free; inside = p.inside }) },
    record { at = λ s p. returns (record { free = p.free; inside = p.inside }) },
  )

  tstamp_ioctl-Keeps :
      (config : Option (ℕ × ℕ)) (copied : Bool) → Keeps W IsEndpoint (tstamp_ioctl config copied)
  unfolding tstamp_ioctl
  tstamp_ioctl-Keeps none copied = Keeps-pure net_efault
  tstamp_ioctl-Keeps (some config) copied =
      let rest =
        Triple-bind (stamping-Keeps (not (config.1 == 0))).1
          (λ _. Keeps-pure (if copied then net_ok else net_efault)) in
      Triple-if (config.0 == 1) (λ _. Triple-bind (stamping-Keeps true).0 (λ _. rest))
        λ _.
          Triple-if (config.0 == 0) (λ _. Triple-bind (stamping-Keeps false).0 (λ _. rest))
            (λ _. Keeps-pure erange)

  word_lem :
      (word : Option ℕ) (m : E NetReply) (k : ℕ → E NetReply)
      → Keeps W IsEndpoint m
      → ((n : ℕ) → Keeps W IsEndpoint (k n))
      → Keeps W IsEndpoint (elim word [ none ↦ m | some n ↦ k n ])
  word_lem none m k km kk = km
  word_lem (some n) m k km kk = kk n

  ep_readl-Keeps :
      (e : Env) (reg : ℕ) → reg ≤ sizeof_ep_wb → Keeps W IsEndpoint (ep_readl e (endpoint reg))
  ep_readl-Keeps e reg h = record {
    at = λ s p. returns (record { free = p.free; inside = (h, p.inside) });
  }

  read_register-Keeps : (e : Env) (q : Request) → Keeps W IsEndpoint (read_register e q)
  unfolding read_register
  read_register-Keeps e q =
      word_lem q.word (pure (plain net_efault))
        (λ reg.
          if ltb sizeof_ep_wb reg || has_bits reg 3
          then pure (plain net_einval)
          else (ep_readl e (endpoint reg) >>= λ val. pure (put_user q.put_works val)))
        (Keeps-pure (plain net_efault))
        λ reg.
          Triple-if (ltb sizeof_ep_wb reg || has_bits reg 3) (λ _. Keeps-pure (plain net_einval))
            λ fits.
              Triple-bind (ep_readl-Keeps e reg (small reg (has_bits reg 3) fits))
                λ val. Keeps-pure (put_user q.put_works val)
    where
      small : (reg : ℕ) (odd : Bool) → (ltb sizeof_ep_wb reg || odd) ≡ false → reg ≤ sizeof_ep_wb
      small reg odd h = ground arith

  phy_register-Keeps : (e : Env) (q : Request) → Keeps W IsEndpoint (phy_register e q)
  unfolding phy_register phy_read phy_write
  phy_register-Keeps e q =
      word_lem q.word (pure (plain net_efault))
        (λ reg.
          if has_bits reg (2 ^ 31)
          then (phy_write (reg / 2 ^ 16 % 2 ^ 8) (reg % 2 ^ 16) >> pure (plain net_ok))
          else (phy_read (reg / 2 ^ 16 % 2 ^ 8) >>= λ val. pure (put_user q.put_works val)))
        (Keeps-pure (plain net_efault))
        λ reg.
          Triple-if (has_bits reg (2 ^ 31)) (λ _. record { at = λ s p. returns p })
            (λ _. record { at = λ s p. returns p })

  mii_ioctl-Keeps : (e : Env) (q : Request) → Keeps W IsEndpoint (mii_ioctl e q)
  unfolding mii_ioctl lock_endpoint unlock_endpoint
  mii_ioctl-Keeps e q = record {
    at = λ s p. rw p.free (returns (record { free = refl; inside = p.inside }));
  }

-- A request for the mezzanine has a whole command for channels that exist.
pub record IsRequest (q : Request) : Type 0 where
  pub wakes : AllWakes q.wakes
  pub size : IsCmd q.command
  pub target : IsTarget q.command

-- An ioctl of the net device, of any number and for any register, faults nowhere and reads no register behind the first
-- word that follows the endpoint's block, which the test of the number lets through, if its command is for existing channels; if it returns the mezzanine is in a good state
-- and both locks are free.
pub wrn_ioctl-Triple :
    (e : Env) (q : Request) → IsRequest q → Keeps (Unit {0}) IsNetdev (wrn_ioctl e q)
unfolding wrn_ioctl
wrn_ioctl-Triple e q r =
    Triple-if (q.number == siocshwtstamp)
      (λ _.
        on_endpoint-Keeps _
          (Triple-bind (tstamp_ioctl-Keeps q.config q.put_works) (λ v. Keeps-pure (plain v))))
      λ _.
        Triple-if (q.number == priv_iocgcalibrate || q.number == priv_iocggetphase)
          (λ _. Keeps-pure (plain eopnotsupp))
          λ _.
            Triple-if (q.number == priv_iocreadreg)
              (λ _. on_endpoint-Keeps (read_register e q) (read_register-Keeps e q))
              λ _.
                Triple-if (q.number == priv_iocphyreg)
                  (λ _. on_endpoint-Keeps (phy_register e q) (phy_register-Keeps e q))
                  λ _.
                    Triple-if (q.number == priv_mezzanine_id || q.number == priv_mezzanine_cmd)
                      (λ _.
                        Triple-bind
                          (on_mezzanine-Keeps
                            (mezzanine_ioctl e q.services q.wakes q.number q.command)
                            (mezzanine_ioctl-Triple e q.services q.wakes q.number q.command r.wakes
                              r.size r.target))
                          λ v.
                            Keeps-pure
                              (record { ret = of_mezzanine v.0; word = none; command = v.1 }))
                      (λ _. on_endpoint-Keeps (mii_ioctl e q) (mii_ioctl-Keeps e q))
