-- ===== src/Nic/Probe/Ready.antt =====
-- What `wrn_probe` leaves: a card that the other parts of the driver can work on, or an error.
use mathlib.Core.Path.{subst}
use sbndaq_wr.Base.{ℕ, ◌+◌, ◌≡◌, sym, ap, ◌∙◌, length, Bool, true, false, arith, replicate}
use sbndaq_wr.Base.Triples.{Triple, Ensures-weaken}
use sbndaq_wr.Mmio.{Env}
use sbndaq_wr.Dio.Invariant.{AllChannels, IsDriver}
use sbndaq_wr.Dio.Ioctl.Safety.{fresh-IsChannel}
use sbndaq_wr.Nic.State.{nr_desc}
use sbndaq_wr.Nic.Queue.{IsUntagged, IsQueued}
use sbndaq_wr.Nic.Endpoint.{Registered}
use sbndaq_wr.Nic.Probe.{Pdev, region, ProbeReturn, ready, enomem, enodev, other, wrn_probe}
use sbndaq_wr.Nic.Probe.Views.{Net, Mezzanine, net, mezzanine, View, view, Shows}
use sbndaq_wr.Nic.Probe.Steps.{blank, mapped, at_zero, with_memory, left_by, wrn_probe-Shows}

-- Where the probing starts: the platform data have WR-DIO, nothing is mapped, the queue has its table, and the mezzanine its offsets.
pub record IsBlank (n : ℕ) (p : Pdev) : Type 0 where
  pub wrdio : p.wrdio ≡ true
  pub bases : p.bases ≡ replicate 4 false
  pub shortcuts : p.shortcuts ≡ false
  pub dev : p.dev ≡ false
  pub netdevs : p.netdevs ≡ n
  pub table : length p.wrn.skb_desc ≡ nr_desc
  pub untagged : IsUntagged p.wrn.skb_desc
  pub offsets : length p.dio.pulse_offsets ≡ 5

-- A card in use.
pub record IsReady (b : Bool) (n : ℕ) (p : Pdev) : Type 0 where
  pub bases : p.bases ≡ replicate 4 true
  pub dev : p.dev ≡ true
  pub netdevs : p.netdevs ≡ n + 1
  pub queue : IsQueued 0 0 p.wrn
  pub next_rx : p.wrn.next_rx ≡ 0
  pub mezzanine : b ≡ true → IsDriver false p.dio

-- A card that is not: its net device stays allocated, and its blocks stay mapped or not.
pub record IsLeft (mapped : Bool) (n : ℕ) (p : Pdev) : Type 0 where
  pub bases : p.bases ≡ replicate 4 mapped
  pub dev : p.dev ≡ false
  pub netdevs : p.netdevs ≡ n + 1

abbrev pub Ended : Bool → ℕ → ProbeReturn → Pdev → Type 0
Ended b n ready = IsReady b n
Ended b n enomem = IsLeft false n
Ended b n enodev = IsLeft true n
Ended b n other = IsLeft false n

pub blank-Shows : {n : ℕ} {p : Pdev} → IsBlank n p → Shows (blank n (net p.wrn) (mezzanine p.dio)) p
blank-Shows {p} i = record {
  is =
      ap (λ x. record (view p) { wrdio = x }) i.wrdio
      ∙ ap (λ x. record (view p) { wrdio = true; bases = x }) i.bases
      ∙ ap (λ x. record (view p) { wrdio = true; bases = replicate 4 false; shortcuts = x })
          i.shortcuts
      ∙ ap
          (λ x. record (view p) {
            wrdio = true;
            bases = replicate 4 false;
            shortcuts = false;
            dev = x;
          })
          i.dev
      ∙ ap
          (λ x. record (view p) {
            wrdio = true;
            bases = replicate 4 false;
            shortcuts = false;
            dev = false;
            netdevs = x;
          })
          i.netdevs;
}

pub IsQueued-Shows :
    (p : Pdev) (q : Net)
    → length q.descs ≡ nr_desc
    → IsUntagged q.descs
    → net p.wrn ≡ at_zero q
    → IsQueued 0 0 p.wrn
IsQueued-Shows p q table untagged e =
    let h = ap (λ (x : Net). x.head) e in
    let t = ap (λ (x : Net). x.tail) e in
    let r = ap (λ (x : Net). x.rx) e in
    let d = ap (λ (x : Net). x.descs) e in
    record {
      valid = record {
        head_in = omega arith;
        tail_in = omega arith;
        rx_in = omega arith;
        table = ap length d ∙ table;
        untagged = subst IsUntagged (sym d) untagged;
      };
      head_is = h;
      tail_is = t;
    }

pub IsDriver-Shows :
    (p : Pdev) (m : Mezzanine) (b : Bool)
    → length m.offsets ≡ 5
    → mezzanine p.dio ≡ with_memory b m
    → b ≡ true
    → IsDriver false p.dio
IsDriver-Shows p m true offsets e _ =
    let c = ap (λ (x : Mezzanine). x.channels) e in
    record {
      channels = ap length c;
      offsets = ap (λ (x : Mezzanine). length x.offsets) e ∙ offsets;
      each = subst AllChannels (sym c) (
        fresh-IsChannel,
        (fresh-IsChannel, (fresh-IsChannel, (fresh-IsChannel, (fresh-IsChannel, tt)))),
      );
      lock = ap (λ (x : Mezzanine). x.lock) e;
    }
IsDriver-Shows p m false offsets e wrong = absurd (cc)

IsLeft-Shows :
    {p : Pdev} (n : ℕ) (q : Net) (m : Mezzanine) (b : Bool)
    → Shows (record (mapped (n + 1) q m) { bases = replicate 4 b }) p
    → IsLeft b n p
IsLeft-Shows n q m b i = record {
  bases = ap (λ (x : View). x.bases) i.is;
  dev = ap (λ (x : View). x.dev) i.is;
  netdevs = ap (λ (x : View). x.netdevs) i.is;
}

module _ (b : Bool) (n : ℕ) (q : Net) (m : Mezzanine) where
  ended :
      (r : ProbeReturn) (p : Pdev)
      → length q.descs ≡ nr_desc
      → IsUntagged q.descs
      → length m.offsets ≡ 5
      → Shows (left_by r b n q m) p
      → Ended b n r p
  ended ready p table untagged offsets i = record {
    bases = ap (λ (x : View). x.bases) i.is;
    dev = ap (λ (x : View). x.dev) i.is;
    netdevs = ap (λ (x : View). x.netdevs) i.is;
    queue = IsQueued-Shows p q table untagged (ap (λ (x : View). x.queue) i.is);
    next_rx = ap (λ (x : View). x.queue.rx) i.is;
    mezzanine = IsDriver-Shows p m b offsets (ap (λ (x : View). x.dio) i.is);
  }
  ended enomem p table untagged offsets i = IsLeft-Shows n q m false i
  ended enodev p table untagged offsets i = IsLeft-Shows n q m true i
  ended other p table untagged offsets i = IsLeft-Shows n q m false i

-- The probing of a card whose four blocks can be mapped, with memory for the net device, always returns from a state in which
-- the base of WR-DIO is set, nothing is mapped and no device set, the table of the queue has eight entries without a stamp of their own, and there are
-- five pulse offsets. If it returns 0, the
-- queue is empty and valid at descriptor 0, and with memory for the mezzanine the mezzanine driver is in a good state with its
-- lock free; after every error there is no device, but its net device stays allocated, and after `-ENODEV` the blocks mapped.
pub wrn_probe-Triple :
    (e : Env) (r : Registered) (b : Bool) (n : ℕ)
    → Triple ⊥ (IsBlank n) (wrn_probe e (replicate 4 (region true)) true r b) (Ended b n)
wrn_probe-Triple e r b n = record {
  at = λ p i.
      Ensures-weaken
        (λ r' s. ended b n (net p.wrn) (mezzanine p.dio) r' s i.table i.untagged i.offsets)
        ((wrn_probe-Shows n (net p.wrn) (mezzanine p.dio) e r b).at p (blank-Shows i));
}
