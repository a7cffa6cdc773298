-- ===== src/Nic/Probe/Views.antt =====
-- What the proofs on the probing look at, and how each step of the driver changes it.
use sbndaq_wr.Base
use sbndaq_wr.Base.{
  ℕ, ◌+◌, ◌-◌, ◌≡◌, refl, ap, ◌∙◌, List, Bool, true, false, not, ◌||◌, Outcome, done, fault,
  waiting, get_or, replicate, if◌then◌else◌,
}
use sbndaq_wr.Base.Triples.{Ensures, returns, blocks, Triple, Keeps}
use sbndaq_wr.Dio.Device.{Channel, Driver, M}
use sbndaq_wr.Nic.State.{Pending, Wrn, N}
use sbndaq_wr.Nic.Endpoint.{Endpoint, E}
use sbndaq_wr.Nic.Probe.{
  Pdev, get_pdev, set_dev, set_shortcuts, alloc_netdev, free_netdev, set_base, unmap_bases,
  is_usable, on_nic, on_endpoint, on_mezzanine, fb_ep,
}

-- The positions and the table of the queue, and the channels of the mezzanine with the end of its last interrupt.
pub record Net : Type 0 where
  pub head : ℕ
  pub tail : ℕ
  pub rx : ℕ
  pub descs : List Pending

pub record Mezzanine : Type 0 where
  pub channels : List Channel
  pub lock : Bool
  pub offsets : List ℕ
  pub begun : ℕ
  pub last : ℕ

abbrev pub net : Wrn → Net
net w = record { head = w.next_tx_head; tail = w.next_tx_tail; rx = w.next_rx; descs = w.skb_desc }

abbrev pub mezzanine : Driver → Mezzanine
mezzanine d = record {
  channels = d.ch;
  lock = d.hw_lock;
  offsets = d.pulse_offsets;
  begun = d.t_ini;
  last = d.t_end;
}

pub record View : Type 0 where
  pub wrdio : Bool
  pub bases : List Bool
  pub shortcuts : Bool
  pub dev : Bool
  pub netdevs : ℕ
  pub queue : Net
  pub dio : Mezzanine

abbrev pub view : Pdev → View
view p = record {
  wrdio = p.wrdio;
  bases = p.bases;
  shortcuts = p.shortcuts;
  dev = p.dev;
  netdevs = p.netdevs;
  queue = net p.wrn;
  dio = mezzanine p.dio;
}

pub record Shows (v : View) (p : Pdev) : Type 0 where
  pub is : view p ≡ v

pub record ShowsNet (q : Net) (w : Wrn) : Type 0 where
  pub is : net w ≡ q

pub record ShowsDio (m : Mezzanine) (d : Driver) : Type 0 where
  pub is : mezzanine d ≡ m

abbrev pub Usable : ℕ → View → Type 0
Usable block v = (if v.shortcuts then get_or v.bases block false else false) ≡ true

Usable-at :
    (block : ℕ) (v : View) (p : Pdev) → Usable block v → Shows v p → is_usable block p ≡ true
Usable-at block v p u i =
    ap (λ (x : View). if x.shortcuts then get_or x.bases block false else false) i.is ∙ u

if_true :
    {W S A : Type 0} {Q : A → S → Type 0} (b : Bool) (x y : Outcome S A)
    → b ≡ true
    → Ensures W Q x
    → Ensures W Q (if b then x else y)
if_true true x y e h = h
if_true false x y e h = cc

nic-Ensures :
    {W A : Type 0} (v : View) (p : Pdev) (q : Net) (o : Outcome Wrn A)
    → Shows v p
    → Ensures W (λ _. ShowsNet q) o
    → Ensures W
        (λ (a : A). Shows (record v { queue = q }))
        (elim o [ done a w ↦ done a (record p { wrn = w }) | fault ↦ fault | waiting ↦ waiting ])
nic-Ensures v p q (done a w) i (returns h) = returns (record {
  is =
      ap (λ (x : View). record x { queue = net w }) i.is
      ∙ ap (λ (x : Net). record v { queue = x }) h.is;
})
nic-Ensures v p q fault i h = elim h [ ]
nic-Ensures v p q waiting i (blocks w) = blocks w

endpoint-Ensures :
    {W A : Type 0} (v : View) (p : Pdev) (o : Outcome Endpoint A)
    → Shows v p
    → Ensures W (λ _ _. Unit {0}) o
    → Ensures W
        (λ (a : A). Shows v)
        (elim o [ done a s ↦ done a (record p { ep = s }) | fault ↦ fault | waiting ↦ waiting ])
endpoint-Ensures v p (done a s) i h = returns (record { is = i.is })
endpoint-Ensures v p fault i h = elim h [ ]
endpoint-Ensures v p waiting i (blocks w) = blocks w

dio-Ensures :
    {W A : Type 0} (v : View) (p : Pdev) (m : Mezzanine) (o : Outcome Driver A)
    → Shows v p
    → Ensures W (λ _. ShowsDio m) o
    → Ensures W
        (λ (a : A). Shows (record v { dio = m }))
        (elim o [ done a d ↦ done a (record p { dio = d }) | fault ↦ fault | waiting ↦ waiting ])
dio-Ensures v p m (done a d) i (returns h) = returns (record {
  is =
      ap (λ (x : View). record x { dio = mezzanine d }) i.is
      ∙ ap (λ (x : Mezzanine). record v { dio = x }) h.is;
})
dio-Ensures v p m fault i h = elim h [ ]
dio-Ensures v p m waiting i (blocks w) = blocks w

module _ {W : Type 0} (v : View) where
  pub on_nic-Shows :
      {A : Type 0} (block : ℕ) (m : N A) (q : Net)
      → Usable block v
      → Triple W (ShowsNet v.queue) m (λ _. ShowsNet q)
      → Triple W (Shows v) (on_nic block m) (λ _. Shows (record v { queue = q }))
  unfolding on_nic
  on_nic-Shows block m q u t = record {
    at = λ p i. if_true (is_usable block p) _ fault (Usable-at block v p u i) (
        nic-Ensures v p q (m p.wrn) i
          (t.at p.wrn (record { is = ap (λ (x : View). x.queue) i.is })));
  }

  pub on_endpoint-Shows :
      {A : Type 0} (m : E A)
      → Usable fb_ep v
      → Triple W (λ _. Unit {0}) m (λ _ _. Unit {0})
      → Keeps W (Shows v) (on_endpoint m)
  unfolding on_endpoint
  on_endpoint-Shows m u t = record {
    at = λ p i.
        if_true (is_usable fb_ep p) _ fault (Usable-at fb_ep v p u i)
          (endpoint-Ensures v p (m p.ep) i (t.at p.ep tt));
  }

  pub on_mezzanine-Shows :
      {A : Type 0} (b : Bool) (m : M A) (c : Mezzanine)
      → v.wrdio ≡ true
      → Triple W (ShowsDio v.dio) m (λ _. ShowsDio c)
      → Triple W (Shows v) (on_mezzanine b m) (λ _. Shows (record v { dio = c }))
  unfolding on_mezzanine
  on_mezzanine-Shows b m c u t = record {
    at = λ p i.
        if_true (p.wrdio || not b) _ fault
          (ap (λ (x : View). x.wrdio || not b) i.is ∙ ap (λ (x : Bool). x || not b) u)
          (dio-Ensures v p c (m p.dio) i
            (t.at p.dio (record { is = ap (λ (x : View). x.dio) i.is })));
  }

  pub set_dev-Shows :
      (b : Bool) → Triple W (Shows v) (set_dev b) (λ _. Shows (record v { dev = b }))
  unfolding set_dev
  set_dev-Shows b = record {
    at = λ p i. returns (record { is = ap (λ (x : View). record x { dev = b }) i.is });
  }

  pub set_shortcuts-Shows :
      Triple W (Shows v) set_shortcuts (λ _. Shows (record v { shortcuts = true }))
  unfolding set_shortcuts
  set_shortcuts-Shows = record {
    at = λ p i. returns (record { is = ap (λ (x : View). record x { shortcuts = true }) i.is });
  }

  pub alloc_netdev-Shows :
      Triple W (Shows v) alloc_netdev (λ _. Shows (record v { netdevs = v.netdevs + 1 }))
  unfolding alloc_netdev
  alloc_netdev-Shows = record {
    at = λ p i.
        returns (record { is = ap (λ (x : View). record x { netdevs = x.netdevs + 1 }) i.is });
  }

  pub set_base-Shows :
      (n : ℕ)
      → Triple W (Shows v) (set_base n) (λ _. Shows (record v { bases = Base.set v.bases n true }))
  unfolding set_base
  set_base-Shows n = record {
    at = λ p i.
        returns
          (record { is = ap (λ (x : View). record x { bases = Base.set x.bases n true }) i.is });
  }

  pub unmap_bases-Shows :
      Triple W (Shows v) unmap_bases (λ _. Shows (record v { bases = replicate 4 false }))
  unfolding unmap_bases
  unmap_bases-Shows = record {
    at = λ p i.
        returns (record { is = ap (λ (x : View). record x { bases = replicate 4 false }) i.is });
  }

  pub get_pdev-Shows : Triple W (Shows v) get_pdev (λ x p. Shows v x × Shows v p)
  unfolding get_pdev
  get_pdev-Shows = record { at = λ p i. returns (i, i) }

  pub free_netdev-Shows :
      Triple W (Shows v) free_netdev (λ _. Shows (record v { netdevs = v.netdevs - 1 }))
  unfolding free_netdev
  free_netdev-Shows = record {
    at = λ p i.
        returns (record { is = ap (λ (x : View). record x { netdevs = x.netdevs - 1 }) i.is });
  }
