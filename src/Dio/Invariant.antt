-- ===== src/Dio/Invariant.antt =====
-- The invariant of the driver's state, and that the accesses of wr-nic-dio.c keep it: no index
-- leaves its array, no shift is too wide, and the spinlock is where it should be.
use sbndaq_wr.Base.{
  get_elem?_in, ℕ, zero, suc, ◌*◌, ◌^◌, ◌<◌, ◌≡◌, refl, ◌∙◌, List, [], ◌∷◌, Option, some, Bool,
  true, false, arith, length, get_elem?, set, length-set, checked, lt→ltb,
}
use sbndaq_wr.Base.Triples.{returns, Triple, Keeps, Keeps-pure, Triple-checked}
use sbndaq_wr.Mmio.{Addr, Env, u32}
use sbndaq_wr.Dio.Device.{
  regmap, Channel, Driver, readl, writel, shl, spin_lock, spin_unlock, channel_at, store_channel,
}
use sbndaq_wr.Dio.Ring.Queue.{IsRing}
use sbndaq_wr.Dio.Pulse.{map_at, offset_at}

-- A channel with a good ring, whose loop fires an existing channel.
pub record IsChannel (c : Channel) : Type 0 where
  pub ring : IsRing c
  pub target_in : c.target_channel < 5

abbrev pub AllChannels : List Channel → Type 0
AllChannels [] = Unit
AllChannels (c ∷ cs) = IsChannel c × AllChannels cs

pub record IsDriver (locked : Bool) (d : Driver) : Type 0 where
  pub channels : length d.ch ≡ 5
  pub offsets : length d.pulse_offsets ≡ 5
  pub each : AllChannels d.ch
  pub lock : d.hw_lock ≡ locked

pub AllChannels-get :
    (cs : List Channel) (i : ℕ) {c : Channel}
    → AllChannels cs
    → get_elem? cs i ≡ some c
    → IsChannel c
AllChannels-get [] i a e = cc
AllChannels-get (x ∷ cs) zero a e = ground arith
AllChannels-get (x ∷ cs) (suc i) a e = AllChannels-get cs i a.1 e

pub AllChannels-set :
    (cs : List Channel) (i : ℕ) {c : Channel}
    → AllChannels cs
    → IsChannel c
    → AllChannels (set cs i c)
AllChannels-set [] i a v = tt
AllChannels-set (x ∷ cs) zero a v = (v, a.1)
AllChannels-set (x ∷ cs) (suc i) a v = (a.0, AllChannels-set cs i a.1 v)

pub checked-Keeps :
    {W A : Type 0} {P : Driver → Type 0} (o : Option A) (a : A) → o ≡ some a → Keeps W P (checked o)
checked-Keeps o a e = Triple-checked a e (λ s p. p)

module _ {W : Type 0} {locked : Bool} where
  pub readl-Keeps : (e : Env) (a : Addr) → Keeps W (IsDriver locked) (readl e a)
  readl-Keeps e a = record {
    at = λ d v.
        returns
          (record { channels = v.channels; offsets = v.offsets; each = v.each; lock = v.lock });
  }

  pub writel-Keeps : (x : ℕ) (a : Addr) → Keeps W (IsDriver locked) (writel x a)
  writel-Keeps x a = record {
    at = λ d v.
        returns
          (record { channels = v.channels; offsets = v.offsets; each = v.each; lock = v.lock });
  }

  pub shl-Keeps : (x k : ℕ) → k < 32 → Keeps W (IsDriver locked) (shl x k)
  shl-Keeps x k h = rw (lt→ltb k 32 h) (Keeps-pure (u32 (x * 2 ^ k)))

  pub map_at-Keeps : (i : ℕ) → i < 5 → Keeps W (IsDriver locked) (map_at i)
  map_at-Keeps i h = let (m, e) = get_elem?_in regmap i h in checked-Keeps (get_elem? regmap i) m e

  pub offset_at-Keeps : (i : ℕ) → i < 5 → Keeps W (IsDriver locked) (offset_at i)
  offset_at-Keeps i h = record {
    at = λ d v.
        let (x, e) = get_elem?_in d.pulse_offsets i (omega (arith, v.offsets)) in rw e (returns v);
  }

  -- A channel that is read is a good one.
  pub channel_at-Triple :
      (i : ℕ)
      → i < 5
      → Triple W (IsDriver locked) (channel_at i) (λ c d. IsChannel c × IsDriver locked d)
  channel_at-Triple i h = record {
    at = λ d v.
        let (c, e) = get_elem?_in d.ch i (omega (arith, v.channels)) in
        rw e (returns (AllChannels-get d.ch i v.each e, v));
  }

  pub store_channel-Keeps :
      (i : ℕ) (c : Channel) → IsChannel c → i < 5 → Keeps W (IsDriver locked) (store_channel i c)
  store_channel-Keeps i c good h = record {
    at = λ d v.
        let (old, there) = get_elem?_in d.ch i (omega (arith, v.channels)) in
        rw (store_channel, there)
          (returns (record {
            channels = length-set d.ch i c ∙ v.channels;
            offsets = v.offsets;
            each = AllChannels-set d.ch i v.each good;
            lock = v.lock;
          }));
  }

module _ {W : Type 0} where
  pub spin_lock-Triple : Triple W (IsDriver false) spin_lock (λ _. IsDriver true)
  spin_lock-Triple = record {
    at = λ d v. rw v.lock (
        returns
          (record { channels = v.channels; offsets = v.offsets; each = v.each; lock = refl }));
  }

  pub spin_unlock-Triple : {l : Bool} → Triple W (IsDriver l) spin_unlock (λ _. IsDriver false)
  spin_unlock-Triple = record {
    at = λ d v.
        returns (record { channels = v.channels; offsets = v.offsets; each = v.each; lock = refl });
  }
