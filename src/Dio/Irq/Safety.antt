-- ===== src/Dio/Irq/Safety.antt =====
-- The interrupt handler keeps the driver's invariant, and gives the spinlock back.
use sbndaq_wr.Base.{
  ℕ, zero, suc, ◌+◌, ◌*◌, ◌-◌, ◌^◌, ◌<◌, ◌≤◌, ◌≢◌, ◌≡◌, refl, inl, inr, Bool, true, false, not,
  arith, ltb, ◌==◌, ◌&&◌, ◌||◌, ◌⊎◌, Option, none, some, has_bits, if◌then◌else◌, bit_and, when,
  Bool-cases,
}
use sbndaq_wr.Base.Bits.{bit_not32}
use sbndaq_wr.Base.Triples.{
  Triple, Keeps, returns, blocks, Triple-bind, Keeps-pure, Triple-given, Triple-pre, Triple-if,
  checked-Triple,
}
use sbndaq_wr.Mmio.{Env, Timespec, sub64, u32, u64}
use sbndaq_wr.Dio.Device.{Regmap, Channel, Driver, eic_idr, eic_isr, M}
use sbndaq_wr.Dio.Ring.{publish, fill, next_index}
use sbndaq_wr.Dio.Ring.Queue.{IsRing}
use sbndaq_wr.Dio.Ring.Push.{pushed, pushed-IsRing}
use sbndaq_wr.Dio.Irq.{
  irq_handled, irq_none, vic_idr, vic_mask_dio, irq_mask, limit_rate, load_rate, div32,
  is_negative32, stamp_of, pull, trigger, service, service_all, set_end, set_rate, interrupt,
}
use sbndaq_wr.Dio.Pulse.Safety.{trig_next_pulse-Keeps}
use sbndaq_wr.Dio.Invariant.{
  IsChannel, IsDriver, checked-Keeps, readl-Keeps, writel-Keeps, shl-Keeps, map_at-Keeps,
  channel_at-Triple, store_channel-Keeps, spin_lock-Triple, spin_unlock-Triple,
}

-- The head has moved, and the stamp is not yet there.
publish-IsChannel : {c : Channel} → IsChannel c → IsChannel (publish c)
unfolding publish next_index
publish-IsChannel good = record { ring = ground (arith, good.ring); target_in = good.target_in }

filled : {c : Channel} (ts : Timespec) → IsRing c → fill c.bhead ts (publish c) ≡ some (pushed c ts)
unfolding fill publish
filled ts v = ground arith

pushed-IsChannel : {c : Channel} (ts : Timespec) → IsChannel c → IsChannel (pushed c ts)
unfolding publish
pushed-IsChannel ts good = record { ring = pushed-IsRing ts good.ring; target_in = good.target_in }

module _ (e : Env) where
  pull-Keeps :
      (fuel ch : ℕ) (map : Regmap) (last : Option Timespec)
      → ch < 5
      → Keeps (Unit {0}) (IsDriver true) (pull e fuel ch map last)
  unfolding pull
  pull-Keeps zero ch map last h = record { at = λ d v. blocks tt }
  pull-Keeps (suc fuel) ch map last h = Triple-bind (readl-Keeps e map.fifo_status) λ status.
      Triple-if (has_bits status 0x20000) (λ _. Keeps-pure last)
        λ _. Triple-bind (channel_at-Triple ch h) λ c. Triple-given λ good.
          Triple-bind (store_channel-Keeps ch (publish c) (publish-IsChannel good) h) λ _.
            Triple-bind (readl-Keeps e map.fifo_tai_h) λ tai_h.
              Triple-bind (readl-Keeps e map.fifo_tai_l) λ tai_l.
                Triple-bind (readl-Keeps e map.fifo_cycle) λ cycles.
                  let ts : Timespec = stamp_of e tai_h tai_l cycles in
                  Triple-bind
                    (checked-Triple IsChannel (fill c.bhead ts (publish c)) (pushed c ts)
                      (filled ts good.ring) (pushed-IsChannel ts good))
                    λ c'. Triple-given λ good'.
                      Triple-bind (store_channel-Keeps ch c' good' h)
                        λ _. pull-Keeps fuel ch map (some ts) h

  trigger-Keeps :
      (ch : ℕ) (last : Option Timespec)
      → ch < 5
      → Keeps (Unit {0}) (IsDriver true) (trigger e ch last)
  unfolding trigger
  trigger-Keeps ch none h = Keeps-pure tt
  trigger-Keeps ch (some ts) h = Triple-bind (channel_at-Triple ch h) λ c.
      Triple-given
        λ good. Triple-if (c.count == 0) (λ _. Keeps-pure tt) (λ _. trig_next_pulse-Keeps e ch ts h)

  service-Keeps : (fuel ch : ℕ) → ch < 5 → Keeps (Unit {0}) (IsDriver true) (service e fuel ch)
  unfolding service
  service-Keeps fuel ch h = Triple-bind (map_at-Keeps ch h) λ map.
      Triple-bind (pull-Keeps fuel ch map none h) λ last.
        Triple-bind (shl-Keeps 1 ch (omega arith))
          λ bit. Triple-bind (writel-Keeps bit eic_isr) λ _. trigger-Keeps ch last h

  service_all-Keeps :
      (fuel rounds ch mask : ℕ)
      → ch + rounds ≤ 5
      → Keeps (Unit {0}) (IsDriver true) (service_all e fuel rounds ch mask)
  unfolding service_all
  service_all-Keeps fuel zero ch mask h =
      Triple-if (mask == 0) (λ _. Keeps-pure tt) (λ _. record { at = λ d v. blocks tt })
  service_all-Keeps fuel (suc rounds) ch mask h =
      Triple-if (mask == 0) (λ _. Keeps-pure tt)
        λ _. Triple-bind (shl-Keeps 1 ch (omega arith)) λ chm.
          Triple-if (has_bits mask chm)
            (λ _. Triple-bind (service-Keeps fuel ch (omega arith)) λ _.
              service_all-Keeps fuel rounds (ch + 1) (bit_and mask (bit_not32 chm)) (omega arith))
            (λ _. service_all-Keeps fuel rounds (ch + 1) mask (omega arith))

-- The two quotients of the load that a processor cannot compute.
abbrev Divides : ℕ → ℕ → Type 0
Divides a b = (b ≢ 0) × ((a ≢ 2 ^ 31) ⊎ (b ≢ 2 ^ 32 - 1))

-- The clock has moved since the end `last` of the last interrupt by an amount that is no multiple of
-- 2^32, and the load of that interrupt, from `begun` to `last`, is not the least `int` over -1.
abbrev pub Moves : ℕ → ℕ → ℕ → Type 0
Moves now begun last = Divides (u32 (u32 (sub64 last begun) * 100)) (u32 (sub64 now last))

abbrev pub ClockMoves : ℕ → Driver → Type 0
ClockMoves now d = Moves now d.t_ini d.t_end

some_of_if : (b : Bool) (x : ℕ) → b ≡ false → (r : ℕ) × ((if b then none else some x) ≡ some r)
some_of_if b x h = (x, rw h refl)

trap_free : (a b : ℕ) → Divides a b → (b == 0 || (a == 2 ^ 31 && b == 2 ^ 32 - 1)) ≡ false
trap_free a b (h, inl p) = ground arith
trap_free a b (h, inr p) = ground arith

div32-some : (a b : ℕ) → Divides a b → (r : ℕ) × (div32 a b ≡ some r)
unfolding div32
div32-some a b h = some_of_if (b == 0 || (a == 2 ^ 31 && b == 2 ^ 32 - 1)) _ (trap_free a b h)

if_some :
    (b : Bool) (x : ℕ) (o : Option ℕ)
    → (r : ℕ) × (o ≡ some r)
    → (r : ℕ) × ((if b then some x else o) ≡ some r)
if_some true x o h = (x, refl)
if_some false x o h = h

load_rate-some :
    (ontime offtime : ℕ)
    → Divides (u32 (u32 ontime * 100)) (u32 offtime)
    → (r : ℕ) × (load_rate ontime offtime ≡ some r)
unfolding load_rate
load_rate-some ontime offtime h =
    if_some (ltb (u64 (100 * ontime)) offtime) 0 _
      (div32-some (u32 (u32 ontime * 100)) (u32 offtime) h)

when-Keeps :
    {W : Type 0} {P : Driver → Type 0} (b : Bool) {m : M (Unit {0})}
    → Keeps W P m
    → Keeps W P (when b m)
when-Keeps true k = k
when-Keeps false k = Keeps-pure tt

set_rate-Keeps : {W : Type 0} {l : Bool} (now avg : ℕ) → Keeps W (IsDriver l) (set_rate now avg)
set_rate-Keeps now avg = record {
  at = λ d v.
      returns (record { channels = v.channels; offsets = v.offsets; each = v.each; lock = v.lock });
}

limit_rate-Triple :
    (now : ℕ)
    → Triple
        (Unit {0})
        (λ d. ClockMoves now d × IsDriver false d)
        (limit_rate now)
        (λ _. IsDriver false)
unfolding limit_rate
limit_rate-Triple now = record {
  at = λ d v. elim (Bool-cases (d.t_end == 0)) [
    | inl first ↦ rw first (returns v.1)
    | inr later ↦
        let (rate, e1) = load_rate-some (sub64 d.t_end d.t_ini) (sub64 now d.t_end) v.0 in
        rw later (
          (Triple-bind (checked-Keeps _ rate e1) λ rate'.
              let (avg, e2) =
                div32-some (u32 (d.rate_avg * 1023 + rate')) 1024
                  ((λ h. omega arith), inr (λ h. omega arith)) in
              Triple-bind (checked-Keeps _ avg e2) λ avg'.
                Triple-bind (set_rate-Keeps now avg') λ _.
                  when-Keeps (ltb 80 avg' && not (is_negative32 avg'))
                    (writel-Keeps vic_mask_dio vic_idr)).at
            d v.1)
  ];
}

set_end-Keeps : {W : Type 0} {l : Bool} (now : ℕ) → Keeps W (IsDriver l) (set_end now)
set_end-Keeps now = record {
  at = λ d v.
      returns (record { channels = v.channels; offsets = v.offsets; each = v.each; lock = v.lock });
}

-- In a good state with the lock free, the handler touches nothing out of bounds, divides by no zero
-- if the clock has moved and the load is not the least `int` over -1, and if the FIFOs run empty it leaves a good state with the lock free.
pub interrupt-Triple :
    (e : Env) (fuel : ℕ) (eeprom : Bool) (started ended : ℕ)
    → Triple
        (Unit {0})
        (λ d. ClockMoves started d × IsDriver false d)
        (interrupt e fuel eeprom started ended)
        (λ _. IsDriver false)
unfolding interrupt
interrupt-Triple e fuel eeprom started ended =
    Triple-if eeprom
      (λ _. Triple-bind (limit_rate-Triple started) λ _. Triple-bind (readl-Keeps e eic_isr) λ isr.
        Triple-bind spin_lock-Triple λ _.
          Triple-bind (service_all-Keeps e fuel 5 0 (bit_and isr irq_mask) (omega arith)) λ _.
            Triple-bind spin_unlock-Triple
              λ _. Triple-bind (set_end-Keeps ended) λ _. Keeps-pure irq_handled)
      (λ _.
        Triple-bind (Triple-pre (λ d v. v.1) (writel-Keeps (2 ^ 32 - 1) eic_idr))
          λ _. Triple-bind (writel-Keeps (2 ^ 32 - 1) eic_isr) λ _. Keeps-pure irq_none)
