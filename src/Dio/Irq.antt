-- ===== src/Dio/Irq.antt =====
-- `wrn_dio_interrupt`: the rate limiter, the time-stamp FIFOs, and the pulses that inputs fire.
-- The readings of `ktime_get` are arguments, as is the presence of the mezzanine's EEPROM.
pub mod Safety
use sbndaq_wr.Base.{
  ℕ, zero, suc, ◌+◌, ◌-◌, ◌*◌, ◌/◌, ◌%◌, ◌^◌, ◌<◌, ◌≤◌, List, [], ◌∷◌, Option, none, some, Bool,
  not, true, false, ◌&&◌, ◌||◌, xor, bit_and, bit_or, Program, pure, ◌>>=◌, ◌>>◌, checked, done,
  fault, waiting, stop, when, ltb, ◌==◌, has_bits, if◌then◌else◌,
}
use sbndaq_wr.Base.Bits.{bit_not32}
use sbndaq_wr.Mmio.{Addr, vic, read, write, Timespec, Env, u32, u64, sub64, zero_time}
use sbndaq_wr.Dio.Device.{
  Regmap, Channel, Driver, eic_idr, eic_isr, M, readl, writel, shl, spin_lock, spin_unlock,
  channel_at, store_channel,
}
use sbndaq_wr.Dio.Ring.{publish, fill}
use sbndaq_wr.Dio.Pulse.{map_at, ts_sub, trig_next_pulse, set_hi32}

pub data IrqReturn : Type 0 where
  irq_none irq_handled : IrqReturn

abbrev pub vic_idr : Addr
vic_idr = vic 0x0c

abbrev pub vic_mask_dio : ℕ
vic_mask_dio = 4

-- `WRN_DIO_IRQ_MASK`: the five FIFOs.
abbrev pub irq_mask : ℕ
irq_mask = 0x1f

-- `int` values as bit patterns: the sign, the absolute value, and division towards zero, which
-- traps for a divisor of zero and for the least `int` by -1.
abbrev pub is_negative32 : ℕ → Bool
is_negative32 n = ltb (2 ^ 31 - 1) n

abbrev pub abs32 : ℕ → ℕ
abs32 n = if is_negative32 n then 2 ^ 32 - n else n

abbrev pub negate32 : ℕ → ℕ
negate32 n = (2 ^ 32 - n) % 2 ^ 32

unfoldable pub div32 : ℕ → ℕ → Option ℕ
div32 a b =
    let q = abs32 a / abs32 b in
    if b == 0 || (a == 2 ^ 31 && b == 2 ^ 32 - 1)
    then none
    else some (if xor (is_negative32 a) (is_negative32 b) then negate32 q else q)

-- The load of the last round in percent; `none` is a division that traps.
unfoldable pub load_rate : ℕ → ℕ → Option ℕ
unfolding div32
load_rate ontime offtime =
    if ltb (u64 (100 * ontime)) offtime
    then some 0
    else div32 (u32 (u32 ontime * 100)) (u32 offtime)

abbrev pub set_rate : ℕ → ℕ → M (Unit {0})
set_rate now avg d = done tt (record d { t_ini = now; rate_avg = avg })

-- The first part of the handler: the running average of the load, and the switch-off above 80.
unfoldable pub limit_rate : ℕ → M (Unit {0})
limit_rate now d =
    if d.t_end == 0
    then done tt d
    else (checked (load_rate (sub64 d.t_end d.t_ini) (sub64 now d.t_end)) >>= λ rate.
          checked (div32 (u32 (d.rate_avg * 1023 + rate)) 1024) >>= λ avg. set_rate now avg >>= λ _.
          when (ltb 80 avg && not (is_negative32 avg)) (writel vic_mask_dio vic_idr))
        d

abbrev pub set_end : ℕ → M (Unit {0})
set_end now d = done tt (record d { t_end = now })

module _ (e : Env) where
  -- A stamp out of the three data registers of a FIFO, 5 cycles of 8 ns earlier.
  unfoldable pub stamp_of : ℕ → ℕ → ℕ → Timespec
  unfolding ts_sub
  stamp_of tai_h tai_l cycles =
      ts_sub e (record { tv_sec = bit_or (set_hi32 0 tai_h) tai_l; tv_nsec = u32 (8 * cycles) }) 40

  -- The `while` loop that empties a FIFO into the ring, with fuel; its result is `ts`, the last
  -- stamp. The fuel bounds how many samples the card holds.
  unfoldable pub pull : ℕ → ℕ → Regmap → Option Timespec → M (Option Timespec)
  unfolding publish fill stamp_of
  pull zero ch map last = λ d. waiting
  pull (suc fuel) ch map last = do
    status ← readl e map.fifo_status
    if has_bits status 0x20000 then pure last else (do
      c ← channel_at ch
      store_channel ch (publish c)
      tai_h ← readl e map.fifo_tai_h
      tai_l ← readl e map.fifo_tai_l
      cycles ← readl e map.fifo_cycle
      let ts = stamp_of tai_h tai_l cycles
      c' ← checked (fill c.bhead ts (publish c))
      store_channel ch c'
      pull fuel ch map (some ts))

  -- A stamp fires the next pulse of its channel, unless the count is used up.
  unfoldable pub trigger : ℕ → Option Timespec → M (Unit {0})
  unfolding trig_next_pulse
  trigger ch none = pure tt
  trigger ch (some ts) = do
    c ← channel_at ch
    if c.count == 0 then pure tt else trig_next_pulse e ch ts

  -- The body of the `for` loop for a channel whose bit is set.
  unfoldable pub service : ℕ → ℕ → M (Unit {0})
  unfolding pull trigger
  service fuel ch = do
    map ← map_at ch
    last ← pull fuel ch map none
    bit ← shl 1 ch
    writel bit eic_isr
    trigger ch last

  -- The `for` loop from channel `ch` on, with `rounds` channels left; it ends when `mask` is zero.
  unfoldable pub service_all : ℕ → ℕ → ℕ → ℕ → M (Unit {0})
  unfolding service
  service_all fuel zero ch mask = if mask == 0 then pure tt else λ d. waiting
  service_all fuel (suc rounds) ch mask =
      let rest = service_all fuel rounds (ch + 1) in
      if mask == 0
      then pure tt
      else (shl 1 ch >>= λ chm.
          if has_bits mask chm
          then (service fuel ch >> rest (bit_and mask (bit_not32 chm)))
          else rest mask)

  -- `wrn_dio_interrupt`; `started` and `ended` are the readings of the clock.
  unfoldable pub interrupt : ℕ → Bool → ℕ → ℕ → M IrqReturn
  unfolding limit_rate service_all
  interrupt fuel eeprom started ended =
      if eeprom
      then (do
        limit_rate started
        isr ← readl e eic_isr
        spin_lock
        service_all fuel 5 0 (bit_and isr irq_mask)
        spin_unlock
        set_end ended
        pure irq_handled)
      else (do writel (2 ^ 32 - 1) eic_idr; writel (2 ^ 32 - 1) eic_isr; pure irq_none)
