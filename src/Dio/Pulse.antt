-- ===== src/Dio/Pulse.antt =====
-- Output pulses: `wrn_ts_sub`, `__wrn_new_pulse`, `wrn_dio_cmd_pulse` and `wrn_trig_next_pulse`.
-- The difference that `__wrn_new_pulse` computes for its last trace message is left out; the
-- register reads that it is computed from are here.
pub mod Safety
use sbndaq_wr.Base.{
  ℕ, suc, ◌+◌, ◌-◌, ◌*◌, ◌/◌, ◌%◌, ◌^◌, ◌<◌, ◌≤◌, List, Bool, not, get_elem?, set, bit_or, Program,
  pure, ◌>>=◌, ◌>>◌, checked, when, done, fault, waiting, ltb, ◌==◌, has_bits, if◌then◌else◌,
  length,
}
use sbndaq_wr.Mmio.{
  Addr, ppsg, read, write, Timespec, Env, u32, u64, add64, sub64, sign_extend, div64, is_positive32,
}
use sbndaq_wr.Dio.Device.{
  Regmap, regmap, Channel, Driver, Cmd, Ret, ok, einval, f_now, f_rel, f_loop, f_pulsoff, iomode,
  r_latch, pulse_now, M, readl, writel, shl, spin_lock, spin_unlock, channel_at, store_channel,
}

abbrev pub cntr_nsec : Addr
cntr_nsec = ppsg 0x04

abbrev pub cntr_utclo : Addr
cntr_utclo = ppsg 0x08

abbrev pub cntr_utchi : Addr
cntr_utchi = ppsg 0x0c

-- `SET_HI32` and `GET_HI32` on a 64-bit machine.
abbrev pub set_hi32 : ℕ → ℕ → ℕ
set_hi32 var value = u64 (bit_or var (value * 2 ^ 32))

abbrev pub get_hi32 : ℕ → ℕ
get_hi32 var = var / 2 ^ 32

-- `map = regmap + ch`, and its use.
abbrev pub map_at : ℕ → M Regmap
map_at ch = checked (get_elem? regmap ch)

abbrev pub offset_at : ℕ → M ℕ
offset_at ch d = checked (get_elem? d.pulse_offsets ch) d

-- The count without the pulse that the command itself programs.
abbrev pub loop_value : Cmd → ℕ
loop_value cmd = if ltb 0 cmd.value then cmd.value - 1 else cmd.value

abbrev pub armed : ℕ → ℕ → Timespec → Timespec → Channel → Channel
armed ch value start period c = record c {
  target_channel = ch;
  count = value;
  prevts = start;
  delay = period;
}

-- A loop on the channel itself keeps its new set point.
abbrev pub set_point : ℕ → Timespec → Channel → Channel
set_point ch at c = record c { prevts = if c.target_channel == ch then at else c.prevts }

-- A count that is above zero goes down.
abbrev pub count_down : Channel → Channel
count_down c = record c { count = if is_positive32 c.count then c.count - 1 else c.count }

-- The command with another `t[0]`.
abbrev pub set_t0 : Cmd → Timespec → Cmd
set_t0 cmd ts = record cmd { t = set cmd.t 0 ts }

-- With `WR_DIO_F_LOOP` the channel remembers the set point, the period and the count.
unfoldable pub arm_loop : ℕ → Cmd → M Cmd
arm_loop ch cmd =
    if has_bits cmd.flags f_loop
    then (do
      c ← channel_at ch
      start ← checked (get_elem? cmd.t 0)
      period ← checked (get_elem? cmd.t 2)
      store_channel ch (armed ch (loop_value cmd) start period c)
      pure (record cmd { value = loop_value cmd }))
    else pure cmd

unfoldable pub set_offset : ℕ → ℕ → M (Unit {0})
set_offset ch value d =
    if ltb ch (length d.pulse_offsets)
    then done tt (record d { pulse_offsets = set d.pulse_offsets ch value })
    else fault

module _ (e : Env) where
  unfoldable pub ts_sub : Timespec → ℕ → Timespec
  ts_sub ts nano = e.set_normalized ts.tv_sec (sub64 ts.tv_nsec nano)

  -- The high word of the seconds, the low word, and the low word again if a carry came between.
  unfoldable pub read_utc : M (ℕ × ℕ)
  read_utc = do
    h1 ← readl e cntr_utchi
    l ← readl e cntr_utclo
    h2 ← readl e cntr_utchi
    l' ← if h2 == h1 then pure l else readl e cntr_utclo
    pure (l', h2)

  -- The time that is reported in the trace, read for its effect on the card.
  unfoldable pub read_now : M (Unit {0})
  unfolding read_utc
  read_now = do
    utc ← read_utc
    _ ← readl e cntr_nsec
    low2 ← readl e cntr_utclo
    if low2 == utc.0
        then pure tt
        else readl e cntr_utchi >>= λ _. readl e cntr_nsec >>= λ _. pure tt

  -- What `__wrn_new_pulse` makes of `*ts` before it writes it to the card.
  unfoldable pub trigger_time : ℕ → Timespec → Timespec
  unfolding ts_sub
  trigger_time offset ts =
      ts_sub (e.set_normalized ts.tv_sec (add64 ts.tv_nsec (sign_extend offset))) 8

  unfoldable pub new_pulse : ℕ → Timespec → M Timespec
  unfolding trigger_time read_now
  new_pulse ch ts = do
    map ← map_at ch
    offset ← offset_at ch
    let at = trigger_time offset ts
    writel (div64 at.tv_nsec 8) map.cycle
    writel (get_hi32 at.tv_sec) map.trig_h
    writel at.tv_sec map.trig_l
    bit ← shl 1 ch
    writel bit r_latch
    read_now
    pure at

  -- The output mode of the channel and the width of the pulse.
  unfoldable pub configure_output : ℕ → Cmd → M (Unit {0})
  configure_output ch cmd = do
    reg ← readl e iomode
    bit ← shl 1 (4 * ch)
    writel (bit_or reg bit) iomode
    width ← checked (get_elem? cmd.t 1)
    map ← map_at ch
    writel (div64 width.tv_nsec 8) map.pulse

  -- With `WR_DIO_F_REL` the current second is added to `t[0]`.
  unfoldable pub add_now : Cmd → M Cmd
  unfolding read_utc
  add_now cmd =
      if has_bits cmd.flags f_rel
      then (do
        utc ← read_utc
        ts ← checked (get_elem? cmd.t 0)
        pure (set_t0 cmd (record ts { tv_sec = add64 ts.tv_sec (set_hi32 utc.0 utc.1) })))
      else pure cmd

  unfoldable pub program_pulse : ℕ → Cmd → M (Ret × Cmd)
  unfolding new_pulse add_now arm_loop
  program_pulse ch cmd = do
    cmd ← add_now cmd
    cmd ← arm_loop ch cmd
    ts ← checked (get_elem? cmd.t 0)
    spin_lock
    ts ← new_pulse ch ts
    spin_unlock
    pure (ok, set_t0 cmd ts)

  -- `wrn_dio_cmd_pulse`, with the command as it is afterwards.
  unfoldable pub cmd_pulse : Cmd → M (Ret × Cmd)
  unfolding configure_output program_pulse set_offset
  cmd_pulse cmd =
      let ch = cmd.channel in
      if ltb 4 ch
      then pure (einval, cmd)
      else if has_bits cmd.flags f_pulsoff
      then (set_offset ch cmd.value >> pure (ok, cmd))
      else (do
        spin_lock
        configure_output ch cmd
        if has_bits cmd.flags f_now
            then (do bit ← shl 1 ch; writel bit pulse_now; spin_unlock; pure (ok, cmd))
            else (spin_unlock >> program_pulse ch cmd))

  -- The time of the pulse that an input event `ts` on channel `ch` fires.
  unfoldable pub next_time : ℕ → Channel → Timespec → Timespec
  next_time ch c ts =
      if c.target_channel == ch then e.timespec_add c.prevts c.delay else e.timespec_add ts c.delay

  -- `wrn_trig_next_pulse`, for the channel `c` of number `ch`.
  unfoldable pub trig_next_pulse : ℕ → Timespec → M (Unit {0})
  unfolding new_pulse next_time
  trig_next_pulse ch ts = do
    c ← channel_at ch
    let at = next_time ch c ts
    store_channel ch (set_point ch at c)
    _ ← new_pulse c.target_channel at
    store_channel ch (count_down (set_point ch at c))
