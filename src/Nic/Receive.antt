-- ===== src/Nic/Receive.antt =====
-- Reception: `__wrn_rx_descriptor` with `__wrn_copy_in`, and `wrn_rx_interrupt`.
pub mod Account
use sbndaq_wr.Base.{
  ℕ, zero, suc, ◌+◌, ◌-◌, ◌*◌, ◌/◌, ◌%◌, ◌^◌, List, [], ◌∷◌, Option, none, some, Bool, true, false,
  not, bit_or, ◌||◌, Program, done, fault, waiting, pure, ◌>>=◌, ◌>>◌, stop, ltb, ◌==◌, has_bits,
  if◌then◌else◌,
}
use sbndaq_wr.Mmio.{Addr, databuf, read, write, Timespec, Env, u32}
use sbndaq_wr.Nic.State.{
  Stats, Frame, Wrn, N, readl, writel, get, put, rx1, rx2, rx3, eic_ier, ddata_offset, next_desc,
  ddir_rx, desc_offset, copy_rounds, mem_bytes, ppsg_read_time, stamp_time,
}

abbrev pub rx_empty : ℕ
rx_empty = 1

abbrev pub rx_error : ℕ
rx_error = 2

abbrev pub rx_got_ts : ℕ
rx_got_ts = 2 ^ 14

abbrev pub rx_ts_incorrect : ℕ
rx_ts_incorrect = 2 ^ 15

-- The seconds with the mark that the falling counter is one tick behind, and without it again.
abbrev pub clear_ahead : ℕ → ℕ → Timespec → Timespec
clear_ahead ts_r ts_f ts =
    let ahead = ts_r % 16 == ts_f + 1 || ts_r % 16 + 15 == ts_f in
    record {
      tv_sec = (if ahead then bit_or ts.tv_sec (2 ^ 31) else ts.tv_sec) % 2 ^ 31;
      tv_nsec = ts.tv_nsec % 2 ^ 31;
    }

module _ (e : Env) where
  -- `__wrn_copy_in`: the words from byte `from` of the packet memory on, which ends.
  unfoldable pub copy_in : ℕ → ℕ → N (List ℕ)
  copy_in zero from = pure []
  copy_in (suc rounds) from = do
    x ← if ltb (from + 3) mem_bytes then readl e (databuf from) else stop
    rest ← copy_in rounds (from + 4)
    pure (x ∷ rest)

  -- The descriptor is given back with its whole buffer.
  unfoldable pub give_back : ℕ → N (Unit {0})
  unfolding desc_offset
  give_back desc = do
    writel (bit_or (2000 * 2 ^ 16) (desc_offset ddir_rx desc)) (rx3 desc)
    writel rx_empty (rx1 desc)

  unfoldable pub deliver : Frame → N (Unit {0})
  deliver f w = done tt (record w {
    received = f ∷ w.received;
    stats = record w.stats {
      rx_packets = w.stats.rx_packets + 1;
      rx_bytes = w.stats.rx_bytes + f.len;
    };
  })

  unfoldable pub count_error : N (Unit {0})
  count_error w =
      done tt (record w { stats = record w.stats { rx_errors = w.stats.rx_errors + 1 } })

  -- A good frame: its port must be the one endpoint, and its buffer must have been allocated.
  unfoldable pub receive_frame : Bool → ℕ → ℕ → ℕ → ℕ → N (Unit {0})
  unfolding copy_in give_back deliver ppsg_read_time stamp_time
  receive_frame allocated desc r1 r2 r3 =
      let ts_r = r2 % 2 ^ 28 in
      let ts_f = r2 / 2 ^ 28 % 2 ^ 4 in
      let len = r3 / 2 ^ 16 % 2 ^ 16 in
      if r1 / 2 ^ 8 % 2 ^ 6 == 0
      then (if allocated
          then (do
            words ← copy_in (copy_rounds (len + ddata_offset)) (r3 % 2 ^ 16)
            give_back desc
            time ← ppsg_read_time e
            let ts = clear_ahead ts_r ts_f (stamp_time time.0 time.1 ts_r)
            deliver (record {
              words = words;
              len = len;
              hwtstamp = if has_bits r1 rx_ts_incorrect then none else some ts;
            }))
          else stop)
      else stop

  -- `__wrn_rx_descriptor`.
  unfoldable pub rx_descriptor : Bool → ℕ → N (Unit {0})
  unfolding receive_frame give_back count_error
  rx_descriptor allocated desc = do
    r1 ← readl e (rx1 desc)
    r2 ← readl e (rx2 desc)
    r3 ← readl e (rx3 desc)
    if has_bits r1 rx_error || not (has_bits r1 rx_got_ts)
        then (give_back desc >> count_error)
        else receive_frame allocated desc r1 r2 r3

  -- The `while` loop of `wrn_rx_interrupt`, with fuel for the descriptors that are full.
  unfoldable pub rx_loop : ℕ → (ℕ → Bool) → N (Unit {0})
  unfolding rx_descriptor next_desc
  rx_loop zero allocated = λ w. waiting
  rx_loop (suc fuel) allocated = do
    w ← get
    reg ← readl e (rx1 w.next_rx)
    if has_bits reg rx_empty then pure tt else (do
      rx_descriptor (allocated w.next_rx) w.next_rx
      w' ← get
      put (record w' { next_rx = next_desc w.next_rx })
      rx_loop fuel allocated)

  -- `wrn_rx_interrupt`: at the end the interrupt is enabled again.
  unfoldable pub rx_interrupt : ℕ → (ℕ → Bool) → N (Unit {0})
  unfolding rx_loop
  rx_interrupt fuel allocated = do rx_loop fuel allocated; writel 1 eic_ier
