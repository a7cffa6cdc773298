-- ===== src/Dio/Pulse/Safety.antt =====
-- A pulse command keeps the driver's invariant, returns, and gives the spinlock back.
use sbndaq_wr.Base.{
  get_elem?_in, ℕ, ◌*◌, ◌<◌, ◌≡◌, ◌∙◌, Bool, true, false, arith, length, get_elem?, length-set, ltb,
  ◌==◌, has_bits, checked, bit_or, lt→ltb,
}
use sbndaq_wr.Base.Triples.{
  Triple, Keeps, returns, Triple-bind, Triple-pure, Keeps-pure, Triple-given, Triple-if,
}
use sbndaq_wr.Mmio.{Env, Timespec, div64}
use sbndaq_wr.Dio.Device.{
  Channel, Driver, Cmd, Ret, ok, einval, f_now, f_rel, f_loop, f_pulsoff, iomode, r_latch,
  pulse_now, n_stamp,
}
use sbndaq_wr.Dio.Pulse.{
  cntr_nsec, cntr_utclo, cntr_utchi, read_utc, read_now, trigger_time, new_pulse, set_t0,
  configure_output, add_now, arm_loop, program_pulse, set_offset, cmd_pulse, next_time,
  trig_next_pulse, get_hi32, armed, loop_value, set_point, count_down,
}
use sbndaq_wr.Dio.Invariant.{
  IsChannel, IsDriver, checked-Keeps, readl-Keeps, writel-Keeps, shl-Keeps, map_at-Keeps,
  offset_at-Keeps, channel_at-Triple, store_channel-Keeps, spin_lock-Triple, spin_unlock-Triple,
}

-- A command has its whole array of times.
abbrev pub IsCmd : Cmd → Type 0
IsCmd cmd = length cmd.t ≡ n_stamp

-- A reply, and the driver without the lock.
abbrev pub Replies : Ret × Cmd → Driver → Type 0
Replies r d = IsCmd r.1 × IsDriver false d

-- The ring of a channel with the fields that a loop sets.
same_ring :
    {c : Channel} {ch value : ℕ} {start period : Timespec}
    → IsChannel c
    → ch < 5
    → IsChannel (armed ch value start period c)
same_ring good h = record {
  ring = record {
    full_length = good.ring.full_length;
    head_in = good.ring.head_in;
    tail_in = good.ring.tail_in;
  };
  target_in = h;
}

module _ {W : Type 0} {locked : Bool} where
  -- The times that a command names by a number below 16 are there.
  time_at-Keeps :
      (cmd : Cmd) (i : ℕ)
      → IsCmd cmd
      → i < n_stamp
      → Keeps W (IsDriver locked) (checked (get_elem? cmd.t i))
  time_at-Keeps cmd i c h =
      let (x, found) = get_elem?_in cmd.t i (omega arith) in
      checked-Keeps (get_elem? cmd.t i) x found

  arm_loop-Triple :
      (ch : ℕ) (cmd : Cmd)
      → ch < 5
      → IsCmd cmd
      → Triple W (IsDriver locked) (arm_loop ch cmd) (λ cmd' d. IsCmd cmd' × IsDriver locked d)
  unfolding arm_loop
  arm_loop-Triple ch cmd h c =
      Triple-if (has_bits cmd.flags f_loop)
        (λ _. Triple-bind (channel_at-Triple ch h) λ old. Triple-given λ good.
          Triple-bind (time_at-Keeps cmd 0 c (omega arith)) λ start.
            Triple-bind (time_at-Keeps cmd 2 c (omega arith)) λ period.
              Triple-bind
                (store_channel-Keeps ch (armed ch (loop_value cmd) start period old)
                  (same_ring good h) h)
                λ _. Triple-pure (record cmd { value = loop_value cmd }) (λ d v. (c, v)))
        (λ _. Triple-pure cmd (λ d v. (c, v)))

module _ {W : Type 0} where
  set_offset-Keeps : (ch value : ℕ) → ch < 5 → Keeps W (IsDriver false) (set_offset ch value)
  unfolding set_offset
  set_offset-Keeps ch value h = record {
    at = λ d v. rw (lt→ltb ch (length d.pulse_offsets) (omega (arith, v.offsets))) (
        returns (record {
          channels = v.channels;
          offsets = length-set d.pulse_offsets ch value ∙ v.offsets;
          each = v.each;
          lock = v.lock;
        }));
  }

module _ (e : Env) {W : Type 0} {locked : Bool} where
  read_utc-Keeps : Keeps W (IsDriver locked) (read_utc e)
  unfolding read_utc
  read_utc-Keeps = Triple-bind (readl-Keeps e cntr_utchi) λ h1.
      Triple-bind (readl-Keeps e cntr_utclo) λ l. Triple-bind (readl-Keeps e cntr_utchi) λ h2.
        Triple-bind (Triple-if (h2 == h1) (λ _. Keeps-pure l) (λ _. readl-Keeps e cntr_utclo))
          λ l'. Keeps-pure (l', h2)

  read_now-Keeps : Keeps W (IsDriver locked) (read_now e)
  unfolding read_now
  read_now-Keeps = Triple-bind read_utc-Keeps λ utc. Triple-bind (readl-Keeps e cntr_nsec) λ _.
      Triple-bind (readl-Keeps e cntr_utclo) λ low2.
        Triple-if (low2 == utc.0) (λ _. Keeps-pure tt)
          λ _.
            Triple-bind (readl-Keeps e cntr_utchi)
              λ _. Triple-bind (readl-Keeps e cntr_nsec) λ _. Keeps-pure tt

  pub new_pulse-Keeps :
      (ch : ℕ) (ts : Timespec) → ch < 5 → Keeps W (IsDriver locked) (new_pulse e ch ts)
  unfolding new_pulse
  new_pulse-Keeps ch ts h = Triple-bind (map_at-Keeps ch h) λ map.
      Triple-bind (offset_at-Keeps ch h) λ offset.
        let at : Timespec = trigger_time e offset ts in
        Triple-bind (writel-Keeps (div64 at.tv_nsec 8) map.cycle) λ _.
          Triple-bind (writel-Keeps (get_hi32 at.tv_sec) map.trig_h) λ _.
            Triple-bind (writel-Keeps at.tv_sec map.trig_l) λ _.
              Triple-bind (shl-Keeps 1 ch (omega arith)) λ bit.
                Triple-bind (writel-Keeps bit r_latch)
                  λ _. Triple-bind read_now-Keeps λ _. Keeps-pure at

  configure_output-Keeps :
      (ch : ℕ) (cmd : Cmd)
      → ch < 5
      → IsCmd cmd
      → Keeps W (IsDriver locked) (configure_output e ch cmd)
  unfolding configure_output
  configure_output-Keeps ch cmd h c = Triple-bind (readl-Keeps e iomode) λ reg.
      Triple-bind (shl-Keeps 1 (4 * ch) (omega arith)) λ bit.
        Triple-bind (writel-Keeps (bit_or reg bit) iomode) λ _.
          Triple-bind (time_at-Keeps cmd 1 c (omega arith)) λ width.
            Triple-bind (map_at-Keeps ch h) λ map. writel-Keeps (div64 width.tv_nsec 8) map.pulse

  add_now-Triple :
      (cmd : Cmd)
      → IsCmd cmd
      → Triple W (IsDriver locked) (add_now e cmd) (λ cmd' d. IsCmd cmd' × IsDriver locked d)
  unfolding add_now
  add_now-Triple cmd c =
      Triple-if (has_bits cmd.flags f_rel)
        (λ _. Triple-bind read_utc-Keeps λ utc.
          Triple-bind (time_at-Keeps cmd 0 c (omega arith))
            λ ts. Triple-pure _ (λ d v. (length-set cmd.t 0 _ ∙ c, v)))
        (λ _. Triple-pure cmd (λ d v. (c, v)))

module _ (e : Env) {W : Type 0} where
  program_pulse-Triple :
      (ch : ℕ) (cmd : Cmd)
      → ch < 5
      → IsCmd cmd
      → Triple W (IsDriver false) (program_pulse e ch cmd) Replies
  unfolding program_pulse
  program_pulse-Triple ch cmd h c = Triple-bind (add_now-Triple e cmd c) λ cmd1. Triple-given λ c1.
      Triple-bind (arm_loop-Triple ch cmd1 h c1) λ cmd2. Triple-given λ c2.
        Triple-bind (time_at-Keeps cmd2 0 c2 (omega arith)) λ ts. Triple-bind spin_lock-Triple λ _.
          Triple-bind (new_pulse-Keeps e ch ts h) λ at.
            Triple-bind spin_unlock-Triple
              λ _. Triple-pure (ok, set_t0 cmd2 at) (λ d v. (length-set cmd2.t 0 at ∙ c2, v))

  -- In a good state with the lock free, a pulse command for any channel number returns, touches
  -- nothing out of bounds, and leaves a good state with the lock free.
  pub cmd_pulse-Triple :
      (cmd : Cmd) → IsCmd cmd → Triple W (IsDriver false) (cmd_pulse e cmd) Replies
  unfolding cmd_pulse
  cmd_pulse-Triple cmd c =
      Triple-if (ltb 4 cmd.channel) (λ _. Triple-pure (einval, cmd) (λ d v. (c, v)))
        λ valid.
          let h : cmd.channel < 5 = ground arith in
          Triple-if (has_bits cmd.flags f_pulsoff)
            (λ _.
              Triple-bind (set_offset-Keeps cmd.channel cmd.value h)
                λ _. Triple-pure (ok, cmd) (λ d v. (c, v)))
            λ _. Triple-bind spin_lock-Triple λ _.
              Triple-bind (configure_output-Keeps e cmd.channel cmd h c) λ _.
                Triple-if (has_bits cmd.flags f_now)
                  (λ _. Triple-bind (shl-Keeps 1 cmd.channel (omega arith)) λ bit.
                    Triple-bind (writel-Keeps bit pulse_now) λ _.
                      Triple-bind spin_unlock-Triple λ _. Triple-pure (ok, cmd) (λ d v. (c, v)))
                  (λ _.
                    Triple-bind spin_unlock-Triple λ _. program_pulse-Triple cmd.channel cmd h c)

  -- The pulse that an input fires is programmed with the lock held, and leaves a good state.
  pub trig_next_pulse-Keeps :
      (ch : ℕ) (ts : Timespec) → ch < 5 → Keeps W (IsDriver true) (trig_next_pulse e ch ts)
  unfolding trig_next_pulse
  trig_next_pulse-Keeps ch ts h = Triple-bind (channel_at-Triple ch h) λ c. Triple-given λ good.
      Triple-bind
        (store_channel-Keeps ch (set_point ch (next_time e ch c ts) c)
          (same_ring good good.target_in) h)
        λ _.
          Triple-bind (new_pulse-Keeps e c.target_channel (next_time e ch c ts) good.target_in) λ _.
            store_channel-Keeps ch (count_down (set_point ch (next_time e ch c ts) c))
              (same_ring good good.target_in) h
