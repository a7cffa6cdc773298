-- ===== src/Dio/Stamp.antt =====
-- `wrn_dio_cmd_stamp`: reading the time stamps of one channel, or of the first of several that has
-- any. What happens while the call sleeps is a list of wake-ups.
pub mod Safety
pub mod Scan
pub mod Replies
use sbndaq_wr.Base.{
  ℕ, zero, suc, ◌+◌, ◌-◌, ◌*◌, ◌%◌, ◌^◌, ◌<◌, ◌≤◌, List, [], ◌∷◌, Bool, not, true, false, ◌&&◌,
  get_elem?, set, bit_and, Program, pure, ◌>>=◌, ◌>>◌, checked, done, fault, waiting, stop, ltb,
  ◌==◌, has_bits, if◌then◌else◌,
}
use sbndaq_wr.Mmio.{Timespec, u32}
use sbndaq_wr.Dio.Device.{
  Channel, Driver, Cmd, Ret, ok, einval, eagain, erestartsys, f_mask, f_wait, n_stamp, M, shl,
  channel_at, store_channel,
}
use sbndaq_wr.Dio.Ring.{push, drain}

-- What interrupts did since the call went to sleep, up to a moment at which it is looked at again.
pub record Wake : Type 0 where
  pub arrivals : List (ℕ × Timespec)
  pub signal : Bool

pub arrive : List (ℕ × Timespec) → M (Unit {0})
unfolding push
arrive [] = pure tt
arrive ((ch, ts) ∷ more) = do
  c ← channel_at ch
  c' ← checked (push c ts)
  store_channel ch c'
  arrive more

-- A pass over the channels: how many stamps it found, where it stood at its end, and the array.
pub record Pass : Type 0 where
  pub nstamp : ℕ
  pub ch : ℕ
  pub t : List Timespec

-- The `for` loop, with `rounds` channels left.
unfoldable pub scan : ℕ → ℕ → ℕ → List Timespec → M Pass
scan zero ch mask t = pure (record { nstamp = 0; ch = ch; t = t })
scan (suc rounds) ch mask t = do
  bit ← shl 1 ch
  let later = scan rounds (ch + 1) mask
  if has_bits bit mask
      then (do
        c ← channel_at ch
        found ← checked (drain n_stamp c 0 t)
        store_channel ch found.0
        if found.1 == 0
            then later found.2
            else pure (record { nstamp = found.1; ch = ch; t = found.2 }))
      else later t

-- From `again:` to the end of the `for` loop.
unfoldable pub pass : Cmd → M Pass
unfolding scan
pass cmd =
    if has_bits cmd.flags f_mask
    then scan 5 0 cmd.channel cmd.t
    else (do mask ← shl 1 cmd.channel; scan 1 cmd.channel mask cmd.t)

-- The rest of the function after a pass. `sleep` is the wait on a channel and all that follows.
unfoldable pub after_pass : (ℕ → Cmd → M (Ret × Cmd)) → Cmd → Pass → M (Ret × Cmd)
after_pass sleep cmd p =
    if p.nstamp == 0
    then (let cmd' = record cmd { nstamp = 0; t = p.t } in
        if has_bits cmd.flags f_wait then sleep (p.ch - 1) cmd' else pure (eagain, cmd'))
    else pure (ok, record cmd { channel = p.ch; nstamp = p.nstamp; t = p.t })

-- `wait_event_interruptible` on channel `ch`, and the way back to `again:`.
unfoldable pub sleep : List Wake → ℕ → Cmd → M (Ret × Cmd)
unfolding arrive pass after_pass
sleep [] ch cmd = λ d. waiting
sleep (w ∷ wakes) ch cmd = do
  arrive w.arrivals
  c ← channel_at ch
  if w.signal
      then pure (erestartsys, cmd)
      else if c.bhead == c.btail
      then sleep wakes ch cmd
      else (pass cmd >>= after_pass (sleep wakes) cmd)

-- The first test has `||` where `|` is meant: both of its constants are 1.
unfoldable pub cmd_stamp : List Wake → Cmd → M (Ret × Cmd)
unfolding sleep
cmd_stamp wakes cmd =
    if bit_and cmd.flags 1 == 1
    then pure (einval, cmd)
    else (pass cmd >>= after_pass (sleep wakes) cmd)
