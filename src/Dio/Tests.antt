-- ===== src/Dio/Tests.antt =====
-- Tests and concrete cases of the results on wr-nic-dio.c.
use sbndaq_wr.Base.{
  inl, ℕ, ◌+◌, ◌-◌, ◌<◌, ◌≡◌, ◌≢◌, ◌⊎◌, inr, refl, List, [], ◌∷◌, ◌++◌, some, true, false, arith,
  length, get_elem?, set, drop, replicate, ltb, if◌then◌else◌, done, fault,
}
use sbndaq_wr.Base.Triples.{Ensures}
use sbndaq_wr.Mmio.{Env, write, Timespec, zero_time}
use sbndaq_wr.Dio.Device.{
  Channel, Driver, Cmd, ok, eagain, f_mask, f_loop, buffer_len, n_stamp, eic_ier,
}
use sbndaq_wr.Dio.Ring.{push, drain, next_index}
use sbndaq_wr.Dio.Ring.Queue.{IsRing, contents, newest, used}
use sbndaq_wr.Dio.Ring.Push.{push_refines}
use sbndaq_wr.Dio.Ring.Drain.{IsDrained, drain_refines}
use sbndaq_wr.Dio.Stamp.{Wake, scan, pass, after_pass, sleep, cmd_stamp}
use sbndaq_wr.Dio.Stamp.Safety.{AllWakes}
use sbndaq_wr.Dio.Stamp.Scan.{IsIdle}
use sbndaq_wr.Dio.Stamp.Replies.{taken, cmd_stamp_masked, cmd_stamp_missing}
use sbndaq_wr.Dio.Irq.{irq_mask}
use sbndaq_wr.Dio.Irq.Safety.{ClockMoves}
use sbndaq_wr.Dio.Ioctl.{
  Services, mezzanine_ioctl, mezzanine_init, fresh_channel, priv_mezzanine_cmd, cmd_name_pulse,
  cmd_name_stamp,
}
use sbndaq_wr.Dio.Ioctl.Safety.{Free, fresh-IsChannel, mezzanine_ioctl-Triple}
use sbndaq_wr.Dio.Ioctl.Reach.{Reachable, start, Reachable-IsDriver}
use sbndaq_wr.Dio.Invariant.{IsChannel, IsDriver}

-- A card whose registers read 3 for the first accesses and then 0x20003: a FIFO of channel 0 holds stamps
-- and runs empty. The kernel's time functions only store.
abbrev card : Env
card = record {
  answer = λ h a. if ltb (length h) 9 then 3 else 0x20003;
  set_normalized = λ s n. record { tv_sec = s; tv_nsec = n };
  timespec_add = λ a b. record { tv_sec = a.tv_sec + b.tv_sec; tv_nsec = a.tv_nsec + b.tv_nsec };
}

abbrev stamp_a : Timespec
stamp_a = record { tv_sec = 12; tv_nsec = 340 }

-- One stamp waits.
abbrev busy_channel : Channel
busy_channel = record fresh_channel { tsbuf = stamp_a ∷ replicate 511 zero_time; bhead = 1 }

abbrev driver : Driver
driver = record {
  ch = fresh_channel ∷ busy_channel ∷ fresh_channel ∷ fresh_channel ∷ fresh_channel ∷ [];
  hw_lock = false;
  pulse_offsets = 0 ∷ 0 ∷ 0 ∷ 0 ∷ 0 ∷ [];
  t_ini = 0;
  t_end = 5;
  rate_avg = 0;
  history = [];
}

abbrev boot : Driver
boot = record driver { ch = [] }

abbrev times : List Timespec
times = replicate 16 stamp_a

-- A pulse on channel 2 with a period.
abbrev pulse_cmd : Cmd
pulse_cmd = record {
  command = cmd_name_pulse;
  channel = 2;
  value = 3;
  flags = f_loop;
  nstamp = 0;
  t = times;
}

-- The stamps of all channels.
abbrev stamp_cmd : Cmd
stamp_cmd = record {
  command = cmd_name_stamp;
  channel = 0x1f;
  value = 0;
  flags = f_mask;
  nstamp = 0;
  t = times;
}

-- One channel, which is not there.
abbrev stray_cmd : Cmd
stray_cmd = record stamp_cmd { channel = 7; flags = 0 }

abbrev services : Services
services = record { allocated = true; copied_in = true; copied_out = true }

abbrev wakes : List Wake
wakes = record { arrivals = (1, stamp_a) ∷ []; signal = false } ∷ []

busy-IsRing : IsRing busy_channel
busy-IsRing = record { full_length = refl; head_in = omega arith; tail_in = omega arith }

busy-IsChannel : IsChannel busy_channel
busy-IsChannel = record { ring = busy-IsRing; target_in = omega arith }

driver-IsDriver : IsDriver false driver
driver-IsDriver = record {
  channels = refl;
  offsets = refl;
  each = (
    fresh-IsChannel,
    (busy-IsChannel, (fresh-IsChannel, (fresh-IsChannel, (fresh-IsChannel, tt)))),
  );
  lock = refl;
}

wakes-AllWakes : AllWakes wakes
wakes-AllWakes = ((omega arith, tt), tt)

clock-ClockMoves : ClockMoves 1000 driver
clock-ClockMoves = ((λ e. omega (arith, e)), inl (λ e. omega (arith, e)))

push_refines_example :
    (c' : Channel) × (push busy_channel stamp_a ≡ some c')
    × IsRing c'
    × (contents c' ≡ newest (buffer_len - 1) (contents busy_channel ++ stamp_a ∷ []))
push_refines_example = push_refines stamp_a busy-IsRing

drain_refines_example :
    (c' : Channel) × (n' : ℕ) × (t' : List Timespec) × (drain 16 busy_channel 0 times
      ≡ some (c', n', t'))
    × IsDrained 16 busy_channel c' 0 n' times t'
drain_refines_example = drain_refines 16 0 times busy-IsRing (omega arith)

mezzanine_ioctl-Triple_example :
    Ensures
      (Unit {0})
      Free
      (mezzanine_ioctl card services wakes priv_mezzanine_cmd pulse_cmd driver)
mezzanine_ioctl-Triple_example =
    (mezzanine_ioctl-Triple card services wakes priv_mezzanine_cmd pulse_cmd wakes-AllWakes refl
        (inr (omega arith))).at
      driver driver-IsDriver

cmd_stamp_missing_example : cmd_stamp wakes stray_cmd driver ≡ fault
cmd_stamp_missing_example = cmd_stamp_missing wakes stray_cmd driver refl refl refl (omega arith)

-- Idle channels, but for channel 1.
cmd_stamp_masked_example :
    ((i : ℕ) × (i < 5)
      × (c : Channel) × (c' : Channel) × (get_elem? driver.ch i ≡ some c)
      × (used c ≢ 0)
      × ((j : ℕ) → j < i → IsIdle driver stamp_cmd.channel j)
      × IsRing c'
      × (contents c' ≡ drop n_stamp (contents c))
      × (cmd_stamp wakes stamp_cmd driver
          ≡ done (ok, taken stamp_cmd i c) (record driver { ch = set driver.ch i c' })))
    ⊎ (((j : ℕ) → j < 5 → IsIdle driver stamp_cmd.channel j)
        × (cmd_stamp wakes stamp_cmd driver
            ≡ done (eagain, record stamp_cmd { nstamp = 0 }) driver))
cmd_stamp_masked_example = cmd_stamp_masked wakes stamp_cmd refl refl driver-IsDriver refl refl

-- The state after the start.
abbrev booted : Driver
booted = record boot { ch = replicate 5 fresh_channel; history = write eic_ier irq_mask ∷ [] }

booted-Reachable : Reachable card boot booted
unfolding mezzanine_init
booted-Reachable = start refl

Reachable-IsDriver_example : IsDriver false booted
Reachable-IsDriver_example = Reachable-IsDriver card refl booted-Reachable

-- The stamp of channel 1 is read.
stamp_read :
    cmd_stamp wakes stamp_cmd driver
    ≡ done
        (ok, record stamp_cmd { channel = 1; nstamp = 1 })
        (record driver { ch = set driver.ch 1 (record busy_channel { btail = 1 }) })
unfolding cmd_stamp sleep after_pass pass scan drain next_index
stamp_read = refl
