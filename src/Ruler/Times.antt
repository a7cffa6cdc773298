-- ===== src/Ruler/Times.antt =====
-- The sum of an event's time and a delay.
use sbndaq_wr.Base.{ℕ, ◌+◌, ◌*◌, ◌^◌, ◌<◌, ◌≤◌, ◌≡◌, arith}
use sbndaq_wr.Mmio.{Timespec}
use sbndaq_wr.Ruler.Tool.{action_time}

-- A time that a `struct timespec` may have.
pub record IsTime (ts : Timespec) : Type 0 where
  pub sec_fits : ts.tv_sec < 2 ^ 62
  pub nsec_small : ts.tv_nsec < 1000000000

-- In nanoseconds.
abbrev pub nanos : Timespec → ℕ
nanos ts = ts.tv_sec * 1000000000 + ts.tv_nsec

-- The time of an action is the sum of the two times; its nanoseconds may be a whole second, but not
-- more.
pub action_time-nanos :
    (ts delay : Timespec)
    → IsTime ts
    → IsTime delay
    → (nanos (action_time ts delay) ≡ nanos ts + nanos delay)
      × ((action_time ts delay).tv_nsec ≤ 1000000000)
action_time-nanos ts delay i j = ground (arith, i.sec_fits, i.nsec_small, j.sec_fits, j.nsec_small)
