-- ===== src/Dio/Ioctl/Reach.antt =====
-- The driver as a state machine: what follows a start is any sequence of ioctls and interrupts.
use mathlib.Core.Path.{subst}
use sbndaq_wr.Base.{ℕ, ◌≡◌, ◌≢◌, Bool, true, false, List, length, Option, done, fault}
use sbndaq_wr.Base.Triples.{Meets, Ensures-Meets, Triple-done, Triple-no_fault}
use sbndaq_wr.Mmio.{Env}
use sbndaq_wr.Dio.Device.{Driver, Cmd, Ret, ok}
use sbndaq_wr.Dio.Stamp.{Wake}
use sbndaq_wr.Dio.Stamp.Safety.{AllWakes, IsTarget}
use sbndaq_wr.Dio.Pulse.Safety.{IsCmd}
use sbndaq_wr.Dio.Irq.{IrqReturn, interrupt}
use sbndaq_wr.Dio.Irq.Safety.{ClockMoves, interrupt-Triple}
use sbndaq_wr.Dio.Ioctl.{Services, mezzanine_ioctl, mezzanine_init}
use sbndaq_wr.Dio.Ioctl.Safety.{mezzanine_ioctl-Triple, init-IsDriver}
use sbndaq_wr.Dio.Invariant.{IsDriver}

module _ (e : Env) where
  -- One call of the driver that returns.
  pub data Step (d d' : Driver) : Type 0 where
    ioctl :
        (k : Services) (wakes : List Wake) (request : ℕ) (cmd : Cmd) (r : Ret × Option Cmd)
        → AllWakes wakes
        → IsCmd cmd
        → IsTarget cmd
        → mezzanine_ioctl e k wakes request cmd d ≡ done r d'
        → Step d d'
    irq :
        (fuel : ℕ) (eeprom : Bool) (started ended : ℕ) (r : IrqReturn)
        → ClockMoves started d
        → interrupt e fuel eeprom started ended d ≡ done r d'
        → Step d d'

  -- The states after a start with memory, on a machine where the driver has its statics.
  pub data Reachable (boot : Driver) : Driver → Type 0 where
    start : {d : Driver} → mezzanine_init true boot ≡ done ok d → Reachable boot d
    next : {d d' : Driver} → Reachable boot d → Step d d' → Reachable boot d'

  Step-IsDriver : {d d' : Driver} → Step d d' → IsDriver false d → IsDriver false d'
  Step-IsDriver (ioctl k wakes request cmd r a full target ran) v =
      Triple-done (mezzanine_ioctl-Triple e k wakes request cmd a full target) v ran
  Step-IsDriver (irq fuel eeprom started ended r moves ran) v =
      Triple-done (interrupt-Triple e fuel eeprom started ended) (moves, v) ran

  start-IsDriver :
      (boot : Driver) {d : Driver}
      → length boot.pulse_offsets ≡ 5
      → mezzanine_init true boot ≡ done ok d
      → IsDriver false d
  start-IsDriver boot statics ran =
      (subst (Meets (λ (r : Ret) d'. (r ≡ ok) × IsDriver false d')) ran
        (Ensures-Meets (init-IsDriver boot statics))).1

  -- Every state that is reached from a start by ioctls for existing channels and by interrupts, whose
  -- rate limiter divides neither by zero nor the least `int` by -1, has
  -- five channels with good rings, loops that fire existing channels, and the spinlock free.
  pub Reachable-IsDriver :
      {boot : Driver} {d : Driver}
      → length boot.pulse_offsets ≡ 5
      → Reachable boot d
      → IsDriver false d
  Reachable-IsDriver {boot} statics (start ran) = start-IsDriver boot statics ran
  Reachable-IsDriver statics (next r step) = Step-IsDriver step (Reachable-IsDriver statics r)

  -- In such a state an ioctl for existing channels is not undefined.
  pub Reachable-ioctl_no_fault :
      {boot d : Driver} (k : Services) (wakes : List Wake) (request : ℕ) (cmd : Cmd)
      → length boot.pulse_offsets ≡ 5
      → Reachable boot d
      → AllWakes wakes
      → IsCmd cmd
      → IsTarget cmd
      → mezzanine_ioctl e k wakes request cmd d ≢ fault
  Reachable-ioctl_no_fault k wakes request cmd statics r a full target =
      Triple-no_fault (mezzanine_ioctl-Triple e k wakes request cmd a full target)
        (Reachable-IsDriver statics r)

  -- In such a state an interrupt is not undefined, if the clock has moved since the last one.
  pub Reachable-irq_no_fault :
      {boot d : Driver} (fuel : ℕ) (eeprom : Bool) (started ended : ℕ)
      → length boot.pulse_offsets ≡ 5
      → Reachable boot d
      → ClockMoves started d
      → interrupt e fuel eeprom started ended d ≢ fault
  Reachable-irq_no_fault fuel eeprom started ended statics r moves =
      Triple-no_fault (interrupt-Triple e fuel eeprom started ended)
        (moves, Reachable-IsDriver statics r)
