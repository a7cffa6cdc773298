-- ===== src/Pps.antt =====
-- tools/wr-dio-pps.c, with the driver that its command goes to.
pub mod Safety
mod Tests
use sbndaq_wr.Base.{
  ℕ, ◌-◌, ◌*◌, ◌^◌, List, [], ◌∷◌, Option, none, some, Bool, true, false, replicate, bit_or, pure,
  ◌>>=◌, ◌&&◌, ltb, if◌then◌else◌,
}
use sbndaq_wr.Mmio.{zero_time}
use sbndaq_wr.Mmio
use sbndaq_wr.Dio.Device.{Cmd, f_rel, f_loop, M}
use sbndaq_wr.Dio.Ioctl.{
  Services, cmd_name_pulse, priv_mezzanine_id, priv_mezzanine_cmd, mezzanine_ioctl,
}
use sbndaq_wr.DioCmd.State.{Text, Env, initial_cmd, matched}
use sbndaq_wr.Ruler.Agent.{is_ok}

-- `exit(0)` and `exit(1)`.
pub data PpsEnd : Type 0 where
  exit_zero exit_one : PpsEnd

-- "wr0".
abbrev pub default_ifname : Text
default_ifname = 119 ∷ 114 ∷ 48 ∷ []

-- The channel that the argument asks for, if it is one of 1 to 4.
abbrev pub pps_channel : Env → Text → Option ℕ
pps_channel t text =
    let r = t.scan_int text in
    if matched r 1 && (ltb 0 r.value && ltb r.value 5) then some r.value else none

-- The command: pulses of a millisecond, the first in two seconds, then one every second without an end.
abbrev pub pps_cmd : ℕ → Cmd
pps_cmd ch = record {
  command = cmd_name_pulse;
  channel = ch;
  value = 2 ^ 32 - 1;
  flags = bit_or f_rel f_loop;
  nstamp = 0;
  t =
      record { tv_sec = 2; tv_nsec = 0 }
      ∷ record { tv_sec = 0; tv_nsec = 1000 * 1000 }
      ∷ record { tv_sec = 1; tv_nsec = 0 }
      ∷ replicate 13 zero_time;
}

-- The tool's library functions, the interfaces that belong to the card, and what the kernel does in the call.
module _ (t : Env) (on_card : Text → Bool) (e : Mmio.Env) (k : Services) where
  -- One `ioctl` on the interface: whether it succeeded.
  unfoldable pub pps_ioctl : Text → ℕ → Cmd → M Bool
  pps_ioctl ifname request cmd =
      if on_card ifname
      then (mezzanine_ioctl e k [] request cmd >>= λ r. pure (is_ok r.0))
      else pure false

  -- The two calls. The first one reads no command, and its error is only printed.
  unfoldable pub pps_calls : Text → ℕ → M PpsEnd
  unfolding pps_ioctl
  pps_calls ifname ch = do
    _ ← pps_ioctl ifname priv_mezzanine_id initial_cmd
    fine ← pps_ioctl ifname priv_mezzanine_cmd (pps_cmd ch)
    pure (if fine then exit_zero else exit_one)

  unfoldable pub pps_run : Text → Text → M PpsEnd
  unfolding pps_calls
  pps_run ifname channel = elim (pps_channel t channel) [
    | none ↦ pure exit_one
    | some ch ↦ if t.socket_opens then pps_calls ifname ch else pure exit_one
  ]

  -- `main`, for the arguments behind the tool's name.
  unfoldable pub pps_main : List Text → M PpsEnd
  unfolding pps_run
  pps_main [] = pure exit_one
  pps_main (channel ∷ []) = pps_run default_ifname channel
  pps_main (ifname ∷ channel ∷ []) = pps_run ifname channel
  pps_main (ifname ∷ channel ∷ next ∷ more) = pure exit_one
