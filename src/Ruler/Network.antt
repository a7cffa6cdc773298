-- ===== src/Ruler/Network.antt =====
-- The machines that the frames reach: wr-dio-agent.c with the driver behind it.
use mathlib.Core.Path.{subst}
use sbndaq_wr.Base.{
  ℕ, ◌≤◌, ◌≡◌, ◌≢◌, inr, refl, sym, List, [], ◌∷◌, Option, some, Bool, true, false, not, done,
  fault, pure, ◌>>=◌, ◌==◌, ◌%◌, length, arith, has_bits,
}
use sbndaq_wr.Base.Triples.{
  Keeps, blocks, Triple-bind, Triple-pure, Triple-if, Triple-done, bind-fault, if_known,
}
use sbndaq_wr.Mmio.{Env}
use sbndaq_wr.Dio.Device.{Driver, Cmd, Ret, M, f_mask}
use sbndaq_wr.Dio.Ioctl.{
  cmd_name_pulse, cmd_name_stamp, priv_mezzanine_cmd, dispatch, mezzanine_ioctl,
}
use sbndaq_wr.Dio.Ioctl.Safety.{mezzanine_ioctl-Triple}
use sbndaq_wr.Dio.Invariant.{IsDriver}
use sbndaq_wr.Dio.Pulse.{cmd_pulse}
use sbndaq_wr.Dio.Stamp.{cmd_stamp}
use sbndaq_wr.Dio.Stamp.Replies.{cmd_stamp_missing}
use sbndaq_wr.Dio.Stamp.Safety.{AllWakes}
use sbndaq_wr.DioCmd.State.{Text}
use sbndaq_wr.Ruler.Actions.{RulerEnv, build_crashed, ruler_build_actions}
use sbndaq_wr.Ruler.Tool.{Deed, Ruler, World, RulerEnd, ruler_main, ruler_start}
use sbndaq_wr.Ruler.Delivery.{IsFit, AllFit, cmd_of, ruler_main-HasAsked}
use sbndaq_wr.Ruler.Run.{IsKernel}
use sbndaq_wr.Ruler.Agent.{
  Frame, agent_failed, frame_size, ruler_proto, is_ok, agent_step, agent_main,
}

-- A frame that the agent does not skip.
pub record IsTaken (f : Frame) : Type 0 where
  pub whole : f.len ≡ frame_size
  pub type : f.ether_type ≡ ruler_proto

-- Frames whose commands are fit, where they are taken, with interrupts for existing channels.
abbrev pub AllGood : List Frame → Type 0
AllGood [] = Unit
AllGood (f ∷ frames) = (IsTaken f → IsFit f.cmd) × AllWakes f.wakes × AllGood frames

module _ (e : Env) where
  agent_step-Keeps :
      (f : Frame)
      → (IsTaken f → IsFit f.cmd)
      → AllWakes f.wakes
      → Keeps (Unit {0}) (IsDriver false) (agent_step e f)
  unfolding agent_step
  agent_step-Keeps f fit wakes =
      Triple-if (not (f.len == frame_size)) (λ _. Triple-pure true (λ d v. v))
        λ same.
          Triple-if (not (f.ether_type == ruler_proto)) (λ _. Triple-pure true (λ d v. v))
            λ ours.
              let c = fit (record { whole = ground arith; type = ground arith }) in
              Triple-bind
                (mezzanine_ioctl-Triple e f.services f.wakes priv_mezzanine_cmd f.cmd wakes c.size
                  (inr c.channel))
                λ r. Triple-pure (is_ok r.0) (λ d v. v)

  agent_main-Keeps :
      (frames : List Frame)
      → AllGood frames
      → Keeps (Unit {0}) (IsDriver false) (agent_main e frames)
  unfolding agent_main
  agent_main-Keeps [] good = record { at = λ d v. blocks tt }
  agent_main-Keeps (f ∷ frames) (fit, wakes, good) =
      Triple-bind (agent_step-Keeps f fit wakes) λ on.
        Triple-if on (λ _. agent_main-Keeps frames good) (λ _. Triple-pure agent_failed (λ d v. v))

-- A deed is one of some.
pub data IsOneOf (c : Cmd) : List Deed → Type 0 where
  here : {x : Deed} {deeds : List Deed} → c ≡ cmd_of x → IsOneOf c (x ∷ deeds)
  further : {x : Deed} {deeds : List Deed} → IsOneOf c deeds → IsOneOf c (x ∷ deeds)

IsOneOf-IsFit : {c : Cmd} {deeds : List Deed} → AllFit deeds → IsOneOf c deeds → IsFit c
IsOneOf-IsFit all (here q) = subst IsFit (sym q) all.0
IsOneOf-IsFit all (further i) = IsOneOf-IsFit all.1 i

-- What comes from the network is from a run of the ruler, where it is taken.
abbrev pub AllFrom : List Deed → List Frame → Type 0
AllFrom deeds [] = Unit
AllFrom deeds (f ∷ frames) =
    (IsTaken f → IsOneOf f.cmd deeds) × AllWakes f.wakes × AllFrom deeds frames

AllFrom-AllGood :
    (deeds : List Deed) (frames : List Frame) → AllFit deeds → AllFrom deeds frames → AllGood frames
AllFrom-AllGood deeds [] all from = tt
AllFrom-AllGood deeds (f ∷ frames) all (own, wakes, from) =
    (λ taken. IsOneOf-IsFit all (own taken), wakes, AllFrom-AllGood deeds frames all from)

-- On a kernel that keeps the commands as the driver does, and for arguments that do not crash the parser: an agent whose
-- frames all come from one ruler that has ended, in any order and number, with others that it skips,
-- makes no fault in its driver, which stays in a good state with the lock free.
pub ruler_main-agent_main :
    (w : World) (kernel : IsKernel w) (r : RulerEnv) (opened : Bool) (fuel : ℕ)
    (ifname input action : Text) (more : List Text) (end : RulerEnd) (s : Ruler)
    → ruler_build_actions r (action ∷ more) ≢ build_crashed
    → ruler_main w r opened fuel (ifname ∷ input ∷ action ∷ more) ruler_start ≡ done end s
    → (e : Env) (frames : List Frame) → AllFrom s.deeds frames
    → Keeps (Unit {0}) (IsDriver false) (agent_main e frames)
ruler_main-agent_main w kernel r opened fuel ifname input action more end s sound ran e frames
      from =
    agent_main-Keeps e frames (
      AllFrom-AllGood s.deeds frames
        (Triple-done (ruler_main-HasAsked w kernel r opened fuel ifname input action more sound)
          refl ran)
        from)

-- A command to read the stamps of one channel that is not there, in a frame like the ruler's.
pub record IsStray (f : Frame) : Type 0 where
  pub taken : IsTaken f
  pub services : f.services ≡ record { allocated = true; copied_in = true; copied_out = true }
  pub command : f.cmd.command ≡ cmd_name_stamp
  pub even : f.cmd.flags % 2 ≡ 0
  pub single : has_bits f.cmd.flags f_mask ≡ false
  pub channel : 5 ≤ f.cmd.channel

reply : Ret × Cmd → M (Ret × Option Cmd)
reply r = pure (r.0, some r.1)

stray_dispatch :
    (e : Env) (f : Frame) (d : Driver)
    → IsStray f
    → length d.ch ≡ 5
    → dispatch e f.wakes f.cmd d ≡ fault
unfolding dispatch reply
stray_dispatch e f d i five =
    if_known {b = f.cmd.command == cmd_name_pulse} {c = false} (cmd_pulse e f.cmd >>= reply) _ d
      (ground (arith, i.command))
      (if_known {b = f.cmd.command == cmd_name_stamp} {c = true} (cmd_stamp f.wakes f.cmd >>= reply)
        _ d (ground (arith, i.command))
        (bind-fault (cmd_stamp f.wakes f.cmd) reply
          (cmd_stamp_missing f.wakes f.cmd d i.even i.single five i.channel)))

stray_ioctl :
    (e : Env) (f : Frame) (d : Driver)
    → IsStray f
    → length d.ch ≡ 5
    → mezzanine_ioctl e f.services f.wakes priv_mezzanine_cmd f.cmd d ≡ fault
unfolding mezzanine_ioctl
stray_ioctl e f d i five =
    subst (λ k. mezzanine_ioctl e k f.wakes priv_mezzanine_cmd f.cmd d ≡ fault) (sym i.services)
      (bind-fault (dispatch e f.wakes f.cmd) _ (stray_dispatch e f d i five))

stray_step :
    (e : Env) (f : Frame) (d : Driver) → IsStray f → length d.ch ≡ 5 → agent_step e f d ≡ fault
unfolding agent_step
stray_step e f d i five =
    if_known {b = not (f.len == frame_size)} {c = false} (pure true) _ d
      (ground (arith, i.taken.whole))
      (if_known {b = not (f.ether_type == ruler_proto)} {c = false} (pure true) _ d
        (ground (arith, i.taken.type))
        (bind-fault (mezzanine_ioctl e f.services f.wakes priv_mezzanine_cmd f.cmd) _
          (stray_ioctl e f d i five)))

-- Any machine on the network can send such a frame: the agent checks no channel, and the driver
-- reads past its channels.
pub agent_main_stray :
    (e : Env) (f : Frame) (frames : List Frame) (d : Driver)
    → IsStray f
    → length d.ch ≡ 5
    → agent_main e (f ∷ frames) d ≡ fault
unfolding agent_main
agent_main_stray e f frames d i five = bind-fault (agent_step e f) _ (stray_step e f d i five)
