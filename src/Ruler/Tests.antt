-- ===== src/Ruler/Tests.antt =====
-- Tests and concrete cases of the results on wr-dio-ruler.c and wr-dio-agent.c.
use sbndaq_wr.Base.{
  ◌+◌, ◌≤◌, ◌≡◌, ◌≢◌, inl, refl, sym, ap, ◌∙◌, [], ◌∷◌, none, some, true, false, arith, length,
  replicate, done, fault, ◌==◌, if◌then◌else◌,
}
use sbndaq_wr.Base.Triples.{Ensures}
use sbndaq_wr.Mmio.{Timespec, zero_time}
use sbndaq_wr.Mmio
use sbndaq_wr.Dio.Device.{Cmd, Driver}
use sbndaq_wr.Dio.Ioctl.{fresh_channel}
use sbndaq_wr.Dio.Ioctl.Safety.{fresh-IsChannel}
use sbndaq_wr.Dio.Invariant.{IsDriver}
use sbndaq_wr.DioCmd.State.{Text, Env, initial_cmd}
use sbndaq_wr.DioCmd.Times.{parse_ts}
use sbndaq_wr.Ruler.Actions.{
  RulerEnv, RulerAction, built, build_crashed, after_plus, build_action, build_all,
  ruler_build_actions, ruler_config_in,
}
use sbndaq_wr.Ruler.Tool.{
  local_deed, sent_deed, Ruler, World, ruler_exit, ruler_start, action_time, ruler_run_actions,
  get_frame, put_frame, get_ruler_cmd, ioctl_ruler_cmd, ruler_main,
}
use sbndaq_wr.Ruler.Times.{IsTime, nanos, action_time-nanos}
use sbndaq_wr.Ruler.Run.{IsKernel, IsFrame, IsPrepared, IsRun, ruler_run_actions-Triple}
use sbndaq_wr.Ruler.Network.{IsStray, agent_main_stray}
use sbndaq_wr.Ruler.Agent.{Frame, frame_size, ruler_proto, agent_main}

-- A kernel that answers the first call, and no later one; what it is asked for it leaves.
abbrev world : World
world = record {
  sends = λ deeds c. true;
  ioctl = λ deeds c. (if length deeds == 0 then none else some 11, c);
}

world-IsKernel : IsKernel world
world-IsKernel = record {
  keeps_pulse = λ deeds c p f. record {
    command = refl;
    value = refl;
    flags = refl;
    size = refl;
    width = refl;
  };
  keeps_size = λ deeds c. refl;
}

-- Any time is read as 5 seconds.
abbrev libc : Env
libc = record {
  scan_time = λ s. record { fields = some 1; value = 5; fraction = 0 };
  scan_fraction = λ s. record { fields = some 1; value = 0; fraction = 5 };
  scan_short = λ s. record { fields = some 1; value = 1; fraction = 0 };
  scan_int = λ s. record { fields = some 1; value = 1; fraction = 0 };
  atoi = λ s. 1;
  ioctl = λ calls c. (none, c);
  socket_opens = true;
}

-- "R3+5" and "IN2", as any other text.
abbrev env : RulerEnv
env = record {
  libc = libc;
  scan_in = λ s. record { fields = some 1; value = 2; fraction = 0 };
  scan_action = λ s. record { fields = some 3; lr = 82; ch = 3 };
  allocated = true;
}

abbrev action_text : Text
action_text = 82 ∷ 51 ∷ 43 ∷ 53 ∷ []

abbrev input_text : Text
input_text = 73 ∷ 78 ∷ 50 ∷ []

abbrev action : RulerAction
action = record { isremote = true; channel = 3; delay = record { tv_sec = 5; tv_nsec = 0 } }

one_action : ruler_build_actions env (action_text ∷ []) ≡ built (action ∷ [])
unfolding ruler_build_actions build_all build_action after_plus parse_ts
one_action = refl

no_crash : ruler_build_actions env (action_text ∷ []) ≢ build_crashed
no_crash e = let clash : built (action ∷ []) ≡ build_crashed = sym one_action ∙ e in cc

abbrev event : Timespec
event = record { tv_sec = 100; tv_nsec = 999999999 }

abbrev delay : Timespec
delay = record { tv_sec = 2; tv_nsec = 5 }

event-IsTime : IsTime event
event-IsTime = record { sec_fits = omega arith; nsec_small = omega arith }

delay-IsTime : IsTime delay
delay-IsTime = record { sec_fits = omega arith; nsec_small = omega arith }

action_time-nanos_example :
    (nanos (action_time event delay) ≡ nanos event + nanos delay)
    × ((action_time event delay).tv_nsec ≤ 1000000000)
action_time-nanos_example = action_time-nanos event delay event-IsTime delay-IsTime

-- A sum of a whole second is not carried.
carried :
    action_time
      (record { tv_sec = 7; tv_nsec = 500000000 })
      (record { tv_sec = 0; tv_nsec = 500000000 })
    ≡ record { tv_sec = 7; tv_nsec = 1000000000 }
carried = refl

start-IsFrame : IsFrame 2 initial_cmd
start-IsFrame = record {
  value = inl refl;
  flags = refl;
  size = refl;
  seconds = λ ts e.
      let same : zero_time ≡ ts = ground arith in ap (λ (t : Timespec). t.tv_sec) (sym same);
}

ruler_run_actions-Triple_example :
    Ensures ⊥
      (λ b s.
        IsRun world 2 event b (action ∷ []) [] s.deeds
        × (IsPrepared 2 s.frame × (s.ruler_cmd ≡ initial_cmd)))
      (ruler_run_actions world 2 event (action ∷ []) ruler_start)
ruler_run_actions-Triple_example =
    (ruler_run_actions-Triple world world-IsKernel 2 (omega arith) event initial_cmd (action ∷ [])
        []).at
      ruler_start (refl, start-IsFrame, refl)

-- The command of the frame that goes out, and the tool when it ends.
abbrev pulse : Cmd
pulse = record initial_cmd {
  command = 0;
  channel = 3;
  value = 2;
  t =
      record { tv_sec = 5; tv_nsec = 0 }
      ∷ record { tv_sec = 0; tv_nsec = 1000000 }
      ∷ replicate 14 zero_time;
}

abbrev asked : Cmd
asked = record initial_cmd { command = 1; flags = 16; channel = 2 }

abbrev ended : Ruler
ended = record {
  ruler_cmd = asked;
  frame = pulse;
  deeds = local_deed asked ∷ sent_deed pulse ∷ local_deed asked ∷ [];
}

run_once :
    ruler_main world env true 3 ([] ∷ input_text ∷ action_text ∷ []) ruler_start
    ≡ done ruler_exit ended
unfolding ruler_main ruler_config_in ruler_build_actions parse_ts get_ruler_cmd ioctl_ruler_cmd
    get_frame put_frame
run_once = refl

abbrev frame : Frame
frame = record {
  len = frame_size;
  ether_type = ruler_proto;
  cmd = pulse;
  services = record { allocated = true; copied_in = true; copied_out = true };
  wakes = [];
}

abbrev card : Mmio.Env
card = record { answer = λ h a. 0; set_normalized = λ s n. zero_time; timespec_add = λ a b. a }

abbrev driver : Driver
driver = record {
  ch = replicate 5 fresh_channel;
  hw_lock = false;
  pulse_offsets = replicate 5 0;
  t_ini = 0;
  t_end = 0;
  rate_avg = 0;
  history = [];
}

driver-IsDriver : IsDriver false driver
driver-IsDriver = record {
  channels = refl;
  offsets = refl;
  each = (
    fresh-IsChannel,
    (fresh-IsChannel, (fresh-IsChannel, (fresh-IsChannel, (fresh-IsChannel, tt)))),
  );
  lock = refl;
}

abbrev stray : Frame
stray = record frame { cmd = record initial_cmd { command = 1; channel = 7 } }

stray-IsStray : IsStray stray
stray-IsStray = record {
  taken = record { whole = refl; type = refl };
  services = refl;
  command = refl;
  even = refl;
  single = refl;
  channel = omega arith;
}

agent_main_stray_example : agent_main card (stray ∷ []) driver ≡ fault
agent_main_stray_example = agent_main_stray card stray [] driver stray-IsStray refl
