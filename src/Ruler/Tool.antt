-- ===== src/Ruler/Tool.antt =====
-- tools/wr-dio-ruler.c: its state, and all that follows the arguments.
use sbndaq_wr.Base.{
  ℕ, zero, suc, ◌*◌, ◌^◌, List, [], ◌∷◌, Option, none, some, Bool, true, false, Program, done, pure,
  stop, checked, waiting, ◌>>=◌, ◌>>◌, ltb, ◌&&◌, get_elem?, set, if◌then◌else◌,
}
use sbndaq_wr.Mmio.{Timespec, add64, sub64}
use sbndaq_wr.Dio.Device.{Cmd, f_wait}
use sbndaq_wr.Dio.Ioctl.{cmd_name_pulse, cmd_name_stamp}
use sbndaq_wr.DioCmd.State.{Text, initial_cmd}
use sbndaq_wr.Ruler.Actions.{
  RulerEnv, RulerAction, built, build_refused, build_crashed, ruler_config_in, ruler_build_actions,
}

-- What the tool asked for: a command for the local driver, or a frame with a command.
pub data Deed : Type 0 where
  local_deed : Cmd → Deed
  sent_deed : Cmd → Deed

-- The global `ruler_cmd`, the command in the static frame of `ruler_run_actions`, and what was asked
-- for so far, the latest first.
pub record Ruler : Type 0 where
  pub ruler_cmd : Cmd
  pub frame : Cmd
  pub deeds : List Deed

abbrev pub R : Type 0 → Type 0
R A = Program Ruler A

-- What the network and the kernel do: whether `send` succeeds, and the error of an `ioctl` with the
-- command as the kernel leaves it, after what was asked for before.
pub record World : Type 0 where
  pub sends : List Deed → Cmd → Bool
  pub ioctl : List Deed → Cmd → Option ℕ × Cmd

unfoldable pub get_ruler_cmd : R Cmd
get_ruler_cmd s = done s.ruler_cmd s

unfoldable pub get_frame : R Cmd
get_frame s = done s.frame s

unfoldable pub put_frame : Cmd → R (Unit {0})
put_frame c s = done tt (record s { frame = c })

-- The time for an action: a sum of seconds and nanoseconds with at most one carry.
abbrev pub action_time : Timespec → Timespec → Timespec
action_time ts delay =
    let sec = add64 ts.tv_sec delay.tv_sec in
    let nsec = add64 ts.tv_nsec delay.tv_nsec in
    if ltb nsec (2 ^ 63) && ltb (1000 * 1000 * 1000) nsec
    then record { tv_sec = add64 sec 1; tv_nsec = sub64 nsec (1000 * 1000 * 1000) }
    else record { tv_sec = sec; tv_nsec = nsec }

-- `value`: the number of the input, where it is 1 to 4.
abbrev pub marked : ℕ → ℕ → ℕ
marked inch value = if ltb 0 inch && ltb inch 5 then inch else value

-- The command for an action, made of the one that the frame holds.
abbrev pub action_cmd : ℕ → Timespec → RulerAction → Cmd → Cmd
action_cmd inch ts a cmd = record cmd {
  channel = a.channel;
  value = marked inch cmd.value;
  t = set cmd.t 0 (action_time ts a.delay);
}

-- The part that is the same for all actions: the width of the pulse, and the command.
abbrev pub prepared : Cmd → Cmd
prepared cmd = record cmd {
  command = cmd_name_pulse;
  t = elim (get_elem? cmd.t 1) [
    | none ↦ cmd.t
    | some width ↦ set cmd.t 1 (record width { tv_nsec = 1000 * 1000 })
  ];
}

-- `while (1)` of `main` ends by `exit(1)`.
pub data RulerEnd : Type 0 where
  ruler_exit : RulerEnd

module _ (w : World) where
  -- `ioctl(ruler_sock, PRIV_MEZZANINE_CMD, &ruler_ifr)` with the global command, and with the frame's.
  unfoldable pub ioctl_ruler_cmd : Cmd → R (Option ℕ)
  ioctl_ruler_cmd cmd s =
      let (errno, c) = w.ioctl s.deeds cmd in
      done errno (record s { ruler_cmd = c; deeds = local_deed cmd ∷ s.deeds })

  unfoldable pub ioctl_frame : R (Option ℕ)
  ioctl_frame s =
      let (errno, c) = w.ioctl s.deeds s.frame in
      done errno (record s { frame = c; deeds = local_deed s.frame ∷ s.deeds })

  unfoldable pub send_frame : R Bool
  send_frame s = done (w.sends s.deeds s.frame) (record s { deeds = sent_deed s.frame ∷ s.deeds })

  -- `ruler_wait_event`: the first stamp, if the driver gave one.
  unfoldable pub ruler_wait_event : ℕ → R (Option Timespec)
  ruler_wait_event inch = do
    cmd ← get_ruler_cmd
    errno ←
        ioctl_ruler_cmd (record cmd { command = cmd_name_stamp; flags = f_wait; channel = inch })
    answer ← get_ruler_cmd
    elim errno [
      | some n ↦ pure none
      | none ↦ (checked (get_elem? answer.t 0) >>= λ ts. pure (some ts))
    ]

  -- The frame's command goes to the network or to the local driver: whether that went well.
  unfoldable pub perform : Bool → R Bool
  unfolding send_frame ioctl_frame
  perform isremote =
      if isremote
      then send_frame
      else (ioctl_frame >>= λ errno. pure (elim errno [ none ↦ true | some n ↦ false ]))

  -- One action.
  unfoldable pub run_action : ℕ → Timespec → RulerAction → R Bool
  unfolding perform
  run_action inch ts a = do
    cmd ← get_frame
    put_frame (action_cmd inch ts a cmd)
    perform a.isremote

  -- The loop of `ruler_run_actions`.
  unfoldable pub run_loop : ℕ → Timespec → List RulerAction → R Bool
  unfolding run_action
  run_loop inch ts [] = pure true
  run_loop inch ts (a ∷ actions) = do
    fine ← run_action inch ts a
    if fine then run_loop inch ts actions else pure false

  -- `ruler_run_actions`.
  unfoldable pub ruler_run_actions : ℕ → Timespec → List RulerAction → R Bool
  unfolding run_loop
  ruler_run_actions inch ts actions = do
    cmd ← get_frame
    put_frame (prepared cmd)
    run_loop inch ts actions

  -- The loop of `main`, with fuel.
  unfoldable pub ruler_loop : ℕ → ℕ → List RulerAction → R RulerEnd
  unfolding ruler_wait_event ruler_run_actions
  ruler_loop zero inch actions = λ s. waiting
  ruler_loop (suc fuel) inch actions = do
    ts ← ruler_wait_event inch
    elim ts [
      | none ↦ pure ruler_exit
      | some ts ↦ do
        fine ← ruler_run_actions inch ts actions
        if fine then ruler_loop fuel inch actions else pure ruler_exit
    ]

  -- `main`, for the arguments behind the tool's name; `opened` is `ruler_open_wr_sock`.
  unfoldable pub ruler_main : RulerEnv → Bool → ℕ → List Text → R RulerEnd
  unfolding ruler_loop
  ruler_main e opened fuel (ifname ∷ input ∷ action ∷ more) =
      if opened
      then elim (ruler_config_in e input) [
        | none ↦ pure ruler_exit
        | some inch ↦ elim (ruler_build_actions e (action ∷ more)) [
          | built actions ↦ ruler_loop fuel inch actions
          | build_refused ↦ pure ruler_exit
          | build_crashed ↦ stop
        ]
      ]
      else pure ruler_exit
  ruler_main e opened fuel (ifname ∷ input ∷ []) = pure ruler_exit
  ruler_main e opened fuel (ifname ∷ []) = pure ruler_exit
  ruler_main e opened fuel [] = pure ruler_exit

-- The statics as the tool starts.
abbrev pub ruler_start : Ruler
ruler_start = record { ruler_cmd = initial_cmd; frame = initial_cmd; deeds = [] }
