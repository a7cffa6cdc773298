-- ===== src/Ruler/Run.antt =====
-- What wr-dio-ruler.c asks for: each action in order, and nothing for a channel that does not exist.
use mathlib.Core.Path.{subst}
use sbndaq_wr.Base.{
  ℕ, ◌*◌, ◌<◌, ◌≡◌, ◌⊎◌, inl, inr, ◌∙◌, refl, sym, ap, List, [], ◌∷◌, none, some, Bool, true, false,
  length, get_elem?, set, if◌then◌else◌, arith, get_elem?-set_self, get_elem?-set_ne, length-set,
  get_elem?_in,
}
use sbndaq_wr.Base.Triples.{
  Ensures, Ensures-weaken, Triple, returns, Triple-bind, Triple-pure, Triple-if,
}
use sbndaq_wr.Mmio.{Timespec}
use sbndaq_wr.Dio.Device.{Cmd}
use sbndaq_wr.Dio.Ioctl.{cmd_name_pulse}
use sbndaq_wr.Ruler.Actions.{RulerAction}
use sbndaq_wr.Ruler.Tool.{
  Deed, local_deed, sent_deed, Ruler, World, get_frame, put_frame, action_time, marked, action_cmd,
  prepared, ioctl_frame, send_frame, perform, run_action, run_loop, ruler_run_actions,
}

-- The width of the pulses.
abbrev pub one_ms : Timespec
one_ms = record { tv_sec = 0; tv_nsec = 1000 * 1000 }

-- The command for an action: a pulse of a millisecond at the time of the event and the delay, with the
-- number of the input.
pub record IsAction (inch : ℕ) (ts : Timespec) (a : RulerAction) (c : Cmd) : Type 0 where
  pub command : c.command ≡ cmd_name_pulse
  pub channel : c.channel ≡ a.channel
  pub value : c.value ≡ inch
  pub flags : c.flags ≡ 0
  pub size : length c.t ≡ 16
  pub time : get_elem? c.t 0 ≡ some (action_time ts a.delay)
  pub width : get_elem? c.t 1 ≡ some one_ms

abbrev deed_with : Bool → Cmd → Deed
deed_with isremote c = if isremote then sent_deed c else local_deed c

abbrev pub deed_of : RulerAction → Cmd → Deed
deed_of a c = deed_with a.isremote c

-- Whether the network takes a command after some deeds, or the driver does.
abbrev pub succeeds_with : World → Bool → List Deed → Cmd → Bool
succeeds_with w isremote deeds c =
    if isremote
    then w.sends deeds c
    else (elim (w.ioctl deeds c).0 [ none ↦ true | some n ↦ false ])

abbrev pub succeeds : World → RulerAction → List Deed → Cmd → Bool
succeeds w a deeds c = succeeds_with w a.isremote deeds c

-- The deeds for some actions, in order, remote ones on the network and the others on this machine.
-- They all succeed; or they do up to one that fails, and it is the last one.
pub data IsRun (w : World) (inch : ℕ) (ts : Timespec)
    : Bool → List RulerAction → List Deed → List Deed → Type 0 where
  no_action : {deeds : List Deed} → IsRun w inch ts true [] deeds deeds
  last_action :
      {a : RulerAction} {actions : List RulerAction} {deeds : List Deed} (c : Cmd)
      → IsAction inch ts a c
      → succeeds w a deeds c ≡ false
      → IsRun w inch ts false (a ∷ actions) deeds (deed_of a c ∷ deeds)
  next_action :
      {b : Bool} {a : RulerAction} {actions : List RulerAction} {deeds deeds' : List Deed} (c : Cmd)
      → IsAction inch ts a c
      → succeeds w a deeds c ≡ true
      → IsRun w inch ts b actions (deed_of a c ∷ deeds) deeds'
      → IsRun w inch ts b (a ∷ actions) deeds deeds'

-- What the driver leaves of a pulse command without flags: all but the time.
pub record IsKept (c c' : Cmd) : Type 0 where
  pub command : c'.command ≡ c.command
  pub value : c'.value ≡ c.value
  pub flags : c'.flags ≡ c.flags
  pub size : length c'.t ≡ length c.t
  pub width : get_elem? c'.t 1 ≡ get_elem? c.t 1

pub record IsKernel (w : World) : Type 0 where
  pub keeps_pulse :
      (deeds : List Deed) (c : Cmd)
      → c.command ≡ cmd_name_pulse
      → c.flags ≡ 0
      → IsKept c (w.ioctl deeds c).1
  pub keeps_size : (deeds : List Deed) (c : Cmd) → length (w.ioctl deeds c).1.t ≡ length c.t

-- The frame between two runs, and within one.
pub record IsFrame (inch : ℕ) (c : Cmd) : Type 0 where
  pub value : (c.value ≡ 0) ⊎ (c.value ≡ inch)
  pub flags : c.flags ≡ 0
  pub size : length c.t ≡ 16
  pub seconds : (ts : Timespec) → get_elem? c.t 1 ≡ some ts → ts.tv_sec ≡ 0

pub record IsPrepared (inch : ℕ) (c : Cmd) : Type 0 where
  pub command : c.command ≡ cmd_name_pulse
  pub value : (c.value ≡ 0) ⊎ (c.value ≡ inch)
  pub flags : c.flags ≡ 0
  pub size : length c.t ≡ 16
  pub width : get_elem? c.t 1 ≡ some one_ms

marked_lem : (inch value : ℕ) → inch < 5 → (value ≡ 0) ⊎ (value ≡ inch) → marked inch value ≡ inch
marked_lem inch value h v = ground arith

action_cmd-IsAction :
    (inch : ℕ) (ts : Timespec) (a : RulerAction) (c : Cmd)
    → inch < 5
    → IsPrepared inch c
    → IsAction inch ts a (action_cmd inch ts a c)
action_cmd-IsAction inch ts a c h p = record {
  command = p.command;
  channel = refl;
  value = marked_lem inch c.value h p.value;
  flags = p.flags;
  size = length-set c.t 0 (action_time ts a.delay) ∙ p.size;
  time = get_elem?-set_self c.t 0 (action_time ts a.delay) (omega (arith, p.size));
  width = get_elem?-set_ne c.t 0 1 (action_time ts a.delay) (omega arith) ∙ p.width;
}

-- A command that was used is ready for the next action.
IsAction-IsPrepared :
    {inch : ℕ} {ts : Timespec} {a : RulerAction} {c : Cmd}
    → IsAction inch ts a c
    → IsPrepared inch c
IsAction-IsPrepared i = record {
  command = i.command;
  value = inr i.value;
  flags = i.flags;
  size = i.size;
  width = i.width;
}

kept-IsPrepared : {inch : ℕ} {c c' : Cmd} → IsPrepared inch c → IsKept c c' → IsPrepared inch c'
kept-IsPrepared p k = record {
  command = k.command ∙ p.command;
  value = elim p.value [ inl z ↦ inl (k.value ∙ z) | inr z ↦ inr (k.value ∙ z) ];
  flags = k.flags ∙ p.flags;
  size = k.size ∙ p.size;
  width = k.width ∙ p.width;
}

prepared_t :
    (c : Cmd) (old : Timespec)
    → get_elem? c.t 1 ≡ some old
    → (prepared c).t ≡ set c.t 1 (record old { tv_nsec = 1000 * 1000 })
prepared_t c old e =
    ap
      (λ o. elim o [ none ↦ c.t | some width ↦ set c.t 1 (record width { tv_nsec = 1000 * 1000 }) ])
      e

prepared-IsPrepared : {inch : ℕ} (c : Cmd) → IsFrame inch c → IsPrepared inch (prepared c)
prepared-IsPrepared c f =
    let (old, e) = get_elem?_in c.t 1 (omega (arith, f.size)) in
    let new : Timespec = record old { tv_nsec = 1000 * 1000 } in
    record {
      command = refl;
      value = f.value;
      flags = f.flags;
      size = ap length (prepared_t c old e) ∙ length-set c.t 1 new ∙ f.size;
      width =
          ap (λ (t : List Timespec). get_elem? t 1) (prepared_t c old e)
          ∙ get_elem?-set_self c.t 1 new (omega (arith, f.size))
          ∙ ap (λ n. some (record { tv_sec = n; tv_nsec = 1000 * 1000 })) (f.seconds old e);
    }

-- The end of a run, with nothing more to do or after a failure.
IsRun-end :
    {w : World} {inch : ℕ} {ts : Timespec} {deeds deeds' : List Deed}
    → deeds' ≡ deeds
    → IsRun w inch ts true [] deeds deeds'
IsRun-end {w} {inch} {ts} {deeds} e =
    subst (λ ds. IsRun w inch ts true [] deeds ds) (sym e) no_action

IsRun-last :
    {w : World} {inch : ℕ} {ts : Timespec} {a : RulerAction} {actions : List RulerAction}
    {deeds deeds' : List Deed} (c : Cmd)
    → IsAction inch ts a c
    → succeeds w a deeds c ≡ false
    → deeds' ≡ deed_of a c ∷ deeds
    → IsRun w inch ts false (a ∷ actions) deeds deeds'
IsRun-last {w} {inch} {ts} {a} {actions} {deeds} c i failed e =
    subst (λ ds. IsRun w inch ts false (a ∷ actions) deeds ds) (sym e) (last_action c i failed)

module _ (w : World) (kernel : IsKernel w) (inch : ℕ) (small : inch < 5) (ts : Timespec)
    (own : Cmd) where
  -- A frame that the next action can use, and the command of the other calls as it was.
  abbrev Loaded : Ruler → Type 0
  Loaded s = IsPrepared inch s.frame × (s.ruler_cmd ≡ own)

  -- The state after some deeds.
  abbrev Ready : List Deed → Ruler → Type 0
  Ready deeds s = (s.deeds ≡ deeds) × Loaded s

  perform_lem :
      {W : Type 0} (isremote : Bool) (s : Ruler)
      → Loaded s
      → Ensures W
          (λ b s'.
            (b ≡ succeeds_with w isremote s.deeds s.frame)
            × Ready (deed_with isremote s.frame ∷ s.deeds) s')
          (perform w isremote s)
  unfolding perform send_frame ioctl_frame
  perform_lem true s p = returns (refl, (refl, p))
  perform_lem false s (p, o) =
      returns (
        refl,
        (refl, (kept-IsPrepared p (kernel.keeps_pulse s.deeds s.frame p.command p.flags), o)),
      )

  -- One action: what is asked for, and whether that succeeds.
  Performed : RulerAction → List Deed → Bool → Ruler → Type 0
  Performed a deeds b s =
      (c : Cmd) × IsAction inch ts a c × (b ≡ succeeds w a deeds c) × Ready (deed_of a c ∷ deeds) s

  run_action-Triple :
      {W : Type 0} (a : RulerAction) (deeds : List Deed)
      → Triple W (Ready deeds) (run_action w inch ts a) (Performed a deeds)
  unfolding run_action get_frame put_frame Performed
  run_action-Triple a deeds = record {
    at = λ s (d, (p, o)).
        let i = action_cmd-IsAction inch ts a s.frame small p in
        Ensures-weaken
          (λ b s' (same, (e, q)). (
            action_cmd inch ts a s.frame,
            i,
            same ∙ ap (λ ds. succeeds w a ds (action_cmd inch ts a s.frame)) d,
            (e ∙ ap (λ ds. deed_of a (action_cmd inch ts a s.frame) ∷ ds) d, q),
          ))
          (perform_lem a.isremote (record s { frame = action_cmd inch ts a s.frame })
            (IsAction-IsPrepared i, o));
  }

  -- The loop, from some deeds on.
  run_loop-Triple :
      {W : Type 0} (actions : List RulerAction) (deeds : List Deed)
      → Triple W
          (Ready deeds)
          (run_loop w inch ts actions)
          (λ b s. IsRun w inch ts b actions deeds s.deeds × Loaded s)
  unfolding run_loop Performed
  run_loop-Triple [] deeds = Triple-pure true (λ s (d, p). (IsRun-end d, p))
  run_loop-Triple (a ∷ actions) deeds = Triple-bind (run_action-Triple a deeds) λ fine.
      Triple-if fine
        (λ yes. record {
          at = λ s (c, i, same, rest).
              Ensures-weaken (λ b s' (q, p). (next_action c i (sym same ∙ yes) q, p))
                ((run_loop-Triple actions (deed_of a c ∷ deeds)).at s rest);
        })
        (λ no. Triple-pure false (λ s (c, i, same, (d, p)). (IsRun-last c i (sym same ∙ no) d, p)))

  -- On a kernel that leaves a pulse command without flags as it is but for its time, with an input below 5 and the frame of
  -- the earlier runs, a run of `ruler_run_actions` returns. It asks for the pulse of each action in order, remote ones on the
  -- network and the others on this machine, each at the time of the event and its delay with a width of a millisecond and
  -- with the number of the input. If its result is good, all actions were asked for and each of them succeeded; if not, it
  -- ended with the first one that failed, and all before it succeeded.
  pub ruler_run_actions-Triple :
      {W : Type 0} (actions : List RulerAction) (deeds : List Deed)
      → Triple W
          (λ s. (s.deeds ≡ deeds) × IsFrame inch s.frame × (s.ruler_cmd ≡ own))
          (ruler_run_actions w inch ts actions)
          (λ b s. IsRun w inch ts b actions deeds s.deeds × Loaded s)
  unfolding ruler_run_actions get_frame put_frame
  ruler_run_actions-Triple actions deeds = record {
    at = λ s (d, f, o).
        (run_loop-Triple actions deeds).at (record s { frame = prepared s.frame })
          (d, (prepared-IsPrepared s.frame f, o));
  }
