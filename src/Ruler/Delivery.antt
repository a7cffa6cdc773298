-- ===== src/Ruler/Delivery.antt =====
-- The tool as a whole, and the machines that its frames reach.
use mathlib.Core.Path.{subst}
use sbndaq_wr.Base.{
  ℕ, zero, suc, ◌<◌, ◌≡◌, ◌≢◌, inl, ◌∙◌, refl, sym, ap, List, [], ◌∷◌, Option, none, some, Bool,
  true, false, pure, ◌>>=◌, length, get_elem?, if◌then◌else◌, arith, get_elem?_in, checked, stop,
}
use sbndaq_wr.Base.Triples.{
  Ensures-weaken, Triple, Keeps, returns, blocks, Triple-bind, Triple-pure, Triple-given,
  Triple-pre, Triple-post, Triple-if, Triple-checked,
}
use sbndaq_wr.Mmio.{Timespec}
use sbndaq_wr.Dio.Device.{Cmd, f_wait}
use sbndaq_wr.Dio.Ioctl.{cmd_name_stamp}
use sbndaq_wr.DioCmd.State.{Text, matched}
use sbndaq_wr.Ruler.Actions.{
  RulerEnv, RulerAction, AllActions, Built, built, build_refused, build_crashed, IsBuilt,
  out_of_channels, ruler_config_in, ruler_build_actions, ruler_build_actions-IsBuilt,
}
use sbndaq_wr.Ruler.Tool.{
  Deed, local_deed, sent_deed, Ruler, R, World, RulerEnd, ruler_exit, ruler_start, ruler_wait_event,
  ruler_run_actions, ruler_loop, ruler_main, get_ruler_cmd, ioctl_ruler_cmd,
}
use sbndaq_wr.Ruler.Run.{
  IsRun, no_action, last_action, next_action, IsKernel, IsFrame, IsPrepared,
  ruler_run_actions-Triple,
}

-- A command that no driver refuses to survive: its arrays are whole, and it is for a channel that exists.
pub record IsFit (c : Cmd) : Type 0 where
  pub size : length c.t ≡ 16
  pub channel : c.channel < 5

abbrev pub cmd_of : Deed → Cmd
cmd_of (local_deed c) = c
cmd_of (sent_deed c) = c

abbrev pub AllFit : List Deed → Type 0
AllFit [] = Unit
AllFit (x ∷ deeds) = IsFit (cmd_of x) × AllFit deeds

deed-IsFit :
    (isremote : Bool) (c : Cmd)
    → IsFit c
    → IsFit (cmd_of (if isremote then sent_deed c else local_deed c))
deed-IsFit true c fit = fit
deed-IsFit false c fit = fit

IsRun-AllFit :
    {w : World} {inch : ℕ} {ts : Timespec} {b : Bool} {actions : List RulerAction}
    {deeds deeds' : List Deed}
    → AllActions actions
    → AllFit deeds
    → IsRun w inch ts b actions deeds deeds'
    → AllFit deeds'
IsRun-AllFit all f no_action = f
IsRun-AllFit all f (last_action {a} c i failed) = (
  deed-IsFit a.isremote c (record { size = i.size; channel = omega (arith, i.channel, all.0) }),
  f,
)
IsRun-AllFit all f (next_action {a = a} c i fine r) =
    IsRun-AllFit all.1
      (
        deed-IsFit a.isremote c
            (record { size = i.size; channel = omega (arith, i.channel, all.0) }),
        f,
      )
      r

-- The state between two rounds.
pub record IsRuler (inch : ℕ) (s : Ruler) : Type 0 where
  pub deeds : AllFit s.deeds
  pub answer : length s.ruler_cmd.t ≡ 16
  pub frame : IsFrame inch s.frame

seconds_of : Option Timespec → ℕ
seconds_of none = 0
seconds_of (some ts) = ts.tv_sec

IsPrepared-IsFrame : {inch : ℕ} {c : Cmd} → IsPrepared inch c → IsFrame inch c
unfolding seconds_of
IsPrepared-IsFrame p = record {
  value = p.value;
  flags = p.flags;
  size = p.size;
  seconds = λ ts e. ap seconds_of (sym e ∙ p.width);
}

small_channel : (ch : ℕ) → out_of_channels ch ≡ false → ch < 5
small_channel ch h = ground arith

-- A channel that `ruler_config_in` returns is there.
IsInput : Option ℕ → Type 0
IsInput none = Unit
IsInput (some inch) = inch < 5

within :
    (matches out : Bool) (n : ℕ)
    → out_of_channels n ≡ out
    → IsInput (if matches then (if out then none else some n) else none)
unfolding IsInput
within true true n e = tt
within true false n e = small_channel n e
within false out n e = tt

ruler_config_in-IsInput : (e : RulerEnv) (input : Text) → IsInput (ruler_config_in e input)
unfolding ruler_config_in
ruler_config_in-IsInput e input =
    within (matched (e.scan_in input) 1) (out_of_channels (e.scan_in input).value)
      (e.scan_in input).value refl

module _ (w : World) (kernel : IsKernel w) (inch : ℕ) (small : inch < 5) where
  ask-Keeps : {W : Type 0} (cmd : Cmd) → IsFit cmd → Keeps W (IsRuler inch) (ioctl_ruler_cmd w cmd)
  unfolding ioctl_ruler_cmd
  ask-Keeps cmd fit = record {
    at = λ s r. returns (record {
      deeds = (fit, r.deeds);
      answer = kernel.keeps_size s.deeds cmd ∙ fit.size;
      frame = r.frame;
    });
  }

  get_ruler_cmd-Triple :
      {W : Type 0}
      → Triple W (IsRuler inch) get_ruler_cmd (λ c s. (length c.t ≡ 16) × IsRuler inch s)
  unfolding get_ruler_cmd
  get_ruler_cmd-Triple = record { at = λ s r. returns (r.answer, r) }

  first_stamp :
      {W : Type 0} (errno : Option ℕ) (answer : Cmd)
      → length answer.t ≡ 16
      → Keeps W (IsRuler inch) (elim errno [
        | some n ↦ pure none
        | none ↦ (checked (get_elem? answer.t 0) >>= λ ts. pure (some ts))
      ])
  first_stamp (some n) answer full = Triple-pure none (λ s r. r)
  first_stamp none answer full =
      let (ts, e) = get_elem?_in answer.t 0 (omega (arith, full)) in
      Triple-bind {R = λ _. IsRuler inch} (Triple-checked ts e (λ s r. r))
        (λ t. Triple-pure (some t) (λ s r. r))

  ruler_wait_event-Keeps : {W : Type 0} → Keeps W (IsRuler inch) (ruler_wait_event w inch)
  unfolding ruler_wait_event
  ruler_wait_event-Keeps = Triple-bind get_ruler_cmd-Triple λ cmd. Triple-given λ full.
      Triple-bind
        (ask-Keeps (record cmd { command = cmd_name_stamp; flags = f_wait; channel = inch })
          (record { size = full; channel = small }))
        λ errno.
          Triple-bind get_ruler_cmd-Triple
            λ answer. Triple-given λ whole. first_stamp errno answer whole

  run-Keeps :
      {W : Type 0} (ts : Timespec) (actions : List RulerAction)
      → AllActions actions
      → Keeps W (IsRuler inch) (ruler_run_actions w inch ts actions)
  run-Keeps ts actions all = record {
    at = λ s r.
        Ensures-weaken
          (λ b s' (run, (p, o)). record {
            deeds = IsRun-AllFit all r.deeds run;
            answer = ap (λ (c : Cmd). length c.t) o ∙ r.answer;
            frame = IsPrepared-IsFrame p;
          })
          ((ruler_run_actions-Triple w kernel inch small ts s.ruler_cmd actions s.deeds).at s
            (refl, r.frame, refl));
  }

  -- A round, before what comes next.
  round :
      {W : Type 0} (next : R RulerEnd) (actions : List RulerAction) (event : Option Timespec)
      → AllActions actions
      → Keeps W (IsRuler inch) next
      → Keeps W (IsRuler inch) (elim event [
        | none ↦ pure ruler_exit
        | some ts ↦
            (ruler_run_actions w inch ts actions >>= λ fine. if fine then next else pure ruler_exit)
      ])
  round next actions none all k = Triple-pure ruler_exit (λ s r. r)
  round next actions (some ts) all k =
      Triple-bind (run-Keeps ts actions all)
        λ fine. Triple-if fine (λ _. k) (λ _. Triple-pure ruler_exit (λ s r. r))

  ruler_loop-Keeps :
      (fuel : ℕ) (actions : List RulerAction)
      → AllActions actions
      → Keeps (Unit {0}) (IsRuler inch) (ruler_loop w fuel inch actions)
  unfolding ruler_loop
  ruler_loop-Keeps zero actions all = record { at = λ s r. blocks tt }
  ruler_loop-Keeps (suc fuel) actions all = Triple-bind ruler_wait_event-Keeps λ event.
      round (ruler_loop w fuel inch actions) actions event all (ruler_loop-Keeps fuel actions all)

-- What the tool asked for when it ends.
abbrev pub HasAsked : RulerEnd → Ruler → Type 0
HasAsked r s = AllFit s.deeds

module _ (w : World) (kernel : IsKernel w) (e : RulerEnv) where
  start_loop :
      (fuel n inch : ℕ) (actions : Built)
      → inch < 5
      → IsBuilt n actions
      → actions ≢ build_crashed
      → Triple
          (Unit {0})
          (λ s. s ≡ ruler_start)
          (elim actions [
            | built as_built ↦ ruler_loop w fuel inch as_built
            | build_refused ↦ pure ruler_exit
            | build_crashed ↦ stop
          ])
          HasAsked
  unfolding seconds_of
  start_loop fuel n inch (built actions) small b sound =
      Triple-pre
        (λ s q. subst (IsRuler inch) (sym q) (record {
          deeds = tt;
          answer = refl;
          frame = record {
            value = inl refl;
            flags = refl;
            size = refl;
            seconds = λ ts x. ap seconds_of (sym x);
          };
        }))
        (Triple-post (λ r s k. k.deeds) (ruler_loop-Keeps w kernel inch small fuel actions b.1))
  start_loop fuel n inch build_refused small b sound =
      Triple-pure ruler_exit (λ s q. subst (λ x. AllFit x.deeds) (sym q) tt)
  start_loop fuel n inch build_crashed small b sound = absurd (sound refl)

  start_input :
      (fuel : ℕ) (strings : List Text) (input : Option ℕ)
      → IsInput input
      → ruler_build_actions e strings ≢ build_crashed
      → Triple
          (Unit {0})
          (λ s. s ≡ ruler_start)
          (elim input [
            | none ↦ pure ruler_exit
            | some inch ↦ elim (ruler_build_actions e strings) [
              | built actions ↦ ruler_loop w fuel inch actions
              | build_refused ↦ pure ruler_exit
              | build_crashed ↦ stop
            ]
          ])
          HasAsked
  unfolding IsInput
  start_input fuel strings none small sound =
      Triple-pure ruler_exit (λ s q. subst (λ x. AllFit x.deeds) (sym q) tt)
  start_input fuel strings (some inch) small sound =
      start_loop fuel (length strings) inch (ruler_build_actions e strings) small
        (ruler_build_actions-IsBuilt e strings) sound

  -- Whatever its arguments are, the tool asks only for whole commands for channels that exist, here and on other
  -- machines, if a time of an action does not make it crash.
  pub ruler_main-HasAsked :
      (opened : Bool) (fuel : ℕ) (ifname input action : Text) (more : List Text)
      → ruler_build_actions e (action ∷ more) ≢ build_crashed
      → Triple
          (Unit {0})
          (λ s. s ≡ ruler_start)
          (ruler_main w e opened fuel (ifname ∷ input ∷ action ∷ more))
          HasAsked
  unfolding ruler_main
  ruler_main-HasAsked true fuel ifname input action more sound =
      start_input fuel (action ∷ more) (ruler_config_in e input) (ruler_config_in-IsInput e input)
        sound
  ruler_main-HasAsked false fuel ifname input action more sound =
      Triple-pure ruler_exit (λ s q. subst (λ x. AllFit x.deeds) (sym q) tt)
