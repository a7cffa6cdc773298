-- ===== src/Ruler/Actions.antt =====
-- The arguments of wr-dio-ruler.c: `ruler_config_in` and `ruler_build_actions`.
use sbndaq_wr.Base.{
  ℕ, suc, ◌^◌, ◌<◌, ◌≡◌, refl, ap, List, [], ◌∷◌, Option, none, some, Bool, true, false, not, ltb,
  ◌==◌, ◌&&◌, ◌||◌, length, arith, if◌then◌else◌,
}
use sbndaq_wr.Mmio.{Timespec}
use sbndaq_wr.DioCmd.State.{Text, Env, Scanned, matched}
use sbndaq_wr.DioCmd.Times.{Parsed, parsed, refused, crashed, parse_ts}

-- `struct ruler_action`.
pub record RulerAction : Type 0 where
  pub isremote : Bool
  pub channel : ℕ
  pub delay : Timespec

-- What `sscanf` with "%c%i+%c" stores.
pub record ActionScan : Type 0 where
  pub fields : Option ℕ
  pub lr : ℕ
  pub ch : ℕ

-- What is not in the repository: the functions that `parse_ts` uses, which is the same text as in
-- wr-dio-cmd.c, `sscanf` with the formats "IN%i%c" and "%c%i+%c", and whether `calloc` succeeds.
pub record RulerEnv : Type 0 where
  pub libc : Env
  pub scan_in : Text → Scanned
  pub scan_action : Text → ActionScan
  pub allocated : Bool

-- `ch < 0 || ch > 4` for an `int`.
abbrev pub out_of_channels : ℕ → Bool
out_of_channels ch = not (ltb ch (2 ^ 31)) || ltb 4 ch

-- The channel that is watched; `none` is -1.
unfoldable pub ruler_config_in : RulerEnv → Text → Option ℕ
ruler_config_in e chname =
    let r = e.scan_in chname in
    if matched r 1 then (if out_of_channels r.value then none else some r.value) else none

-- `strchr(s, '+') + 1`.
unfoldable pub after_plus : Text → Option Text
after_plus [] = none
after_plus (c ∷ s) = if c == 43 then some s else after_plus s

-- `build_crashed` is `strlen` of the pointer behind a null pointer.
pub data Built : Type 0 where
  built : List RulerAction → Built
  build_refused build_crashed : Built

-- One argument: an action, or how the function ends.
unfoldable pub build_action : RulerEnv → Text → (RulerAction → Built) → Built
unfolding after_plus
build_action e s rest =
    let r = e.scan_action s in
    if elim r.fields [ none ↦ true | some n ↦ not (n == 3) ]
    then build_refused
    else if not (r.lr == 76) && not (r.lr == 82)
    then build_refused
    else if out_of_channels r.ch
    then build_refused
    else elim (after_plus s) [
      | none ↦ build_crashed
      | some time ↦ elim (parse_ts e.libc time) [
        | parsed delay ↦
            rest (record { isremote = not (r.lr == 76); channel = r.ch; delay = delay })
        | refused ↦ build_refused
        | crashed ↦ build_crashed
      ]
    ]

-- The loop over the arguments.
unfoldable pub build_all : RulerEnv → List Text → (List RulerAction → Built) → Built
unfolding build_action
build_all e [] rest = rest []
build_all e (s ∷ strings) rest =
    build_action e s (λ a. build_all e strings (λ actions. rest (a ∷ actions)))

-- `ruler_build_actions`.
unfoldable pub ruler_build_actions : RulerEnv → List Text → Built
unfolding build_all
ruler_build_actions e strings = if not e.allocated then build_refused else build_all e strings built

-- An action on a channel that exists.
abbrev pub AllActions : List RulerAction → Type 0
AllActions [] = Unit
AllActions (a ∷ actions) = (a.channel < 5) × AllActions actions

-- The result of building `n` actions.
abbrev pub IsBuilt : ℕ → Built → Type 0
IsBuilt n (built actions) = (length actions ≡ n) × AllActions actions
IsBuilt n build_refused = Unit
IsBuilt n build_crashed = Unit

small_channel : (ch : ℕ) → out_of_channels ch ≡ false → ch < 5
small_channel ch h = ground arith

-- What holds of the result of an argument, if it holds of what each of its ends gives.
module _ (P : Built → Type 0) (refused_has : P build_refused) (crashed_has : P build_crashed) where
  unless : (b : Bool) {x : Built} → (b ≡ false → P x) → P (if b then build_refused else x)
  unless true px = refused_has
  unless false px = px refl

  delay_lem :
      (rest : Timespec → Built) (r : Parsed)
      → ((ts : Timespec) → P (rest ts))
      → P (elim r [ parsed ts ↦ rest ts | refused ↦ build_refused | crashed ↦ build_crashed ])
  delay_lem rest (parsed ts) good = good ts
  delay_lem rest refused good = refused_has
  delay_lem rest crashed good = crashed_has

  time_lem :
      (rest : Text → Built) (time : Option Text)
      → ((s : Text) → P (rest s))
      → P (elim time [ none ↦ build_crashed | some s ↦ rest s ])
  time_lem rest none good = crashed_has
  time_lem rest (some s) good = good s

  build_action_lem :
      (e : RulerEnv) (s : Text) (rest : RulerAction → Built)
      → ((a : RulerAction) → a.channel < 5 → P (rest a))
      → P (build_action e s rest)
  unfolding build_action
  build_action_lem e s rest good =
      let r = e.scan_action s in
      let action : Timespec → RulerAction =
        λ delay. record { isremote = not (r.lr == 76); channel = r.ch; delay = delay } in
      unless (elim r.fields [ none ↦ true | some n ↦ not (n == 3) ])
        λ _. unless (not (r.lr == 76) && not (r.lr == 82)) λ _.
          unless (out_of_channels r.ch) λ fits.
            time_lem
              (λ time. elim (parse_ts e.libc time) [
                | parsed delay ↦ rest (action delay)
                | refused ↦ build_refused
                | crashed ↦ build_crashed
              ])
              (after_plus s)
              λ time.
                delay_lem (λ delay. rest (action delay)) (parse_ts e.libc time)
                  λ delay. good (action delay) (small_channel r.ch fits)

build_all_lem :
    (P : Built → Type 0) (e : RulerEnv) (strings : List Text) (rest : List RulerAction → Built)
    → P build_refused
    → P build_crashed
    → ((actions : List RulerAction)
        → length actions ≡ length strings
        → AllActions actions
        → P (rest actions))
    → P (build_all e strings rest)
unfolding build_all
build_all_lem P e [] rest r c good = good [] refl tt
build_all_lem P e (s ∷ strings) rest r c good =
    build_action_lem P r c e s (λ a. build_all e strings (λ actions. rest (a ∷ actions)))
      λ a fits.
        build_all_lem P e strings (λ actions. rest (a ∷ actions)) r c
          λ actions n all. good (a ∷ actions) (ap suc n) (fits, all)

-- If actions are built, they are as many as the arguments, and each is on a channel that exists.
pub ruler_build_actions-IsBuilt :
    (e : RulerEnv) (strings : List Text) → IsBuilt (length strings) (ruler_build_actions e strings)
unfolding ruler_build_actions
ruler_build_actions-IsBuilt e strings =
    unless (IsBuilt (length strings)) tt tt (not e.allocated) λ _.
      build_all_lem (IsBuilt (length strings)) e strings built tt tt (λ actions n all. (n, all))
