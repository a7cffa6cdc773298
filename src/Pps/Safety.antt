-- ===== src/Pps/Safety.antt =====
-- The tool always ends, and leaves the driver in a good state.
use sbndaq_wr.Base.{
  ℕ, if◌then◌else◌, ◌<◌, ◌≡◌, refl, List, [], ◌∷◌, none, some, Bool, true, false, arith, pure, ltb,
  ◌&&◌,
}
use sbndaq_wr.Base.Triples.{Triple, Triple-bind, Triple-pure, Triple-pre, Triple-post, Triple-if}
use sbndaq_wr.Mmio
use sbndaq_wr.Dio.Device.{Driver, Cmd, enomem, efault, eagain, M}
use sbndaq_wr.Dio.Invariant.{IsDriver}
use sbndaq_wr.Dio.Ioctl.{
  Services, priv_mezzanine_id, priv_mezzanine_cmd, mezzanine_ioctl, dispatch, copy_out,
}
use sbndaq_wr.Dio.Pulse.Safety.{cmd_pulse-Triple}
use sbndaq_wr.DioCmd.State.{Text, Env, matched, initial_cmd}
use sbndaq_wr.Ruler.Agent.{is_ok}
use sbndaq_wr.Pps.{
  PpsEnd, exit_zero, exit_one, default_ifname, pps_cmd, pps_ioctl, pps_calls, pps_run, pps_main,
}

-- The arguments of a tool that succeeds: an interface of the card, by default wr0, and a channel from 1 to 4.
pub record IsPort (t : Env) (on_card : Text → Bool) (ifname channel : Text) : Type 0 where
  pub whole : matched (t.scan_int channel) 1 ≡ true
  pub above : 0 < (t.scan_int channel).value
  pub below : (t.scan_int channel).value < 5
  pub opened : t.socket_opens ≡ true
  pub card : on_card ifname ≡ true

abbrev pub IsAsked : Env → (Text → Bool) → List Text → Type 0
IsAsked t on_card [] = ⊥
IsAsked t on_card (channel ∷ []) = IsPort t on_card default_ifname channel
IsAsked t on_card (ifname ∷ channel ∷ []) = IsPort t on_card ifname channel
IsAsked t on_card (ifname ∷ channel ∷ next ∷ more) = ⊥

abbrev pub IsEnded : Type 0 → PpsEnd → Driver → Type 0
IsEnded A r d = IsDriver false d × (r ≡ exit_zero → A)

failed : (A : Type 0) → exit_one ≡ exit_zero → A
failed A e = cc

module _ (t : Env) (on_card : Text → Bool) (e : Mmio.Env) (k : Services) where
  pps_pulse-Triple :
      (ch : ℕ)
      → Triple ⊥
          (IsDriver false)
          (mezzanine_ioctl e k [] priv_mezzanine_cmd (pps_cmd ch))
          (λ r d. IsDriver false d)
  unfolding mezzanine_ioctl dispatch
  pps_pulse-Triple ch =
      Triple-if k.allocated
        (λ _.
          Triple-if k.copied_in
            (λ _.
              Triple-bind
                (Triple-bind (cmd_pulse-Triple e (pps_cmd ch) refl)
                  (λ r. Triple-pure (r.0, some r.1) (λ d v. v.1)))
                (λ r. Triple-pure (copy_out k.copied_out r) (λ d v. v)))
            (λ _. Triple-pure (efault, none) (λ d v. v)))
        (λ _. Triple-pure (enomem, none) (λ d v. v))

  pps_ioctl-Triple :
      (ifname : Text) (request : ℕ) (cmd : Cmd)
      → Triple ⊥ (IsDriver false) (mezzanine_ioctl e k [] request cmd) (λ r d. IsDriver false d)
      → Triple ⊥
          (IsDriver false)
          (pps_ioctl t on_card e k ifname request cmd)
          (λ fine d. IsDriver false d × (fine ≡ true → on_card ifname ≡ true))
  unfolding pps_ioctl
  pps_ioctl-Triple ifname request cmd call =
      Triple-if (on_card ifname)
        (λ card. Triple-bind call (λ r. Triple-pure (is_ok r.0) (λ d v. (v, λ fine. card))))
        (λ other. Triple-pure false (λ d v. (v, λ fine. cc)))

  ended :
      (A : Type 0) (fine : Bool)
      → (fine ≡ true → A)
      → (if fine then exit_zero else exit_one) ≡ exit_zero
      → A
  ended A true h z = h refl
  ended A false h z = failed A z

  pps_calls-Triple :
      (ifname : Text) (ch : ℕ)
      → Triple ⊥
          (IsDriver false)
          (pps_calls t on_card e k ifname ch)
          (IsEnded (on_card ifname ≡ true))
  unfolding pps_calls mezzanine_ioctl
  pps_calls-Triple ifname ch =
      Triple-bind
        (pps_ioctl-Triple ifname priv_mezzanine_id initial_cmd
          (Triple-pure (eagain, none) (λ d v. v)))
        λ first.
          Triple-bind
            (Triple-pre (λ d v. v.0)
              (pps_ioctl-Triple ifname priv_mezzanine_cmd (pps_cmd ch) (pps_pulse-Triple ch)))
            λ fine.
              Triple-pure (if fine then exit_zero else exit_one)
                (λ d v. (v.0, ended (on_card ifname ≡ true) fine v.1))

  chosen :
      (A : Type 0) (b : Bool) (v : ℕ) (run : ℕ → M PpsEnd)
      → (b ≡ true → Triple ⊥ (IsDriver false) (run v) (IsEnded A))
      → Triple ⊥
          (IsDriver false)
          (elim (if b then some v else none) [ none ↦ pure exit_one | some ch ↦ run ch ])
          (IsEnded A)
  chosen A true v run h = h refl
  chosen A false v run h = Triple-pure exit_one (λ d g. (g, failed A))

  pps_run-Triple :
      (ifname channel : Text)
      → Triple ⊥
          (IsDriver false)
          (pps_run t on_card e k ifname channel)
          (IsEnded (IsPort t on_card ifname channel))
  unfolding pps_run
  pps_run-Triple ifname channel =
      let r = t.scan_int channel in
      chosen (IsPort t on_card ifname channel) (matched r 1 && (ltb 0 r.value && ltb r.value 5))
        r.value (λ ch. if t.socket_opens then pps_calls t on_card e k ifname ch else pure exit_one)
        λ port.
          Triple-if t.socket_opens
            (λ opened.
              Triple-post
                (λ end d v. (
                  v.0,
                  λ z. record {
                    whole = ground (arith, port);
                    above = ground (arith, port);
                    below = ground (arith, port);
                    opened = opened;
                    card = v.1 z;
                  },
                ))
                (pps_calls-Triple ifname r.value))
            (λ closed. Triple-pure exit_one (λ d v. (v, failed (IsPort t on_card ifname channel))))

  -- In a good state with the lock free, whatever the arguments and the kernel's answers, the tool ends, makes the driver
  -- access nothing out of bounds, and leaves a good state with the lock free. It exits with 0 only if there are one or two
  -- arguments, of which the last is a channel from 1 to 4 and the other, or wr0, an interface of the card.
  pub pps_main-Triple :
      (args : List Text)
      → Triple ⊥ (IsDriver false) (pps_main t on_card e k args) (IsEnded (IsAsked t on_card args))
  unfolding pps_main
  pps_main-Triple [] = Triple-pure exit_one (λ d v. (v, failed ⊥))
  pps_main-Triple (channel ∷ []) = pps_run-Triple default_ifname channel
  pps_main-Triple (ifname ∷ channel ∷ []) = pps_run-Triple ifname channel
  pps_main-Triple (ifname ∷ channel ∷ next ∷ more) = Triple-pure exit_one (λ d v. (v, failed ⊥))
