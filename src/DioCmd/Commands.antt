-- ===== src/DioCmd/Commands.antt =====
-- `scan_pulse`, `scan_stamp` and `main`.
use sbndaq_wr.Base.{
  Outcome, ℕ, zero, suc, ◌+◌, ◌%◌, ◌^◌, List, [], ◌∷◌, none, some, Bool, true, false, not, bit_or,
  pure, stop, waiting, checked, ◌>>=◌, ◌>>◌, ltb, ◌==◌, ◌&&◌, ◌||◌, length, get_elem?, set, when,
  if◌then◌else◌,
}
use sbndaq_wr.Mmio.{Timespec}
use sbndaq_wr.Dio.Device.{Cmd, f_now, f_rel, f_mask, f_loop, f_wait, f_pulsoff}
use sbndaq_wr.DioCmd.State.{
  Text, Env, stamp_line, mezzanine_id, T, Ended, zero_returned, minus_one, exit_one, get_cmd,
  put_cmd, print, ioctl_cmd, same_text, arg, stored, matched,
}
use sbndaq_wr.DioCmd.Times.{parsed, refused, crashed, parse_ts}
use sbndaq_wr.DioCmd.Inout.{scan_inout}

-- The words of the command line: "now", "wait", "pulse", "stamp", "stampm" and "mode".
abbrev pub now_text : Text
now_text = 110 ∷ 111 ∷ 119 ∷ []

abbrev pub wait_text : Text
wait_text = 119 ∷ 97 ∷ 105 ∷ 116 ∷ []

abbrev pub pulse_text : Text
pulse_text = 112 ∷ 117 ∷ 108 ∷ 115 ∷ 101 ∷ []

abbrev pub stamp_text : Text
stamp_text = 115 ∷ 116 ∷ 97 ∷ 109 ∷ 112 ∷ []

abbrev pub stampm_text : Text
stampm_text = 115 ∷ 116 ∷ 97 ∷ 109 ∷ 112 ∷ 109 ∷ []

abbrev pub mode_text : Text
mode_text = 109 ∷ 111 ∷ 100 ∷ 101 ∷ []

abbrev pub eagain_number : ℕ
eagain_number = 11

module _ (e : Env) where
  -- The `ioctl` of `scan_pulse`.
  unfoldable pub request : T Ended
  request = ioctl_cmd e >>= λ errno. pure (elim errno [ none ↦ zero_returned | some _ ↦ minus_one ])

  unfoldable pub add_flag : ℕ → T (Unit {0})
  add_flag flag = get_cmd >>= λ cmd. put_cmd (record cmd { flags = bit_or cmd.flags flag })

  unfoldable pub store_time : ℕ → Timespec → T (Unit {0})
  store_time i ts = get_cmd >>= λ cmd. put_cmd (record cmd { t = set cmd.t i ts })

  -- A time argument: it is stored, or the function ends.
  unfoldable pub with_time : ℕ → Text → T Ended → T Ended
  unfolding store_time
  with_time i s rest = elim (parse_ts e s) [
    | parsed ts ↦ store_time i ts >> rest
    | refused ↦ pure minus_one
    | crashed ↦ stop
  ]

  -- The period and the count, for six arguments.
  unfoldable pub scan_loop : List Text → T Ended
  unfolding request add_flag with_time
  scan_loop argv =
      if length argv == 6
      then (add_flag f_loop
          >> with_time 2 (arg argv 4) (do
            let r = e.scan_int (arg argv 5)
            cmd ← get_cmd
            put_cmd (record cmd { value = stored r cmd.value })
            if matched r 1 then request else pure minus_one))
      else request

  -- The start, and what follows.
  unfoldable pub scan_when : List Text → T Ended
  unfolding scan_loop
  scan_when argv =
      if same_text (arg argv 3) now_text
      then (add_flag f_now >> scan_loop argv)
      else elim (arg argv 3) [
        | [] ↦ with_time 0 [] (scan_loop argv)
        | c ∷ s ↦
            if c == 43
            then (add_flag f_rel >> with_time 0 s (scan_loop argv))
            else with_time 0 (c ∷ s) (scan_loop argv)
      ]

  -- The duration, less than a second, and what follows.
  unfoldable pub scan_duration : List Text → T Ended
  unfolding scan_when store_time
  scan_duration argv = elim (parse_ts e (arg argv 2)) [
    | parsed ts ↦ store_time 1 ts >> (if ts.tv_sec == 0 then scan_when argv else pure minus_one)
    | refused ↦ pure minus_one
    | crashed ↦ stop
  ]

  -- `scan_pulse`.
  unfoldable pub scan_pulse : List Text → T Ended
  unfolding scan_duration
  scan_pulse argv =
      let argc = length argv in
      let r = e.scan_short (arg argv 1) in
      if argc == 3 || argc == 4 || argc == 6
      then (do
        cmd ← get_cmd
        put_cmd (record cmd { channel = stored r cmd.channel })
        if matched r 1 && ltb (stored r cmd.channel) 5
            then (if argc == 3
                then (do
                  cmd' ← get_cmd
                  put_cmd (record cmd' {
                    value = e.atoi (arg argv 2) % 2 ^ 32;
                    flags = bit_or cmd'.flags f_pulsoff;
                  })
                  request)
                else scan_duration argv)
            else pure minus_one)
      else pure minus_one

  -- The printing loop from stamp `i` on, with `rounds` stamps left.
  unfoldable pub print_stamps : ℕ → ℕ → Cmd → T (Unit {0})
  print_stamps zero i cmd = pure tt
  print_stamps (suc rounds) i cmd = do
    ts ← checked (get_elem? cmd.t i)
    print (stamp_line cmd.channel ts)
    print_stamps rounds (i + 1) cmd

  -- The `while (1)` of `scan_stamp`, with fuel for the calls.
  unfoldable pub stamp_loop : ℕ → ℕ → T Ended
  unfolding print_stamps
  stamp_loop zero ch = λ s. waiting
  stamp_loop (suc fuel) ch = do
    cmd ← get_cmd
    put_cmd (record cmd { channel = ch })
    errno ← ioctl_cmd e
    elim errno [
      | some n ↦ pure (if n == eagain_number then zero_returned else minus_one)
      | none ↦ get_cmd >>= λ reply. print_stamps reply.nstamp 0 reply >> stamp_loop fuel ch
    ]

  unfoldable pub set_flags : ℕ → T (Unit {0})
  set_flags flags = get_cmd >>= λ cmd. put_cmd (record cmd { flags = flags })

  -- `scan_stamp` once the word "wait" is taken off: `argc` arguments are left.
  unfoldable pub scan_channel : ℕ → ℕ → List Text → Bool → T Ended
  unfolding stamp_loop set_flags
  scan_channel fuel argc argv ismask =
      let r = e.scan_int (arg argv 1) in
      if argc == 1
      then (set_flags f_mask >> stamp_loop fuel 0x1f)
      else (if argc == 2
          then (if not (matched r 1) || ltb 31 r.value || (not ismask && ltb 4 r.value)
              then pure exit_one
              else (when ismask (set_flags f_mask) >> stamp_loop fuel r.value))
          else pure minus_one)

  -- `scan_stamp`.
  unfoldable pub scan_stamp : ℕ → List Text → Bool → T Ended
  unfolding scan_channel
  scan_stamp fuel argv ismask =
      let argc = length argv in
      set_flags 0
      >> (if argc == 3 && same_text (arg argv 2) wait_text
          then (set_flags f_wait >> scan_channel fuel 2 argv ismask)
          else scan_channel fuel argc argv ismask)

  unfoldable pub set_command : ℕ → T (Unit {0})
  set_command n = get_cmd >>= λ cmd. put_cmd (record cmd { command = n })

  -- The first call: its errors are only reported.
  unfoldable pub ask_id : T (Unit {0})
  ask_id s = Outcome.done tt (record s { calls = mezzanine_id ∷ s.calls })

  -- `main` from the interface name on: the exit status.
  unfoldable pub main : ℕ → List Text → T ℕ
  unfolding scan_pulse scan_stamp set_command ask_id
  main fuel [] = pure 1
  main fuel (ifname ∷ []) = pure 1
  main fuel (ifname ∷ command ∷ args) =
      let argv = command ∷ args in
      let status =
        λ (r : Ended). elim r as (λ _. ℕ) [ zero_returned ↦ 0 | minus_one ↦ 1 | exit_one ↦ 1 ] in
      if e.socket_opens
      then (ask_id
          >> ((if same_text command pulse_text
                then (set_command 0 >> scan_pulse argv)
                else if same_text command stamp_text
                then (set_command 1 >> scan_stamp fuel argv false)
                else if same_text command stampm_text
                then (set_command 1 >> scan_stamp fuel argv true)
                else if same_text command mode_text
                then (set_command 3 >> scan_inout e argv)
                else pure exit_one)
              >>= λ r. pure (status r)))
      else pure 1
