-- ===== src/DioCmd/Inout.antt =====
-- `scan_inout`: the command "mode".
use sbndaq_wr.Base.{
  ℕ, ◌+◌, ◌%◌, ◌^◌, List, [], ◌∷◌, Option, none, some, Bool, true, false, bit_or, pure, ◌>>=◌, ◌>>◌,
  ltb, ◌==◌, ◌&&◌, ◌||◌, length, get_or, if◌then◌else◌,
}
use sbndaq_wr.Dio.Device.{f_mask, f_get}
use sbndaq_wr.DioCmd.State.{
  Text, Env, T, Ended, zero_returned, minus_one, exit_one, get_cmd, put_cmd, ioctl_cmd, arg,
  matched,
}
use sbndaq_wr.DioCmd.Modes.{one_mode, print_mode_reply}

-- `ch < 0 || ch > 4`, of an `int`.
abbrev pub is_channel : ℕ → Bool
is_channel ch = ltb ch 5

module _ (e : Env) where
  -- The loop over the five letters of one argument, with the ones left.
  unfoldable pub set_letters : Text → ℕ → T Bool
  set_letters [] i = pure true
  set_letters (c ∷ letters) i = do
    good ← one_mode c i
    if good then set_letters letters (i + 1) else pure false

  -- The loop over pairs of a channel and a letter.
  unfoldable pub set_pairs : List Text → T Bool
  set_pairs [] = pure true
  set_pairs (channel ∷ []) = pure true
  set_pairs (channel ∷ mode ∷ pairs) =
      let r = e.scan_int channel in
      if matched r 1 && is_channel r.value
      then (if length mode == 1
          then (do
            good ← one_mode (get_or mode 0 0) r.value
            if good then set_pairs pairs else pure false)
          else pure false)
      else pure false

  -- The `ioctl` at the end, and the reply if one was asked for.
  unfoldable pub request_mode : Option ℕ → T Ended
  request_mode get_mask = do
    errno ← ioctl_cmd e
    elim errno [
      | some _ ↦ pure minus_one
      | none ↦ elim get_mask [
        | none ↦ pure zero_returned
        | some mask ↦ print_mode_reply 5 0 mask >> pure zero_returned
      ]
    ]

  -- A request for the channels of a mask.
  unfoldable pub get_modes_of : ℕ → T Ended
  unfolding request_mode
  get_modes_of mask = do
    cmd ← get_cmd
    put_cmd (record cmd { channel = mask; flags = bit_or cmd.flags f_get })
    request_mode (some mask)

  unfoldable pub request_if : Bool → T Ended
  unfolding request_mode
  request_if good = if good then request_mode none else pure minus_one

  -- `scan_inout`.
  unfoldable pub scan_inout : List Text → T Ended
  unfolding set_letters set_pairs get_modes_of request_if
  scan_inout argv =
      let argc = length argv in
      let r = e.scan_int (arg argv 1) in
      do
        cmd ← get_cmd
        put_cmd (record cmd { flags = f_mask; channel = 0; value = 0 })
        if argc == 1
            then get_modes_of 0x1f
            else (if argc == 2
                then (if length (arg argv 1) == 1 && matched r 1
                    then (if is_channel r.value then get_modes_of (2 ^ r.value) else pure minus_one)
                    else (if length (arg argv 1) == 5
                        then (set_letters (arg argv 1) 0 >>= request_if)
                        else pure exit_one))
                else (if ltb argc 3 || ltb 11 argc || argc % 2 == 0
                    then pure minus_one
                    else (elim argv [ [] ↦ pure true | name ∷ pairs ↦ set_pairs pairs ]
                        >>= request_if)))
