-- ===== src/DioCmd/Tests.antt =====
-- Tests and concrete cases of the results on wr-dio-cmd.c.
use sbndaq_wr.Base.{
  ℕ, ◌≤◌, ◌≡◌, refl, List, [], ◌∷◌, Option, none, some, Bool, true, false, arith, length, replicate,
  ltb,
}
use sbndaq_wr.Mmio.{zero_time}
use sbndaq_wr.Dio.Device.{Cmd}
use sbndaq_wr.DioCmd.State.{Text, Env, initial, dio_pulse_output_term}
use sbndaq_wr.DioCmd.Times.{parsed, crashed, after_dot, scale, fraction_of, parse_ts}
use sbndaq_wr.DioCmd.Modes.{one_mode}
use sbndaq_wr.DioCmd.Modes.Meaning.{upper_p, without_modes, IsReply, letter_description}
use sbndaq_wr.DioCmd.Commands.{stamp_text}
use sbndaq_wr.DioCmd.Safety.{IsKernel, IsRequesting, no_call}

-- A kernel that replies with two stamps of channel 1, and then with `EAGAIN`.
abbrev answer : Bool → Cmd → Option ℕ × Cmd
answer true c = (none, record c { channel = 1; nstamp = 2; t = replicate 16 zero_time })
answer false c = (some 11, record c { nstamp = 0 })

-- Any number is read as 1, and any time as 1.5.
abbrev libc : Env
libc = record {
  scan_time = λ s. record { fields = some 2; value = 1; fraction = 5 };
  scan_fraction = λ s. record { fields = some 1; value = 0; fraction = 5 };
  scan_short = λ s. record { fields = some 1; value = 1; fraction = 0 };
  scan_int = λ s. record { fields = some 1; value = 1; fraction = 0 };
  atoi = λ s. 1;
  ioctl = λ calls c. answer (ltb (length calls) 2) c;
  socket_opens = true;
}

answer-flags : (b : Bool) (c : Cmd) → (answer b c).1.flags ≡ c.flags
answer-flags true c = refl
answer-flags false c = refl

answer_fits : (b : Bool) (c : Cmd) → (answer b c).1.nstamp ≤ length (answer b c).1.t
answer_fits true c = omega arith
answer_fits false c = omega arith

libc-IsKernel : IsKernel libc
libc-IsKernel = record {
  keeps_flags = λ calls c. answer-flags (ltb (length calls) 2) c;
  stamps_fit = λ calls c. answer_fits (ltb (length calls) 2) c;
}

-- "stamp 1".
abbrev stamp_line_text : List Text
stamp_line_text = stamp_text ∷ (49 ∷ []) ∷ []

initial-IsRequesting : IsRequesting 0 initial
initial-IsRequesting = record { addressed = no_call; flags_are = refl }

letter_description_example :
    IsReply 80 dio_pulse_output_term 3 initial (one_mode 80 3 (without_modes initial))
letter_description_example = letter_description 3 initial upper_p (omega arith)

-- "1.5" is one second and a half.
half_second :
    parse_ts libc (49 ∷ 46 ∷ 53 ∷ []) ≡ parsed (record { tv_sec = 1; tv_nsec = 500_000_000 })
unfolding parse_ts fraction_of after_dot scale
half_second = refl

-- Without a dot, a string that the first conversion does not refuse reads behind a null pointer.
no_dot : parse_ts libc [] ≡ crashed
unfolding parse_ts fraction_of after_dot
no_dot = refl
