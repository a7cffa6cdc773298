-- ===== src/DioCmd/State.antt =====
-- What the tool holds, and what it takes from the C library and from the kernel.
use sbndaq_wr.Base.{
  ℕ, List, [], ◌∷◌, Option, none, some, Bool, true, false, Program, done, get_or, ◌==◌, ◌&&◌,
  if◌then◌else◌, replicate,
}
use sbndaq_wr.Mmio.{Timespec, zero_time}
use sbndaq_wr.Dio.Device.{Cmd}

-- A string, by its character codes and without its end.
abbrev pub Text : Type 0
Text = List ℕ

-- The descriptions of `decode_mode_description`.
pub data Description : Type 0 where
  dio_pulse_output_term dio_pulse_output dio_regular_output_term dio_regular_output : Description
  dio_input_active_term dio_input_active dio_unknown : Description
  logic_output_high logic_output_low logic_unknown logic_input_term logic_input : Description

-- A line on the standard output.
pub data Line : Type 0 where
  stamp_line : ℕ → Timespec → Line
  mode_line : ℕ → Description → Line
  clock_warning : Line

pub data Call : Type 0 where
  mezzanine_id : Call
  mezzanine_cmd : Cmd → Call

-- The global `cmd`, the calls of `ioctl` so far, and the lines so far, the latest first.
pub record Tool : Type 0 where
  pub cmd : Cmd
  pub calls : List Call
  pub printed : List Line

-- What `sscanf` returns (`none` for the end of the input) and the numbers that it stores.
pub record Scanned : Type 0 where
  pub fields : Option ℕ
  pub value : ℕ
  pub fraction : ℕ

-- What is not in the repository: `sscanf` with the formats "%ld.%ld%c", ".%ld%c", "%hi%c" and "%i%c",
-- `atoi`, the kernel's answer to a command after the calls before it (an `errno`, and the
-- command as the kernel leaves it), and whether `socket` succeeds.
pub record Env : Type 0 where
  pub scan_time : Text → Scanned
  pub scan_fraction : Text → Scanned
  pub scan_short : Text → Scanned
  pub scan_int : Text → Scanned
  pub atoi : Text → ℕ
  pub ioctl : List Call → Cmd → Option ℕ × Cmd
  pub socket_opens : Bool

abbrev pub T : Type 0 → Type 0
T A = Program Tool A

-- How a function of the tool ends: with 0, with -1, or by `exit(1)`.
pub data Ended : Type 0 where
  zero_returned minus_one exit_one : Ended

unfoldable pub get_cmd : T Cmd
get_cmd s = done s.cmd s

unfoldable pub put_cmd : Cmd → T (Unit {0})
put_cmd c s = done tt (record s { cmd = c })

unfoldable pub print : Line → T (Unit {0})
print line s = done tt (record s { printed = line ∷ s.printed })

-- `ioctl(sock, PRIV_MEZZANINE_CMD, &ifr)`: the error, if there is one.
unfoldable pub ioctl_cmd : Env → T (Option ℕ)
ioctl_cmd e s =
    let (errno, c) = e.ioctl s.calls s.cmd in
    done errno (record s { cmd = c; calls = mezzanine_cmd s.cmd ∷ s.calls })

-- `argv[i]`, within `argc`.
abbrev pub arg : List Text → ℕ → Text
arg argv i = get_or argv i []

-- `!strcmp(s, t)`.
unfoldable pub same_text : Text → Text → Bool
same_text [] [] = true
same_text [] (y ∷ ys) = false
same_text (x ∷ xs) [] = false
same_text (x ∷ xs) (y ∷ ys) = x == y && same_text xs ys

-- What `sscanf` leaves in a variable with one conversion: the old value if nothing matched.
abbrev pub stored : Scanned → ℕ → ℕ
stored r old = elim r.fields [ none ↦ old | some n ↦ if n == 0 then old else r.value ]

-- Whether `sscanf` returned `n`.
abbrev pub matched : Scanned → ℕ → Bool
matched r n = elim r.fields [ none ↦ false | some m ↦ m == n ]

-- The static `_cmd`.
abbrev pub initial_cmd : Cmd
initial_cmd = record {
  command = 0;
  channel = 0;
  value = 0;
  flags = 0;
  nstamp = 0;
  t = replicate 16 zero_time;
}

abbrev pub initial : Tool
initial = record { cmd = initial_cmd; calls = []; printed = [] }
