-- ===== src/DioCmd/Modes.antt =====
-- `one_mode`, `decode_mode_description` and `print_mode_reply`.
pub mod Meaning
use sbndaq_wr.Base.{
  ℕ, zero, suc, ◌+◌, ◌*◌, ◌/◌, ◌%◌, ◌^◌, List, [], ◌∷◌, Option, none, some, Bool, true, false, not,
  bit_and, bit_or, pure, ◌>>=◌, ◌>>◌, when, ◌==◌, ◌&&◌, ◌||◌, has_bits, if◌then◌else◌,
}
use sbndaq_wr.Mmio.{u32}
use sbndaq_wr.Dio.Device.{Cmd, inout_dio, inout_value, inout_output, inout_term}
use sbndaq_wr.DioCmd.State.{
  Description, dio_pulse_output_term, dio_pulse_output, dio_regular_output_term, dio_regular_output,
  dio_input_active_term, dio_input_active, dio_unknown, logic_output_high, logic_output_low,
  logic_unknown, logic_input_term, logic_input, mode_line, clock_warning, T, get_cmd, put_cmd,
  print,
}

-- The fields that a letter sets, in the order of the `switch`.
unfoldable pub letter_fields : ℕ → Option (List ℕ)
letter_fields c =
    if c == 68
    then some (inout_term ∷ inout_dio ∷ inout_output ∷ [])
    else if c == 100
    then some (inout_dio ∷ inout_output ∷ [])
    else if c == 67
    then some (inout_term ∷ inout_dio ∷ inout_value ∷ [])
    else if c == 99
    then some (inout_dio ∷ inout_value ∷ [])
    else if c == 80
    then some (inout_term ∷ inout_dio ∷ inout_value ∷ inout_output ∷ [])
    else if c == 112
    then some (inout_dio ∷ inout_value ∷ inout_output ∷ [])
    else if c == 73
    then some (inout_term ∷ [])
    else if c == 105
    then some []
    else if c == 49
    then some (inout_value ∷ inout_output ∷ [])
    else if c == 48
    then some (inout_output ∷ [])
    else none

-- `value |= field << ch` for each field.
unfoldable pub add_fields : List ℕ → ℕ → ℕ → ℕ
add_fields [] ch value = value
add_fields (field ∷ fields) ch value = add_fields fields ch (bit_or value (u32 (field * 2 ^ ch)))

-- `strchr("dD01", c)`, which also finds the end of the string.
abbrev pub is_plain_output : ℕ → Bool
is_plain_output c = c == 100 || c == 68 || c == 48 || c == 49 || c == 0

-- `one_mode`: whether the mode was accepted. The channel is added before the letter is looked at.
unfoldable pub one_mode : ℕ → ℕ → T Bool
unfolding letter_fields add_fields
one_mode c ch = if c == 45 then pure true else (do
  cmd ← get_cmd
  put_cmd (record cmd { channel = bit_or cmd.channel (2 ^ ch) % 2 ^ 16 })
  if ch == 0 && is_plain_output c then pure false else elim (letter_fields c) [
    | none ↦ pure false
    | some fields ↦
        put_cmd (record cmd {
          channel = bit_or cmd.channel (2 ^ ch) % 2 ^ 16;
          value = add_fields fields ch cmd.value;
        })
        >> when ((c == 67 || c == 99) && not (ch == 4)) (print clock_warning)
        >> pure true
  ])

unfoldable pub decode_mode_description : ℕ → Description
decode_mode_description bits =
    let is_term = has_bits bits inout_term in
    let is_one = has_bits bits inout_value in
    if has_bits bits inout_dio
    then if has_bits bits inout_output
      then if is_one
        then (if is_term then dio_pulse_output_term else dio_pulse_output)
        else (if is_term then dio_regular_output_term else dio_regular_output)
      else if is_one
      then (if is_term then dio_input_active_term else dio_input_active)
      else dio_unknown
    else if has_bits bits inout_output
    then (if is_one then logic_output_high else logic_output_low)
    else if is_one
    then logic_unknown
    else (if is_term then logic_input_term else logic_input)

-- The four bits of a channel in a value.
unfoldable pub channel_bits : ℕ → ℕ → ℕ
channel_bits value ch =
    bit_or
      (bit_or (bit_or (bit_and (value / 2 ^ ch) inout_dio) (bit_and (value / 2 ^ ch) inout_value))
        (bit_and (value / 2 ^ ch) inout_output))
      (bit_and (value / 2 ^ ch) inout_term)

-- `print_mode_reply`, with `rounds` channels left.
unfoldable pub print_mode_reply : ℕ → ℕ → ℕ → T (Unit {0})
unfolding channel_bits decode_mode_description
print_mode_reply zero ch mask = pure tt
print_mode_reply (suc rounds) ch mask = do
  cmd ← get_cmd
  when (has_bits mask (2 ^ ch))
      (print (mode_line ch (decode_mode_description (channel_bits cmd.value ch))))
  print_mode_reply rounds (ch + 1) mask
