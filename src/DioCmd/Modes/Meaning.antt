-- ===== src/DioCmd/Modes/Meaning.antt =====
-- What a mode letter means: what the tool makes of it, and the description that it prints for that.
use sbndaq_wr.Base.{
  ℕ, zero, suc, ◌^◌, ◌%◌, ◌<◌, ◌≡◌, refl, arith, Bool, true, false, ◌&&◌, ◌==◌, bit_or, Outcome,
  done, fault, waiting,
}
use sbndaq_wr.DioCmd.State.{
  Tool, get_cmd, put_cmd, print, Description, dio_pulse_output_term, dio_pulse_output,
  dio_regular_output_term, dio_regular_output, dio_input_active_term, dio_input_active,
  logic_output_high, logic_output_low, logic_input_term, logic_input,
}
use sbndaq_wr.DioCmd.Modes.{
  letter_fields, add_fields, is_plain_output, one_mode, channel_bits, decode_mode_description,
}

-- The ten letters with their descriptions.
pub data IsLetter : ℕ → Description → Type 0 where
  upper_d : IsLetter 68 dio_regular_output_term
  lower_d : IsLetter 100 dio_regular_output
  upper_c : IsLetter 67 dio_input_active_term
  lower_c : IsLetter 99 dio_input_active
  upper_p : IsLetter 80 dio_pulse_output_term
  lower_p : IsLetter 112 dio_pulse_output
  upper_i : IsLetter 73 logic_input_term
  lower_i : IsLetter 105 logic_input
  one : IsLetter 49 logic_output_high
  zero_letter : IsLetter 48 logic_output_low

-- A statement for each of the five channels.
abbrev OnChannels : (ℕ → Type 0) → Type 0
OnChannels P = P 0 × P 1 × P 2 × P 3 × P 4

below_five : (P : ℕ → Type 0) (ch : ℕ) → OnChannels P → ch < 5 → P ch
below_five P zero all h = all.0
below_five P (suc zero) all h = all.1
below_five P (suc (suc zero)) all h = all.2
below_five P (suc (suc (suc zero))) all h = all.3
below_five P (suc (suc (suc (suc zero)))) all h = all.4
below_five P (suc (suc (suc (suc (suc n))))) all h = absurd (omega arith)

-- A tool whose command has no mode yet.
abbrev pub without_modes : Tool → Tool
without_modes s = record s { cmd = record s.cmd { value = 0 } }

-- What the tool makes of a letter for a channel: it is refused, as only the plain outputs on channel 0 are; or the reply
-- that the tool prints for the value it has made, and for the channel alone that it is then for, is the description.
abbrev pub IsReply : ℕ → Description → ℕ → Tool → Outcome Tool Bool → Type 0
IsReply c text ch s (done false s') = (is_plain_output c ≡ true) × (ch ≡ 0)
IsReply c text ch s (done true s') =
    (is_plain_output c && ch == 0 ≡ false)
    × (decode_mode_description (channel_bits s'.cmd.value ch) ≡ text)
    × (s'.cmd.channel ≡ bit_or s.cmd.channel (2 ^ ch) % 2 ^ 16)
IsReply c text ch s fault = ⊥
IsReply c text ch s waiting = ⊥

abbrev IsReplied : ℕ → Description → Tool → ℕ → Type 0
IsReplied c text s ch = IsReply c text ch s (one_mode c ch (without_modes s))

IsReplied-all :
    {c : ℕ} {text : Description} (s : Tool) → IsLetter c text → OnChannels (IsReplied c text s)
unfolding decode_mode_description channel_bits letter_fields add_fields one_mode get_cmd put_cmd
    print
IsReplied-all s upper_d =
    ((refl, refl), (refl, refl, refl), (refl, refl, refl), (refl, refl, refl), (refl, refl, refl))
IsReplied-all s lower_d =
    ((refl, refl), (refl, refl, refl), (refl, refl, refl), (refl, refl, refl), (refl, refl, refl))
IsReplied-all s upper_c = (
  (refl, refl, refl),
  (refl, refl, refl),
  (refl, refl, refl),
  (refl, refl, refl),
  (refl, refl, refl),
)
IsReplied-all s lower_c = (
  (refl, refl, refl),
  (refl, refl, refl),
  (refl, refl, refl),
  (refl, refl, refl),
  (refl, refl, refl),
)
IsReplied-all s upper_p = (
  (refl, refl, refl),
  (refl, refl, refl),
  (refl, refl, refl),
  (refl, refl, refl),
  (refl, refl, refl),
)
IsReplied-all s lower_p = (
  (refl, refl, refl),
  (refl, refl, refl),
  (refl, refl, refl),
  (refl, refl, refl),
  (refl, refl, refl),
)
IsReplied-all s upper_i = (
  (refl, refl, refl),
  (refl, refl, refl),
  (refl, refl, refl),
  (refl, refl, refl),
  (refl, refl, refl),
)
IsReplied-all s lower_i = (
  (refl, refl, refl),
  (refl, refl, refl),
  (refl, refl, refl),
  (refl, refl, refl),
  (refl, refl, refl),
)
IsReplied-all s one =
    ((refl, refl), (refl, refl, refl), (refl, refl, refl), (refl, refl, refl), (refl, refl, refl))
IsReplied-all s zero_letter =
    ((refl, refl), (refl, refl, refl), (refl, refl, refl), (refl, refl, refl), (refl, refl, refl))

-- Each of the ten mode letters, on each of the five channels and for a command without a mode: the tool refuses d, D, 0 and 1
-- on channel 0, and accepts all others. The value that it then makes for the command is printed, by the reply of the tool, as
-- the description of that letter, and the channel's bit is added to the channels of the command.
pub letter_description :
    {c : ℕ} {text : Description} (ch : ℕ) (s : Tool)
    → IsLetter c text
    → ch < 5
    → IsReply c text ch s (one_mode c ch (without_modes s))
letter_description {c} {text} ch s l h = below_five (IsReplied c text s) ch (IsReplied-all s l) h
