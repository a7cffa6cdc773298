-- ===== src/Dio/Inout.antt =====
-- `wrn_dio_cmd_inout`: the mode and the level of the channels.
pub mod Safety
use sbndaq_wr.Base.{
  ℕ, zero, suc, ◌+◌, ◌-◌, ◌*◌, ◌/◌, ◌%◌, ◌^◌, ◌<◌, ◌≤◌, List, [], ◌∷◌, Bool, not, bit_and, bit_or,
  Program, pure, ◌>>=◌, ◌>>◌, done, fault, waiting, stop, when, ltb, ◌==◌, has_bits, if◌then◌else◌,
}
use sbndaq_wr.Base.Bits.{bit_not32}
use sbndaq_wr.Mmio.{Addr, gpio, read, write, Env, u32}
use sbndaq_wr.Dio.Device.{
  Driver, Cmd, Ret, ok, f_mask, f_get, inout_dio, inout_value, inout_output, inout_term, iomode, M,
  readl, writel, shl,
}

-- `struct wrn_gpio_block`.
abbrev pub gpio_clear : Addr
gpio_clear = gpio 0x0

abbrev pub gpio_set : Addr
gpio_set = gpio 0x4

abbrev pub gpio_status : Addr
gpio_status = gpio 0xc

-- The nibble of a channel in the mode register: its source and two flags.
abbrev pub src_mask : ℕ
src_mask = 3

abbrev pub src_gpio : ℕ
src_gpio = 0

abbrev pub src_wrpc : ℕ
src_wrpc = 2

abbrev pub output_enable_n : ℕ
output_enable_n = 4

abbrev pub term_enable : ℕ
term_enable = 8

-- `v >> k` on 32 bits; a shift by 32 or more is undefined.
abbrev pub shr : ℕ → ℕ → M ℕ
shr v k = if ltb k 32 then pure (v / 2 ^ k) else stop

-- `value |= bit << ch` if `test` holds.
abbrev pub add_bit : Bool → ℕ → ℕ → ℕ → M ℕ
add_bit test bit ch value = if test then (shl bit ch >>= λ b. pure (bit_or value b)) else pure value

module _ (e : Env) where
  -- What `WR_DIO_F_GET` adds to the value for one channel whose nibble is `mode`.
  unfoldable pub report : ℕ → ℕ → ℕ → M ℕ
  report ch mode value = do
    let src = bit_and mode src_mask
    value ← add_bit (not (src == src_gpio)) inout_dio ch value
    value ← add_bit (src == src_wrpc) inout_value ch value
    value ← add_bit (not (has_bits mode output_enable_n)) inout_output ch value
    value ← add_bit (has_bits mode term_enable) inout_term ch value
    if src == src_gpio
        then (do
          status ← readl e gpio_status
          level ← shl 1 (4 * ch)
          add_bit (has_bits status level) inout_value ch value)
        else pure value

  -- The `for` loop of `WR_DIO_F_GET`, with `rounds` channels left.
  unfoldable pub get_modes : ℕ → ℕ → ℕ → ℕ → ℕ → M ℕ
  unfolding report
  get_modes zero ch mask reg value = pure value
  get_modes (suc rounds) ch mask reg value = do
    bit ← shl 1 ch
    value ←
        if has_bits bit mask
        then (do high ← shr reg (4 * ch); report ch (bit_and high 0xf) value)
        else pure value
    get_modes rounds (ch + 1) mask reg value

  -- The source bits of the new nibble, of the mode that `bits` asks for.
  unfoldable pub source : ℕ → ℕ
  source bits = if has_bits bits inout_dio then (if has_bits bits inout_value then 2 else 1) else 0

  -- The whole nibble, with the termination and the inverted output enable.
  unfoldable pub nibble : ℕ → ℕ
  unfolding source
  nibble bits = bit_or (source bits) (
      bit_or (if has_bits bits inout_term then 8 else 0)
        (if has_bits bits inout_output then 0 else 4))

  -- The body of the setting loop for one channel.
  unfoldable pub set_mode : ℕ → ℕ → M (Unit {0})
  unfolding nibble
  set_mode ch bits = do
    reg ← readl e iomode
    field ← shl 0xf (4 * ch)
    level ← shl 1 (4 * ch)
    when (not (has_bits bits inout_dio))
        (writel level (if has_bits bits inout_value then gpio_set else gpio_clear))
    mode ← shl (nibble bits) (4 * ch)
    writel (bit_or (bit_and reg (bit_not32 field)) mode) iomode

  -- The setting loop, with `rounds` channels left.
  unfoldable pub set_modes : ℕ → ℕ → ℕ → Cmd → M (Unit {0})
  unfolding set_mode
  set_modes zero ch mask cmd = pure tt
  set_modes (suc rounds) ch mask cmd = do
    bit ← shl 1 ch
    if has_bits bit mask
        then (do
          bits ← if has_bits cmd.flags f_mask then shr cmd.value ch else pure cmd.value
          set_mode ch bits)
        else pure tt
    set_modes rounds (ch + 1) mask cmd

  -- The loops from `ch` on for `rounds` channels: to get, or to set.
  unfoldable pub inout_over : ℕ → ℕ → ℕ → Cmd → M (Ret × Cmd)
  unfolding get_modes set_modes
  inout_over rounds ch mask cmd =
      if has_bits cmd.flags f_get
      then (do
        reg ← readl e iomode
        value ← get_modes rounds ch mask reg 0
        pure (ok, record cmd { value = value }))
      else (set_modes rounds ch mask cmd >> pure (ok, cmd))

  -- `wrn_dio_cmd_inout`, with the command as it is afterwards. It takes no lock.
  unfoldable pub cmd_inout : Cmd → M (Ret × Cmd)
  unfolding inout_over
  cmd_inout cmd =
      if has_bits cmd.flags f_mask
      then inout_over 5 0 cmd.channel cmd
      else (shl 1 cmd.channel >>= λ mask. inout_over 1 cmd.channel mask cmd)
