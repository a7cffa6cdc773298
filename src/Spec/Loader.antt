-- ===== src/Spec/Loader.antt =====
-- The configuration of the FPGA: loader-ll.c, and the callers of it in spec-pci.c and speclib.c.
pub mod Words
pub mod Sent
pub mod Returns
use sbndaq_wr.Base.{
  ℕ, zero, suc, ◌+◌, ◌*◌, ◌/◌, ◌%◌, ◌^◌, List, [], ◌∷◌, Option, none, some, Bool, true, false, not,
  bit_and, bit_or, Program, done, pure, ◌>>=◌, ◌>>◌, waiting, checked, ◌==◌, ltb, ◌&&◌, has_bits,
  if◌then◌else◌,
}
use sbndaq_wr.Base.Bits.{bit_not32}
use sbndaq_wr.Mmio.{Addr, gennum, read, write, History, Env, u32}

abbrev pub L : Type 0 → Type 0
L A = Program History A

-- The registers `GNGPIO_DIRECTION_MODE`, `GNGPIO_OUTPUT_ENABLE` and `GNGPIO_OUTPUT_VALUE`.
abbrev gpio_direction_mode : ℕ
gpio_direction_mode = 0xa04

abbrev gpio_output_enable : ℕ
gpio_output_enable = 0xa08

abbrev gpio_output_value : ℕ
gpio_output_value = 0xa0c

-- The registers of the configuration engine.
abbrev pub fcl_ctrl : ℕ
fcl_ctrl = 0xb00

abbrev fcl_en : ℕ
fcl_en = 0xb10

abbrev fcl_timer_0 : ℕ
fcl_timer_0 = 0xb14

abbrev fcl_timer_1 : ℕ
fcl_timer_1 = 0xb18

abbrev fcl_clk_div : ℕ
fcl_clk_div = 0xb1c

abbrev pub fcl_irq : ℕ
fcl_irq = 0xb20

abbrev fcl_timer_ctrl : ℕ
fcl_timer_ctrl = 0xb24

abbrev fcl_timer2_0 : ℕ
fcl_timer2_0 = 0xb2c

abbrev fcl_timer2_1 : ℕ
fcl_timer2_1 = 0xb30

abbrev pub fcl_fifo : ℕ
fcl_fifo = 0xe00

-- `GPIO_BOOTSEL0` and `GPIO_BOOTSEL1`.
abbrev gpio_bootsel0 : ℕ
gpio_bootsel0 = 15

abbrev gpio_bootsel1 : ℕ
gpio_bootsel1 = 14

-- A byte with its bits in the other order.
abbrev pub reverse_bits8 : ℕ → ℕ
reverse_bits8 x =
    let x1 = bit_or (bit_and (x / 2) 0x55) (bit_and x 0x55 * 2) in
    let x2 = bit_or (bit_and (x1 / 4) 0x33) (bit_and x1 0x33 * 4) in
    bit_or (bit_and (x2 / 16) 0x0f) (bit_and x2 0x0f * 16)

-- A pointer is the list of the bytes from it on; the host is little-endian.
abbrev pub unaligned_bitswap_le32 : List ℕ → Option (ℕ × List ℕ)
unaligned_bitswap_le32 (b0 ∷ b1 ∷ b2 ∷ b3 ∷ rest) = some (
  reverse_bits8 b0
      + reverse_bits8 b1 * 2 ^ 8
      + reverse_bits8 b2 * 2 ^ 16
      + reverse_bits8 b3 * 2 ^ 24,
  rest,
)
unaligned_bitswap_le32 (b0 ∷ b1 ∷ b2 ∷ []) = none
unaligned_bitswap_le32 (b0 ∷ b1 ∷ []) = none
unaligned_bitswap_le32 (b0 ∷ []) = none
unaligned_bitswap_le32 [] = none

-- What `loader_low_level` returns: the number of words, or `-EIO`.
pub data LoadReturn : Type 0 where
  wrote : ℕ → LoadReturn
  load_eio : LoadReturn

abbrev pub lll_write : ℕ → ℕ → L (Unit {0})
lll_write v reg h = done tt (write (gennum reg) (u32 v) ∷ h)

-- The value for `FCL_CTRL` that says how many bytes of the last word count.
abbrev pub ctrl_of : ℕ → ℕ
ctrl_of size8 =
    if size8 % 4 == 3
    then 0x116
    else if size8 % 4 == 2
    then 0x126
    else if size8 % 4 == 1
    then 0x136
    else 0x106

-- Up to `rounds` words into the FIFO: the words left, the pointer behind them, and how many were written.
unfoldable pub burst : ℕ → ℕ → List ℕ → ℕ → L (ℕ × List ℕ × ℕ)
burst zero size32 data32 n = pure (size32, data32, n)
burst (suc rounds) zero data32 n = pure (0, data32, n)
burst (suc rounds) (suc size32) data32 n = do
  w ← checked (unaligned_bitswap_le32 data32)
  lll_write w.0 fcl_fifo
  burst rounds size32 w.1 (n + 1)

module _ (e : Env) where
  abbrev pub lll_read : ℕ → L ℕ
  lll_read reg h = done (u32 (e.answer h (gennum reg))) (read (gennum reg) ∷ h)

  unfoldable pub gpio_out : ℕ → ℕ → Bool → L (Unit {0})
  gpio_out addr bit value = do
    reg ← lll_read addr
    lll_write (if value then bit_or reg (2 ^ bit) else bit_and reg (bit_not32 (2 ^ bit))) addr

  -- The start of `loader_low_level`: the mode, and the reset with its test.
  unfoldable pub select_mode : L Bool
  unfolding gpio_out
  select_mode = do
    gpio_out gpio_direction_mode gpio_bootsel0 false
    gpio_out gpio_direction_mode gpio_bootsel1 false
    gpio_out gpio_output_enable gpio_bootsel0 true
    gpio_out gpio_output_enable gpio_bootsel1 true
    gpio_out gpio_output_value gpio_bootsel0 true
    gpio_out gpio_output_value gpio_bootsel1 false
    lll_write 0x00 fcl_clk_div
    lll_write 0x40 fcl_ctrl
    i ← lll_read fcl_ctrl
    pure (i == 0x40)

  -- What follows the reset, up to the start of the engine.
  unfoldable pub start_engine : ℕ → L (Unit {0})
  start_engine ctrl = do
    lll_write 0x00 fcl_ctrl
    lll_write 0x00 fcl_irq
    lll_write ctrl fcl_ctrl
    lll_write 0x00 fcl_clk_div
    lll_write 0x00 fcl_timer_ctrl
    lll_write 0x10 fcl_timer_0
    lll_write 0x00 fcl_timer_1
    lll_write 0x08 fcl_timer2_0
    lll_write 0x00 fcl_timer2_1
    lll_write 0x17 fcl_en
    lll_write (bit_or ctrl 0x01) fcl_ctrl

  -- The wait for half of the FIFO, with fuel.
  unfoldable pub wait_fifo : ℕ → L (Unit {0})
  wait_fifo zero = λ h. waiting
  wait_fifo (suc fuel) = do
    i ← lll_read fcl_irq
    if has_bits i (2 ^ 5) then wait_fifo fuel else pure tt

  -- The outer loop, with `rounds` for its number of rounds and `fuel` for each wait: -EIO or the words.
  unfoldable pub send_words : ℕ → ℕ → ℕ → List ℕ → ℕ → Bool → L LoadReturn
  unfolding wait_fifo burst
  send_words rounds fuel zero data32 n finished = pure (wrote n)
  send_words zero fuel (suc size32) data32 n finished = λ h. waiting
  send_words (suc rounds) fuel (suc size32) data32 n finished = do
    i ← lll_read fcl_irq
    let over = has_bits i 8 && ltb 0 n
    if not over && (has_bits i 4 && not finished) then pure load_eio else (do
      wait_fifo fuel
      left ← burst 32 (suc size32) data32 n
      send_words rounds fuel left.0 left.1 left.2 (if over then true else finished))

  -- `loader_low_level`.
  unfoldable pub loader_low_level : ℕ → List ℕ → ℕ → L LoadReturn
  unfolding select_mode start_engine send_words
  loader_low_level fuel bytes size8 = do
    ready ← select_mode
    if ready
        then (do
          start_engine (ctrl_of size8)
          r ← send_words ((size8 + 3) / 4) fuel ((size8 + 3) / 4) bytes 0 false
          elim r [
            | wrote n ↦ lll_write 0x186 fcl_ctrl >> pure (wrote n)
            | load_eio ↦ pure load_eio
          ])
        else pure load_eio

  -- `waitdone_low_level`, with fuel.
  unfoldable pub waitdone_low_level : ℕ → L (Unit {0})
  waitdone_low_level zero = λ h. waiting
  waitdone_low_level (suc fuel) = do
    i ← lll_read fcl_irq
    if bit_and i 0x8 == 0 then waitdone_low_level fuel else pure tt

  unfoldable pub gpiofix_low_level : L (Unit {0})
  unfolding gpio_out
  gpiofix_low_level = do
    gpio_out gpio_output_value gpio_bootsel0 false
    gpio_out gpio_output_value gpio_bootsel1 false
    gpio_out gpio_output_enable gpio_bootsel0 false
    gpio_out gpio_output_enable gpio_bootsel1 false

  -- `spec_load_bitstream` of speclib.c once the file is read; `none` is a file that could not be.
  unfoldable pub spec_load_bitstream : ℕ → Option (List ℕ × ℕ) → L (Option LoadReturn)
  unfolding loader_low_level waitdone_low_level gpiofix_low_level
  spec_load_bitstream fuel none = pure none
  spec_load_bitstream fuel (some file) = do
    rv ← loader_low_level fuel file.0 file.1
    waitdone_low_level fuel
    gpiofix_low_level
    pure (some rv)

  -- The wait for the end in `spec_load_fpga`, with what `time_after` says in each round: whether the
  -- card reported success before an error or the time limit.
  unfoldable pub wait_success : List Bool → L Bool
  wait_success [] = λ h. waiting
  wait_success (expired ∷ clock) = do
    i ← lll_read fcl_irq
    let rest = wait_success clock
    if has_bits i 0x8
        then pure true
        else (if has_bits i 0x4 then pure false else (if expired then pure false else rest))

  -- `spec_load_fpga` of spec-pci.c: whether it returns 0, not -ETIMEDOUT.
  unfoldable pub spec_load_fpga : ℕ → List Bool → List ℕ → ℕ → L Bool
  unfolding loader_low_level wait_success gpiofix_low_level
  spec_load_fpga fuel clock bytes size = do
    _ ← loader_low_level fuel bytes size
    success ← wait_success clock
    if success then (gpiofix_low_level >> pure true) else pure false
