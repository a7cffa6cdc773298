-- ===== src/Carrier/Gpio.antt =====
-- The pins of the carrier: `spec_map_pin`, `spec_cfg_pin` and `spec_gpio_config` of spec-fmc.c, and `struct fmc_gpio`.
pub mod Mapped
use sbndaq_wr.Base.{
  ℕ, ◌+◌, ◌^◌, List, [], ◌∷◌, Option, none, some, Bool, true, false, not, pure, stop, ◌>>=◌, ◌>>◌,
  when, ltb, ◌==◌, has_bits, bit_and, if◌then◌else◌,
}
use sbndaq_wr.Base.Bits.{bit_not32}
use sbndaq_wr.Mmio.{Env}
use sbndaq_wr.Carrier.{C, gennum_readl, gennum_writel, gennum_mask_val, int_mask_set}

-- `carrier_name`: a virtual pin, one of a SPEC, or one of another carrier.
pub data Owner : Type 0 where
  virtual ours foreign : Owner

-- `struct fmc_gpio`; `raw` is `_gpio`. The numbers are not negative.
pub record Pin : Type 0 where
  pub owner : Owner
  pub gpio : ℕ
  pub raw : ℕ
  pub mode : ℕ
  pub irqmode : ℕ

-- What the functions return.
pub data PinReturn : Type 0 where
  level : ℕ → PinReturn
  enodev einval enoent : PinReturn

-- `GPIOF_DIR_IN` and `GPIOF_INIT_HIGH`, which with two zeros are the valid bits.
abbrev pub dir_in : ℕ
dir_in = 2 ^ 0

abbrev pub init_high : ℕ
init_high = 2 ^ 1

-- `IRQF_TRIGGER_RISING`, `_HIGH` and `_LOW`, and `IRQF_TRIGGER_MASK`.
abbrev trigger_rising : ℕ
trigger_rising = 0x1

abbrev trigger_high : ℕ
trigger_high = 0x4

abbrev trigger_low : ℕ
trigger_low = 0x8

abbrev trigger_mask : ℕ
trigger_mask = 0xf

-- `spec_gpio_map`.
abbrev pub spec_gpio_map : List (ℕ × ℕ)
spec_gpio_map =
    (0x1303, 6) ∷ (0x1302, 7) ∷ (0x1000, 8) ∷ (0x1001, 9) ∷ (0x1301, 10) ∷ (0x1300, 11) ∷ []

-- `spec_map_pin`: `none` is `-ENOENT`.
unfoldable pub map_pin : List (ℕ × ℕ) → ℕ → Option ℕ
map_pin [] gpio = none
map_pin ((virt, raw) ∷ rest) gpio = if virt == gpio then some raw else map_pin rest gpio

module _ (e : Env) where
  -- The direction of a pin, and the level of an input.
  unfoldable pub cfg_direction : ℕ → ℕ → C ℕ
  cfg_direction bit mode =
      if has_bits mode dir_in
      then (do
        gennum_mask_val e bit 0 0xa08
        gennum_mask_val e bit bit 0xa04
        v ← gennum_readl e 0xa10
        pure (if has_bits v bit then 1 else 0))
      else (do
        gennum_mask_val e bit (if has_bits mode init_high then bit else 0) 0xa0c
        gennum_mask_val e bit 0 0xa04
        gennum_mask_val e bit bit 0xa08
        pure 0)

  -- The interrupt of a pin.
  unfoldable pub cfg_interrupt : ℕ → ℕ → C (Unit {0})
  cfg_interrupt bit imode =
      if not (has_bits imode trigger_mask) then gennum_writel bit int_mask_set else (do
        gennum_mask_val e bit (if has_bits imode (trigger_high + trigger_rising) then bit else 0)
            0xa28
        gennum_mask_val e bit (if has_bits imode (trigger_high + trigger_low) then bit else 0) 0xa24
        gennum_mask_val e bit 0 0xa2c
        gennum_writel bit 0xa18)

  -- `spec_cfg_pin`. Its mask `1 << pin` comes before the test of the pin.
  unfoldable pub cfg_pin : ℕ → ℕ → ℕ → C PinReturn
  unfolding cfg_direction cfg_interrupt
  cfg_pin pin mode imode =
      if ltb 31 pin
      then stop
      else if ltb 15 pin
      then pure enodev
      else if has_bits mode (bit_not32 (dir_in + init_high))
      then pure einval
      else (do ret ← cfg_direction (2 ^ pin) mode; cfg_interrupt (2 ^ pin) imode; pure (level ret))

-- Where a pin is: it is not one of this carrier, there is no such pin, or its raw number.
pub data Place : Type 0 where
  elsewhere unmapped : Place
  at_raw : ℕ → Place

abbrev pub place_of : Option ℕ → Place
place_of none = unmapped
place_of (some raw) = at_raw raw

unfoldable pub place_by : Owner → Pin → Place
unfolding map_pin
place_by virtual p = if p.raw == 0 then place_of (map_pin spec_gpio_map p.gpio) else at_raw p.raw
place_by ours p = at_raw p.gpio
place_by foreign p = elsewhere

-- What a round of the loop does: it goes on, with a value or without, or it returns.
pub data Round : Type 0 where
  skipped : Round
  configured : ℕ → Round
  failed : PinReturn → Round

abbrev pub round_of : PinReturn → Round
round_of (level n) = configured n
round_of enodev = failed enodev
round_of einval = failed einval
round_of enoent = failed enoent

module _ (e : Env) where
  unfoldable pub config_at : Place → Pin → C (Round × Pin)
  unfolding cfg_pin
  config_at elsewhere p = pure (skipped, p)
  config_at unmapped p = pure (failed enoent, p)
  config_at (at_raw raw) p = do
    r ← cfg_pin e raw p.mode p.irqmode
    pure (round_of r, record p { raw = raw })

  -- The rest of the loop, for each way to go on with it, and the array as it is when it ends.
  unfoldable pub after_pin :
      Round
      → Pin
      → List Pin
      → C (PinReturn × List Pin)
      → (ℕ → C (PinReturn × List Pin))
      → C (PinReturn × List Pin)
  after_pin (failed err) p pins skip go = pure (err, p ∷ pins)
  after_pin skipped p pins skip go = skip >>= λ r. pure (r.0, p ∷ r.1)
  after_pin (configured n) p pins skip go = go n >>= λ r. pure (r.0, p ∷ r.1)

  -- The loop of `spec_gpio_config`, with the pins that are left, `done` and `retval`.
  unfoldable pub config_pins : List Pin → ℕ → ℕ → C (PinReturn × List Pin)
  unfolding place_by config_at after_pin
  config_pins [] done retval = pure (if done == 0 then enodev else level retval, [])
  config_pins (p ∷ pins) done retval = do
    r ← config_at (place_by p.owner p) p
    after_pin r.0 r.1 pins (config_pins pins done retval)
        (λ n. config_pins pins (done + 1) (retval + n))

  -- `spec_gpio_config`.
  unfoldable pub gpio_config : List Pin → C (PinReturn × List Pin)
  unfolding config_pins
  gpio_config pins = config_pins pins 0 0
