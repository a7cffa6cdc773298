-- ===== src/Carrier/Gpio/Mapped.antt =====
-- What a configuration of pins that succeeds has done.
use sbndaq_wr.Base.{
  ℕ, ◌+◌, ◌^◌, ◌≤◌, ◌≡◌, refl, List, [], ◌∷◌, Option, none, some, length, Bool, true, false, not,
  arith, ltb, ◌==◌, has_bits, if◌then◌else◌,
}
use sbndaq_wr.Base.Bits.{bit_not32}
use sbndaq_wr.Base.Triples.{
  Triple, Keeps, Triple-bind, Triple-pure, Triple-post, Triple-given, Triple-if,
}
use sbndaq_wr.Mmio.{Env}
use sbndaq_wr.Carrier.{C, SpecDev, int_mask_set}
use sbndaq_wr.Carrier.Stage.{
  Stage, IsAt, HasGennum, gennum_readl-IsAt, gennum_mask_val-IsAt, gennum_writel-IsAt,
}
use sbndaq_wr.Carrier.Gpio.{
  Owner, virtual, ours, foreign, Pin, PinReturn, level, enodev, einval, enoent, dir_in, init_high,
  cfg_direction, cfg_interrupt, cfg_pin, Place, elsewhere, unmapped, at_raw, place_by, place_of,
  Round, skipped, configured, failed, round_of, config_at, after_pin, config_pins, gpio_config,
}

-- A pin that is not this carrier's, or is one of its sixteen.
pub data HasPlace : Pin → Type 0 where
  not_ours : {p : Pin} → p.owner ≡ foreign → HasPlace p
  in_range : {p : Pin} → p.raw ≤ 15 → HasPlace p

abbrev pub AllPlaced : List Pin → Type 0
AllPlaced [] = Unit
AllPlaced (p ∷ pins) = HasPlace p × AllPlaced pins

-- The raw number of a pin, if it has one, is one of a bit of 32.
abbrev pub IsShiftable : Place → Type 0
IsShiftable (at_raw raw) = raw ≤ 31
IsShiftable elsewhere = Unit
IsShiftable unmapped = Unit

abbrev pub AllShiftable : List Pin → Type 0
AllShiftable [] = Unit
AllShiftable (p ∷ pins) = IsShiftable (place_by p.owner p) × AllShiftable pins

-- The level of one pin, if it was configured.
abbrev IsLevel : ℕ → PinReturn → Type 0
IsLevel raw (level n) = (raw ≤ 15) × (n ≤ 1)
IsLevel raw _ = Unit

abbrev pub IsConfigured : ℕ → PinReturn × List Pin → Type 0
IsConfigured most (level n, pins) = (n ≤ most) × AllPlaced pins
IsConfigured most (enodev, pins) = Unit
IsConfigured most (einval, pins) = Unit
IsConfigured most (enoent, pins) = Unit

abbrev IsError : PinReturn → Type 0
IsError (level n) = ⊥
IsError _ = Unit

abbrev IsRound : Round × Pin → Type 0
IsRound (skipped, p) = p.owner ≡ foreign
IsRound (configured n, p) = (n ≤ 1) × (p.raw ≤ 15)
IsRound (failed err, p) = IsError err

placed :
    (raw : ℕ) (p : Pin) (r : PinReturn)
    → IsLevel raw r
    → IsRound (round_of r, record p { raw = raw })
placed raw p (level n) h = (h.1, h.0)
placed raw p enodev h = tt
placed raw p einval h = tt
placed raw p enoent h = tt

-- The array with one more pin.
onto :
    (m m' : ℕ) (p : Pin) (r : PinReturn × List Pin)
    → HasPlace p
    → m ≤ m'
    → IsConfigured m r
    → IsConfigured m' (r.0, p ∷ r.1)
onto m m' p (level n, pins) w h c = (omega arith, (w, c.1))
onto m m' p (enodev, pins) w h c = tt
onto m m' p (einval, pins) w h c = tt
onto m m' p (enoent, pins) w h c = tt

error-IsConfigured :
    (m : ℕ) (err : PinReturn) (pins : List Pin) → IsError err → IsConfigured m (err, pins)
error-IsConfigured m (level n) pins h = absurd h
error-IsConfigured m enodev pins h = tt
error-IsConfigured m einval pins h = tt
error-IsConfigured m enoent pins h = tt

place_of-there : (o : Option ℕ) → place_of o ≡ elsewhere → ⊥
place_of-there none h = absurd (cc)
place_of-there (some raw) h = absurd (cc)

virtual-there :
    (b : Bool) (o : Option ℕ) (raw : ℕ) → (if b then place_of o else at_raw raw) ≡ elsewhere → ⊥
virtual-there true o raw h = place_of-there o h
virtual-there false o raw h = absurd (cc)

elsewhere-foreign : (o : Owner) (p : Pin) → place_by o p ≡ elsewhere → o ≡ foreign
unfolding place_by
elsewhere-foreign virtual p h = absurd (virtual-there (p.raw == 0) _ p.raw h)
elsewhere-foreign ours p h = absurd (cc)
elsewhere-foreign foreign p h = refl

last-IsConfigured :
    (b : Bool) (retval : ℕ) → IsConfigured (retval + 0) (if b then enodev else level retval, [])
last-IsConfigured true retval = tt
last-IsConfigured false retval = (omega arith, tt)

IsConfigured-weaken :
    (m m' : ℕ) (r : PinReturn × List Pin) → m ≤ m' → IsConfigured m r → IsConfigured m' r
IsConfigured-weaken m m' (level n, pins) h c = (omega arith, c.1)
IsConfigured-weaken m m' (enodev, pins) h c = tt
IsConfigured-weaken m m' (einval, pins) h c = tt
IsConfigured-weaken m m' (enoent, pins) h c = tt

abbrev Rest : Stage → ℕ → PinReturn × List Pin → SpecDev → Type 0
Rest g m r s = IsConfigured m r × IsAt g s

module _ {W : Type 0} (e : Env) (g : Stage) (third : HasGennum g) where
  cfg_direction-IsAt :
      (bit mode : ℕ) → Triple W (IsAt g) (cfg_direction e bit mode) (λ n s. (n ≤ 1) × IsAt g s)
  unfolding cfg_direction
  cfg_direction-IsAt bit mode =
      Triple-if (has_bits mode dir_in)
        (λ _. Triple-bind (gennum_mask_val-IsAt g third e bit 0 0xa08) λ _.
          Triple-bind (gennum_mask_val-IsAt g third e bit bit 0xa04) λ _.
            Triple-bind (gennum_readl-IsAt g third e 0xa10)
              λ v. Triple-pure (if has_bits v bit then 1 else 0) (λ s i. (ground arith, i)))
        λ _.
          Triple-bind
            (gennum_mask_val-IsAt g third e bit (if has_bits mode init_high then bit else 0) 0xa0c)
            λ _. Triple-bind (gennum_mask_val-IsAt g third e bit 0 0xa04) λ _.
              Triple-bind (gennum_mask_val-IsAt g third e bit bit 0xa08)
                λ _. Triple-pure 0 (λ s i. (omega arith, i))

  cfg_interrupt-IsAt : (bit imode : ℕ) → Keeps W (IsAt g) (cfg_interrupt e bit imode)
  unfolding cfg_interrupt
  cfg_interrupt-IsAt bit imode =
      Triple-if (not (has_bits imode 0xf)) (λ _. gennum_writel-IsAt g third bit int_mask_set)
        λ _.
          Triple-bind
            (gennum_mask_val-IsAt g third e bit (if has_bits imode 5 then bit else 0) 0xa28)
            λ _.
              Triple-bind
                (gennum_mask_val-IsAt g third e bit (if has_bits imode 12 then bit else 0) 0xa24)
                λ _.
                  Triple-bind (gennum_mask_val-IsAt g third e bit 0 0xa2c)
                    λ _. gennum_writel-IsAt g third bit 0xa18

  cfg_pin-IsAt :
      (pin mode imode : ℕ)
      → pin ≤ 31
      → Triple W (IsAt g) (cfg_pin e pin mode imode) (λ r s. IsLevel pin r × IsAt g s)
  unfolding cfg_pin
  cfg_pin-IsAt pin mode imode bits =
      Triple-if (ltb 31 pin) (λ wide. absurd (ground (arith, wide, bits)))
        λ _.
          Triple-if (ltb 15 pin) (λ _. Triple-pure enodev (λ s i. (tt, i)))
            λ small.
              Triple-if (has_bits mode (bit_not32 (dir_in + init_high)))
                (λ _. Triple-pure einval (λ s i. (tt, i)))
                λ _. Triple-bind (cfg_direction-IsAt (2 ^ pin) mode) λ n. Triple-given λ low.
                  Triple-bind (cfg_interrupt-IsAt (2 ^ pin) imode)
                    λ _. Triple-pure (level n) (λ s i. ((ground arith, low), i))

  config_at-IsAt :
      (w : Place) (p : Pin)
      → (w ≡ elsewhere → p.owner ≡ foreign)
      → IsShiftable w
      → Triple W (IsAt g) (config_at e w p) (λ r s. IsRound r × IsAt g s)
  unfolding config_at
  config_at-IsAt elsewhere p out bits = Triple-pure (skipped, p) (λ s i. (out refl, i))
  config_at-IsAt unmapped p out bits = Triple-pure (failed enoent, p) (λ s i. (tt, i))
  config_at-IsAt (at_raw raw) p out bits = Triple-bind (cfg_pin-IsAt raw p.mode p.irqmode bits) λ r.
      Triple-given
        λ h. Triple-pure (round_of r, record p { raw = raw }) (λ s i. (placed raw p r h, i))

  after_pin-IsAt :
      (m : ℕ) (r : Round) (p : Pin) (pins : List Pin) {skip : C (PinReturn × List Pin)}
      {go : ℕ → C (PinReturn × List Pin)}
      → IsRound (r, p)
      → Triple W (IsAt g) skip (Rest g m)
      → ((n : ℕ) → Triple W (IsAt g) (go n) (Rest g (m + n)))
      → Triple W (IsAt g) (after_pin e r p pins skip go) (Rest g (m + 1))
  unfolding after_pin
  after_pin-IsAt m (failed err) p pins h ts tg =
      Triple-pure (err, p ∷ pins) (λ s i. (error-IsConfigured (m + 1) err (p ∷ pins) h, i))
  after_pin-IsAt m skipped p pins h ts tg = Triple-bind ts λ r.
      Triple-given λ c.
        Triple-pure (r.0, p ∷ r.1) (λ s i. (onto m (m + 1) p r (not_ours h) (omega arith) c, i))
  after_pin-IsAt m (configured n) p pins h ts tg = Triple-bind (tg n) λ r. Triple-given λ c.
      Triple-pure (r.0, p ∷ r.1)
        (λ s i. (onto (m + n) (m + 1) p r (in_range h.1) (omega arith) c, i))

  config_pins-IsAt :
      (pins : List Pin) (done retval : ℕ)
      → AllShiftable pins
      → Triple W (IsAt g) (config_pins e pins done retval) (Rest g (retval + length pins))
  unfolding config_pins
  config_pins-IsAt [] done retval bits =
      Triple-pure (if done == 0 then enodev else level retval, [])
        (λ s i. (last-IsConfigured (done == 0) retval, i))
  config_pins-IsAt (p ∷ pins) done retval bits =
      Triple-bind (config_at-IsAt (place_by p.owner p) p (elsewhere-foreign p.owner p) bits.0) λ r.
        Triple-given λ h.
          Triple-post
            (λ r' s i. (
              IsConfigured-weaken (retval + length pins + 1) (retval + length (p ∷ pins)) r'
                  (omega arith) i.0,
              i.1,
            ))
            (after_pin-IsAt (retval + length pins) r.0 r.1 pins h
              (config_pins-IsAt pins done retval bits.1)
              (λ n.
                Triple-post
                  (λ r' s i. (
                    IsConfigured-weaken (retval + n + length pins) (retval + length pins + n) r'
                        (omega arith) i.0,
                    i.1,
                  ))
                  (config_pins-IsAt pins (done + 1) (retval + n) bits.1)))

  -- The configuration of pins whose raw numbers are at most 31, so that the shift of their bit is defined, never faults on a
  -- card whose registers are mapped and leaves what it holds as it is. If it does
  -- not fail, each pin of the array is another carrier's or has got a raw number up to 15, and the result is at most the
  -- number of pins.
  pub gpio_config-Triple :
      (pins : List Pin)
      → AllShiftable pins
      → Triple W (IsAt g) (gpio_config e pins) (λ r s. IsConfigured (length pins) r × IsAt g s)
  unfolding gpio_config
  gpio_config-Triple pins bits =
      Triple-post
        (λ r s i. (IsConfigured-weaken (0 + length pins) (length pins) r (omega arith) i.0, i.1))
        (config_pins-IsAt pins 0 0 bits)
