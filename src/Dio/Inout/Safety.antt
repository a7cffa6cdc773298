-- ===== src/Dio/Inout/Safety.antt =====
-- An input/output command for channels below 8 keeps the driver's invariant and returns.
use sbndaq_wr.Base.{
  ℕ, zero, suc, ◌+◌, ◌*◌, ◌/◌, ◌^◌, ◌<◌, ◌≤◌, ◌≡◌, inl, inr, ◌⊎◌, Bool, true, false, not, arith,
  lt→ltb, ◌==◌, has_bits, if◌then◌else◌, bit_and, bit_or, when,
}
use sbndaq_wr.Base.Bits.{bit_not32}
use sbndaq_wr.Base.Triples.{Triple, Keeps, Triple-bind, Triple-pure, Keeps-pure, Triple-if}
use sbndaq_wr.Mmio.{Env}
use sbndaq_wr.Dio.Device.{
  Cmd, ok, f_mask, f_get, inout_dio, inout_value, inout_output, inout_term, iomode, M,
}
use sbndaq_wr.Dio.Inout.{
  gpio_set, gpio_clear, gpio_status, src_mask, src_gpio, src_wrpc, output_enable_n, term_enable,
  shr, add_bit, report, get_modes, nibble, set_mode, set_modes, inout_over, cmd_inout,
}
use sbndaq_wr.Dio.Invariant.{IsDriver, readl-Keeps, writel-Keeps, shl-Keeps}
use sbndaq_wr.Dio.Pulse.Safety.{IsCmd, Replies}

module _ {W : Type 0} {locked : Bool} where
  shr-Keeps : (v k : ℕ) → k < 32 → Keeps W (IsDriver locked) (shr v k)
  shr-Keeps v k h = rw (lt→ltb k 32 h) (Keeps-pure (v / 2 ^ k))

  add_bit-Keeps :
      (test : Bool) (bit ch value : ℕ)
      → ch < 32
      → Keeps W (IsDriver locked) (add_bit test bit ch value)
  add_bit-Keeps test bit ch value h =
      Triple-if test (λ _. Triple-bind (shl-Keeps bit ch h) λ b. Keeps-pure (bit_or value b))
        (λ _. Keeps-pure value)

  when-Keeps :
      (b : Bool) {m : M (Unit {0})}
      → Keeps W (IsDriver locked) m
      → Keeps W (IsDriver locked) (when b m)
  when-Keeps true k = k
  when-Keeps false k = Keeps-pure tt

module _ (e : Env) {W : Type 0} {locked : Bool} where
  report-Keeps : (ch mode value : ℕ) → ch < 8 → Keeps W (IsDriver locked) (report e ch mode value)
  unfolding report
  report-Keeps ch mode value h =
      let src : ℕ = bit_and mode src_mask in
      Triple-bind (add_bit-Keeps (not (src == src_gpio)) inout_dio ch value (omega arith)) λ v1.
        Triple-bind (add_bit-Keeps (src == src_wrpc) inout_value ch v1 (omega arith)) λ v2.
          Triple-bind
            (add_bit-Keeps (not (has_bits mode output_enable_n)) inout_output ch v2 (omega arith))
            λ v3.
              Triple-bind (add_bit-Keeps (has_bits mode term_enable) inout_term ch v3 (omega arith))
                λ v4.
                  Triple-if (src == src_gpio)
                    (λ _. Triple-bind (readl-Keeps e gpio_status) λ status.
                      Triple-bind (shl-Keeps 1 (4 * ch) (omega arith)) λ level.
                        add_bit-Keeps (has_bits status level) inout_value ch v4 (omega arith))
                    (λ _. Keeps-pure v4)

  get_modes-Keeps :
      (rounds ch mask reg value : ℕ)
      → ch + rounds ≤ 8
      → Keeps W (IsDriver locked) (get_modes e rounds ch mask reg value)
  unfolding get_modes
  get_modes-Keeps zero ch mask reg value h = Keeps-pure value
  get_modes-Keeps (suc rounds) ch mask reg value h =
      Triple-bind (shl-Keeps 1 ch (omega arith)) λ bit.
        Triple-bind
          (Triple-if (has_bits bit mask)
            (λ _.
              Triple-bind (shr-Keeps reg (4 * ch) (omega arith))
                λ high. report-Keeps ch (bit_and high 0xf) value (omega arith))
            (λ _. Keeps-pure value))
          λ v. get_modes-Keeps rounds (ch + 1) mask reg v (omega arith)

  set_mode-Keeps : (ch bits : ℕ) → ch < 8 → Keeps W (IsDriver locked) (set_mode e ch bits)
  unfolding set_mode
  set_mode-Keeps ch bits h = Triple-bind (readl-Keeps e iomode) λ reg.
      Triple-bind (shl-Keeps 0xf (4 * ch) (omega arith)) λ field.
        Triple-bind (shl-Keeps 1 (4 * ch) (omega arith)) λ level.
          Triple-bind
            (when-Keeps (not (has_bits bits inout_dio))
              (writel-Keeps level (if has_bits bits inout_value then gpio_set else gpio_clear)))
            λ _.
              Triple-bind (shl-Keeps (nibble e bits) (4 * ch) (omega arith))
                λ mode. writel-Keeps (bit_or (bit_and reg (bit_not32 field)) mode) iomode

  set_modes-Keeps :
      (rounds ch mask : ℕ) (cmd : Cmd)
      → ch + rounds ≤ 8
      → Keeps W (IsDriver locked) (set_modes e rounds ch mask cmd)
  unfolding set_modes
  set_modes-Keeps zero ch mask cmd h = Keeps-pure tt
  set_modes-Keeps (suc rounds) ch mask cmd h = Triple-bind (shl-Keeps 1 ch (omega arith)) λ bit.
      Triple-bind
        (Triple-if (has_bits bit mask)
          (λ _.
            Triple-bind
              (Triple-if (has_bits cmd.flags f_mask) (λ _. shr-Keeps cmd.value ch (omega arith))
                (λ _. Keeps-pure cmd.value))
              λ bits. set_mode-Keeps ch bits (omega arith))
          (λ _. Keeps-pure tt))
        λ _. set_modes-Keeps rounds (ch + 1) mask cmd (omega arith)

-- Without a mask the channel is below the limit.
in_range : {b : Bool} {ch k : ℕ} → (b ≡ true) ⊎ (ch < k) → b ≡ false → ch < k
in_range (inl masked) unmasked = cc
in_range (inr small) unmasked = small

module _ (e : Env) {W : Type 0} where
  inout_over-Triple :
      (rounds ch mask : ℕ) (cmd : Cmd)
      → ch + rounds ≤ 8
      → IsCmd cmd
      → Triple W (IsDriver false) (inout_over e rounds ch mask cmd) Replies
  unfolding inout_over
  inout_over-Triple rounds ch mask cmd h c =
      Triple-if (has_bits cmd.flags f_get)
        (λ _. Triple-bind (readl-Keeps e iomode) λ reg.
          Triple-bind (get_modes-Keeps e rounds ch mask reg 0 h)
            λ value. Triple-pure (ok, record cmd { value = value }) (λ d v. (c, v)))
        (λ _.
          Triple-bind (set_modes-Keeps e rounds ch mask cmd h)
            λ _. Triple-pure (ok, cmd) (λ d v. (c, v)))

  -- In a good state an input/output command with a mask, or for a channel below 8, returns, shifts
  -- by fewer than 32 places, and leaves a good state.
  pub cmd_inout-Triple :
      (cmd : Cmd)
      → IsCmd cmd
      → (has_bits cmd.flags f_mask ≡ true) ⊎ (cmd.channel < 8)
      → Triple W (IsDriver false) (cmd_inout e cmd) Replies
  unfolding cmd_inout
  cmd_inout-Triple cmd c target =
      Triple-if (has_bits cmd.flags f_mask)
        (λ _. inout_over-Triple 5 0 cmd.channel cmd (omega arith) c)
        λ unmasked.
          let small : cmd.channel < 8 = in_range target unmasked in
          Triple-bind (shl-Keeps 1 cmd.channel (omega arith))
            λ mask. inout_over-Triple 1 cmd.channel mask cmd (omega arith) c
