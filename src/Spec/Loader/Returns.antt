-- ===== src/Spec/Loader/Returns.antt =====
-- The loader of spec-pci.c touches nothing out of bounds if its buffer has whole words.
use sbndaq_wr.Base.{
  ℕ, zero, suc, ◌+◌, ◌*◌, ◌/◌, ◌≤◌, List, [], ◌∷◌, Bool, true, false, not, arith, length, pure,
  ◌>>◌, ltb, ◌&&◌, has_bits, if◌then◌else◌,
}
use sbndaq_wr.Base.Triples.{
  returns, blocks, Ensures, Ensures-weaken, Triple, Triple-bind, Triple-pure, Triple-given,
  Triple-if,
}
use sbndaq_wr.Mmio.{History, Env}
use sbndaq_wr.Spec.Loader.{
  LoadReturn, wrote, load_eio, L, lll_read, lll_write, gpio_out, select_mode, start_engine, ctrl_of,
  wait_fifo, burst, send_words, loader_low_level, gpiofix_low_level, wait_success, spec_load_fpga,
  fcl_irq, fcl_ctrl,
}

-- A program that faults from no state.
abbrev pub Safe : {A : Type 0} → L A → Type 0
Safe m = Triple (Unit {0}) (λ _. Unit {0}) m (λ _ _. Unit {0})

safe : {A : Type 0} (a : A) → Safe (pure a)
safe a = Triple-pure a (λ _ _. tt)

write-Safe : (v reg : ℕ) → Safe (lll_write v reg)
write-Safe v reg = record { at = λ h p. returns tt }

-- The words that are left are in the buffer that is left.
abbrev IsLeft : ℕ × List ℕ × ℕ → History → Type 0
IsLeft left h = 4 * left.0 ≤ length left.1

burst-IsLeft :
    (rounds size32 n : ℕ) (data32 : List ℕ) (h : History)
    → 4 * size32 ≤ length data32
    → Ensures (Unit {0}) IsLeft (burst rounds size32 data32 n h)
unfolding burst
burst-IsLeft zero size32 n data32 h p = returns p
burst-IsLeft (suc rounds) zero n data32 h p = returns (omega arith)
burst-IsLeft (suc rounds) (suc size32) n [] h p = absurd (omega arith)
burst-IsLeft (suc rounds) (suc size32) n (b0 ∷ []) h p = absurd (omega arith)
burst-IsLeft (suc rounds) (suc size32) n (b0 ∷ b1 ∷ []) h p = absurd (omega arith)
burst-IsLeft (suc rounds) (suc size32) n (b0 ∷ b1 ∷ b2 ∷ []) h p = absurd (omega arith)
burst-IsLeft (suc rounds) (suc size32) n (b0 ∷ b1 ∷ b2 ∷ b3 ∷ rest) h p =
    burst-IsLeft rounds size32 (n + 1) rest _ (omega arith)

module _ (e : Env) where
  read-Safe : (reg : ℕ) → Safe (lll_read e reg)
  read-Safe reg = record { at = λ h p. returns tt }

  gpio_out-Safe : (addr bit : ℕ) (v : Bool) → Safe (gpio_out e addr bit v)
  unfolding gpio_out
  gpio_out-Safe addr bit v = record { at = λ h p. returns tt }

  select_mode-Safe : Safe (select_mode e)
  unfolding select_mode
  select_mode-Safe = record { at = λ h p. returns tt }

  start_engine-Safe : (ctrl : ℕ) → Safe (start_engine e ctrl)
  unfolding start_engine
  start_engine-Safe ctrl = record { at = λ h p. returns tt }

  wait_fifo-Safe : (fuel : ℕ) → Safe (wait_fifo e fuel)
  unfolding wait_fifo
  wait_fifo-Safe zero = record { at = λ h p. blocks tt }
  wait_fifo-Safe (suc fuel) =
      Triple-bind (read-Safe fcl_irq)
        λ i. Triple-if (has_bits i 32) (λ _. wait_fifo-Safe fuel) (λ _. safe tt)

  send_words-Safe :
      (rounds fuel size32 n : ℕ) (data32 : List ℕ) (r : Bool)
      → 4 * size32 ≤ length data32
      → Safe (send_words e rounds fuel size32 data32 n r)
  unfolding send_words
  send_words-Safe rounds fuel zero n data32 r p = safe (wrote n)
  send_words-Safe zero fuel (suc size32) n data32 r p = record { at = λ h q. blocks tt }
  send_words-Safe (suc rounds) fuel (suc size32) n data32 r p = Triple-bind (read-Safe fcl_irq) λ i.
      Triple-if (not (has_bits i 8 && ltb 0 n) && (has_bits i 4 && not r)) (λ _. safe load_eio)
        (λ _. Triple-bind (wait_fifo-Safe fuel) λ _.
          Triple-bind {R = λ left h. IsLeft left h × Unit {0}} (record { at = λ h q. burst_left h })
            λ left. Triple-given λ ok.
              send_words-Safe rounds fuel left.0 left.2 left.1
                (if has_bits i 8 && ltb 0 n then true else r) ok)
    where
      burst_left :
          (h : History)
          → Ensures
              (Unit {0})
              (λ left h'. IsLeft left h' × Unit {0})
              (burst 32 (suc size32) data32 n h)
      burst_left h =
          Ensures-weaken (λ left h' q. (q, tt)) (burst-IsLeft 32 (suc size32) n data32 h p)

  loader_low_level-Safe :
      (fuel : ℕ) (bytes : List ℕ) (size8 : ℕ)
      → 4 * ((size8 + 3) / 4) ≤ length bytes
      → Safe (loader_low_level e fuel bytes size8)
  unfolding loader_low_level
  loader_low_level-Safe fuel bytes size8 enough = Triple-bind select_mode-Safe λ ready.
      Triple-if ready
        (λ _. Triple-bind (start_engine-Safe (ctrl_of size8)) λ _.
          Triple-bind
            (send_words-Safe ((size8 + 3) / 4) fuel ((size8 + 3) / 4) 0 bytes false enough)
            λ r. ended r)
        (λ _. safe load_eio)
    where
      ended :
          (r : LoadReturn)
          → Safe (elim r [
            | wrote n ↦ lll_write 0x186 fcl_ctrl >> pure (wrote n)
            | load_eio ↦ pure load_eio
          ])
      ended (wrote n) = record { at = λ h p. returns tt }
      ended load_eio = safe load_eio

  wait_success-Safe : (clock : List Bool) → Safe (wait_success e clock)
  unfolding wait_success
  wait_success-Safe [] = record { at = λ h p. blocks tt }
  wait_success-Safe (expired ∷ clock) = Triple-bind (read-Safe fcl_irq) λ i.
      Triple-if (has_bits i 0x8) (λ _. safe true)
        (λ _.
          Triple-if (has_bits i 0x4) (λ _. safe false)
            (λ _. Triple-if expired (λ _. safe false) (λ _. wait_success-Safe clock)))

  pub spec_load_fpga-Safe :
      (fuel : ℕ) (clock : List Bool) (bytes : List ℕ) (size : ℕ)
      → 4 * ((size + 3) / 4) ≤ length bytes
      → Safe (spec_load_fpga e fuel clock bytes size)
  unfolding spec_load_fpga gpiofix_low_level
  spec_load_fpga-Safe fuel clock bytes size enough =
      Triple-bind (loader_low_level-Safe fuel bytes size enough) λ _.
        Triple-bind (wait_success-Safe clock)
          λ success. Triple-if success (λ _. record { at = λ h p. returns tt }) (λ _. safe false)
