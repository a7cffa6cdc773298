-- ===== src/Spec/Loader/Sent.antt =====
-- What the loader sends: the words of the data in order.
use sbndaq_wr.Base.{
  ℕ, zero, suc, ◌+◌, ◌-◌, ◌*◌, ◌/◌, ◌^◌, ◌<◌, ◌≤◌, ◌≡◌, ◌∙◌, refl, sym, ap, arith, List, [], ◌∷◌,
  ◌++◌, Bool, true, false, not, length, pure, ◌>>◌, waiting, ◌==◌, ltb, ◌&&◌, has_bits,
  if◌then◌else◌,
}
use mathlib.Core.List.{append_assoc, append-nil}
use sbndaq_wr.Base.Triples.{
  Ensures, Ensures-waits, Ensures-weaken, Triple, Keeps, returns, blocks, Triple-bind, Triple-pure,
  Triple-given, Triple-pre, Triple-if,
}
use sbndaq_wr.Mmio.{gennum, Access, read, write, History, Env, u32}
use sbndaq_wr.Spec.Loader.{
  LoadReturn, wrote, load_eio, fcl_fifo, lll_read, lll_write, reverse_bits8, burst, wait_fifo,
  send_words, fcl_irq, fcl_ctrl, ctrl_of, gpio_out, select_mode, start_engine, loader_low_level,
}
use sbndaq_wr.Spec.Loader.Words.{
  reverse_bits8-mirror, reverse_bits8-byte, AllBytes, mirrored_word, words,
}

-- The words that the FIFO got, in order.
abbrev fifo_add : Access → List ℕ → List ℕ
fifo_add (write (gennum reg) v) ws = if reg == fcl_fifo then ws ++ v ∷ [] else ws
fifo_add a ws = ws

abbrev pub sent : History → List ℕ
sent [] = []
sent (a ∷ h) = fifo_add a (sent h)

-- `size32` words of the data are left, of `all`, with `n` of `total` written, which are `ws`.
pub record IsProgress (all : List ℕ) (total size32 n : ℕ) (data32 ws : List ℕ) : Type 0 where
  pub order : ws ++ words size32 data32 ≡ all
  pub counts : n + size32 ≡ total
  pub bytes : AllBytes data32
  pub enough : 4 * size32 ≤ length data32

-- How `loader_low_level` may end: all words were sent, or a first part of them and then the card reported an error.
abbrev pub IsSent : List ℕ → ℕ → LoadReturn → History → Type 0
IsSent all total (wrote n) h = (n ≡ total) × (sent h ≡ all)
IsSent all total load_eio h = (unsent : List ℕ) × (sent h ++ unsent ≡ all)

-- What a burst leaves: fewer words, by `rounds` or all of them.
abbrev IsBurst : List ℕ → ℕ → ℕ → ℕ → ℕ × List ℕ × ℕ → History → Type 0
IsBurst all total rounds size32 left h =
    (left.0 ≤ size32 - rounds) × IsProgress all total left.0 left.2 left.1 (sent h)

small_word :
    (r0 r1 r2 r3 : ℕ)
    → r0 < 256
    → r1 < 256
    → r2 < 256
    → r3 < 256
    → u32 (r0 + r1 * 2 ^ 8 + r2 * 2 ^ 16 + r3 * 2 ^ 24)
      ≡ r0 + r1 * 2 ^ 8 + r2 * 2 ^ 16 + r3 * 2 ^ 24
small_word r0 r1 r2 r3 h0 h1 h2 h3 = omega arith

word_lem :
    (b0 b1 b2 b3 : ℕ)
    → b0 < 256
    → b1 < 256
    → b2 < 256
    → b3 < 256
    → u32 (
        reverse_bits8 b0
        + reverse_bits8 b1 * 2 ^ 8
        + reverse_bits8 b2 * 2 ^ 16
        + reverse_bits8 b3 * 2 ^ 24)
      ≡ mirrored_word b0 b1 b2 b3
word_lem b0 b1 b2 b3 h0 h1 h2 h3 =
    rw
      (
        ← reverse_bits8-mirror b0 h0,
        ← reverse_bits8-mirror b1 h1,
        ← reverse_bits8-mirror b2 h2,
        ← reverse_bits8-mirror b3 h3,
      )
      (small_word (reverse_bits8 b0) (reverse_bits8 b1) (reverse_bits8 b2) (reverse_bits8 b3)
        (reverse_bits8-byte b0 h0) (reverse_bits8-byte b1 h1) (reverse_bits8-byte b2 h2)
        (reverse_bits8-byte b3 h3))

module _ {W : Type 0} (all : List ℕ) (total : ℕ) where
  burst_lem :
      (rounds size32 n : ℕ) (data32 : List ℕ) (h : History)
      → IsProgress all total size32 n data32 (sent h)
      → Ensures W (IsBurst all total rounds size32) (burst rounds size32 data32 n h)
  unfolding burst
  burst_lem zero size32 n data32 h p = returns (omega arith, p)
  burst_lem (suc rounds) zero n data32 h p = returns (omega arith, p)
  burst_lem (suc rounds) (suc size32) n [] h p = absurd (omega (arith, p.enough))
  burst_lem (suc rounds) (suc size32) n (b0 ∷ []) h p = absurd (omega (arith, p.enough))
  burst_lem (suc rounds) (suc size32) n (b0 ∷ b1 ∷ []) h p = absurd (omega (arith, p.enough))
  burst_lem (suc rounds) (suc size32) n (b0 ∷ b1 ∷ b2 ∷ []) h p = absurd (omega (arith, p.enough))
  burst_lem (suc rounds) (suc size32) n (b0 ∷ b1 ∷ b2 ∷ b3 ∷ rest) h p =
      Ensures-weaken (λ left h' (fewer, q). (omega arith, q))
        (burst_lem rounds size32 (n + 1) rest _ (record {
          order =
              ap (λ w. (sent h ++ w ∷ []) ++ words size32 rest)
                (word_lem b0 b1 b2 b3 p.bytes.0 p.bytes.1.0 p.bytes.1.1.0 p.bytes.1.1.1.0)
              ∙ append_assoc (sent h) (mirrored_word b0 b1 b2 b3 ∷ []) (words size32 rest)
              ∙ p.order;
          counts = omega (arith, p.counts);
          bytes = p.bytes.1.1.1.1;
          enough = omega (arith, p.enough);
        }))

-- A wait for the FIFO sends nothing, and blocks only if its fuel is used up.
module _ (e : Env) (P : List ℕ → Type 0) where
  wait_step :
      (fuel : ℕ) (full : Bool) (h : History)
      → P (sent h)
      → Ensures (wait_fifo e fuel h ≡ waiting) (λ _ h'. P (sent h')) (wait_fifo e fuel h)
      → Ensures
          ((if full then wait_fifo e fuel else pure tt) h ≡ waiting)
          (λ _ h'. P (sent h'))
          ((if full then wait_fifo e fuel else pure tt) h)
  wait_step fuel true h p w = w
  wait_step fuel false h p w = returns p

  wait_fifo_lem :
      (fuel : ℕ) (h : History)
      → P (sent h)
      → Ensures (wait_fifo e fuel h ≡ waiting) (λ _ h'. P (sent h')) (wait_fifo e fuel h)
  unfolding wait_fifo
  wait_fifo_lem zero h p = blocks refl
  wait_fifo_lem (suc fuel) h p =
      wait_step fuel (has_bits (u32 (e.answer h (gennum fcl_irq))) (2 ^ 5))
        (read (gennum fcl_irq) ∷ h) p (wait_fifo_lem fuel (read (gennum fcl_irq) ∷ h) p)

  start_engine_lem : {W : Type 0} (ctrl : ℕ) → Keeps W (λ h. P (sent h)) (start_engine e ctrl)
  unfolding start_engine
  start_engine_lem ctrl = record { at = λ h p. returns p }

  select_mode_lem : {W : Type 0} → Keeps W (λ h. P (sent h)) (select_mode e)
  unfolding select_mode gpio_out
  select_mode_lem = record { at = λ h p. returns p }

  irq_lem : {W : Type 0} → Keeps W (λ h. P (sent h)) (lll_read e fcl_irq)
  irq_lem = record { at = λ h p. returns p }

-- No more than `fuel` reads find the FIFO full, or `W`.
module _ {W : Type 0} (e : Env) (fuel : ℕ)
    (blocked : (h : History) → wait_fifo e fuel h ≡ waiting → W) where
  module _ (all : List ℕ) (total : ℕ) where
    abbrev At : ℕ → ℕ → List ℕ → History → Type 0
    At size32 n data32 h = IsProgress all total size32 n data32 (sent h)

    send_words_lem :
        (rounds size32 n : ℕ) (data32 : List ℕ) (finished : Bool)
        → size32 ≤ rounds
        → Triple W
            (At size32 n data32)
            (send_words e rounds fuel size32 data32 n finished)
            (IsSent all total)
    unfolding send_words
    send_words_lem rounds zero n data32 finished r =
        Triple-pure (wrote n)
          (λ h p. (omega (arith, p.counts), sym (append-nil (sent h)) ∙ p.order))
    send_words_lem zero (suc size32) n data32 finished r = absurd (omega arith)
    send_words_lem (suc rounds) (suc size32) n data32 finished r =
        Triple-bind (irq_lem e (IsProgress all total (suc size32) n data32)) λ i.
          Triple-if (not (has_bits i 8 && ltb 0 n) && (has_bits i 4 && not finished))
            (λ _. Triple-pure load_eio (λ h p. (words (suc size32) data32, p.order)))
            (λ _.
              Triple-bind
                (record {
                  at = λ h p.
                      Ensures-waits (blocked h)
                        (wait_fifo_lem e (IsProgress all total (suc size32) n data32) fuel h p);
                })
                λ _.
                  Triple-bind
                    (record { at = λ h p. burst_lem all total 32 (suc size32) n data32 h p })
                    λ left. Triple-given λ fewer.
                      send_words_lem rounds left.0 left.2 left.1
                        (if has_bits i 8 && ltb 0 n then true else finished) (omega arith))

    finish_lem :
        (r : LoadReturn)
        → Triple W
            (IsSent all total r)
            (elim r [
              | wrote n ↦ lll_write 0x186 fcl_ctrl >> pure (wrote n)
              | load_eio ↦ pure load_eio
            ])
            (IsSent all total)
    finish_lem (wrote n) = record { at = λ h p. returns p }
    finish_lem load_eio = Triple-pure load_eio (λ h p. p)

  -- All words of the data are sent in order, each with the bits of its bytes reversed, and their number is the result; or
  -- the result is -EIO, and a first part of them was sent. The buffer has whole words. The
  -- loader returns if every wait for the FIFO does.
  pub loader_low_level-Triple :
      (bytes : List ℕ) (size8 : ℕ)
      → AllBytes bytes
      → 4 * ((size8 + 3) / 4) ≤ length bytes
      → Triple W
          (λ h. sent h ≡ [])
          (loader_low_level e fuel bytes size8)
          (IsSent (words ((size8 + 3) / 4) bytes) ((size8 + 3) / 4))
  unfolding loader_low_level
  loader_low_level-Triple bytes size8 ok enough =
      Triple-bind (select_mode_lem e (λ ws. ws ≡ [])) λ ready.
        Triple-if ready
          (λ _. Triple-bind (start_engine_lem e (λ ws. ws ≡ []) (ctrl_of size8)) λ _.
            Triple-bind
              (Triple-pre {P = λ h. sent h ≡ []}
                (λ h p. record {
                  order = ap (λ ws. ws ++ words ((size8 + 3) / 4) bytes) p;
                  counts = omega arith;
                  bytes = ok;
                  enough = enough;
                })
                (send_words_lem (words ((size8 + 3) / 4) bytes) ((size8 + 3) / 4) ((size8 + 3) / 4)
                  ((size8 + 3) / 4) 0 bytes false (omega arith)))
              λ r. finish_lem (words ((size8 + 3) / 4) bytes) ((size8 + 3) / 4) r)
          (λ _. Triple-pure load_eio (λ h p.
            (words ((size8 + 3) / 4) bytes, ap (λ ws. ws ++ words ((size8 + 3) / 4) bytes) p)))
