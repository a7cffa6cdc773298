-- ===== src/Speclib/Firmware.antt =====
-- What `spec_load_lm32` has done when it returns 0.
use sbndaq_wr.Base.{
  ℕ, zero, suc, ◌+◌, ◌*◌, ◌/◌, ◌^◌, ◌<◌, ◌≤◌, lt→ltb, ◌≡◌, ◌∙◌, refl, sym, ap, List, [], ◌∷◌, some,
  Bool, true, false, arith, length, pure, ◌>>◌, ◌==◌, ==_iff, has_bits, if◌then◌else◌,
}
use sbndaq_wr.Base.Triples.{
  Triple, returns, blocks, Triple-bind, Triple-pure, Triple-given, Triple-post, Triple-if,
}
use sbndaq_wr.Mmio.{Addr, bar0, read, write, History, Env, u32}
use sbndaq_wr.Speclib.{
  bar0_len, SpecPrivate, htonl, spec_writel, spec_readl, write_program, verify_program, wait_reset,
  spec_load_lm32,
}

-- The first `n` words of a file.
abbrev pub file_words : ℕ → List ℕ → List ℕ
file_words zero bytes = []
file_words (suc n) (b0 ∷ b1 ∷ b2 ∷ b3 ∷ rest) =
    (b0 + b1 * 2 ^ 8 + b2 * 2 ^ 16 + b3 * 2 ^ 24) ∷ file_words n rest
file_words (suc n) (b0 ∷ b1 ∷ b2 ∷ []) = []
file_words (suc n) (b0 ∷ b1 ∷ []) = []
file_words (suc n) (b0 ∷ []) = []
file_words (suc n) [] = []

-- The place of a word.
abbrev pub place : ℕ → ℕ → Addr
place base i = bar0 (u32 (base + i * 4))

-- The words from number `i` on are written, in order.
abbrev pub written : ℕ → ℕ → List ℕ → History → History
written base i [] h = h
written base i (w ∷ words) h = written base (i + 1) words (write (place base i) (u32 (htonl w)) ∷ h)

-- The words are read back, in order, and each is as it should be.
pub data IsReadBack (e : Env) (base : ℕ) : ℕ → List ℕ → History → History → Type 0 where
  all_read : {i : ℕ} {h : History} → IsReadBack e base i [] h h
  next_read :
      {i w : ℕ} {words : List ℕ} {h h' : History}
      → u32 (e.answer h (place base i)) ≡ htonl w
      → IsReadBack e base (i + 1) words (read (place base i) ∷ h) h'
      → IsReadBack e base i (w ∷ words) h h'

-- Accesses that only read, from one history to a later one.
pub data OnlyReads : History → History → Type 0 where
  no_more : {h : History} → OnlyReads h h
  one_more : {h h' : History} (a : Addr) → OnlyReads (read a ∷ h) h' → OnlyReads h h'

-- With BAR 0 mapped, after these accesses.
pub record IsAfter (h : History) (s : SpecPrivate) : Type 0 where
  pub mapped : s.bar0_mapped ≡ true
  pub accesses : s.history ≡ h

-- The result of the comparison; it ends with a read if it fails.
abbrev IsVerified : Env → ℕ → ℕ → List ℕ → History → Bool → SpecPrivate → Type 0
IsVerified e base i words h true s = (h' : History) × IsReadBack e base i words h h' × IsAfter h' s
IsVerified e base i words h false s = (h' : History) × OnlyReads h h' × IsAfter h' s

-- The processor is held by the first access after `h`, reads follow up to `before`, and then all words are written.
-- The loading ends with all of them read back, and then the processor released; or with reads alone.
abbrev pub hold : ℕ → History → History
hold base h = write (bar0 (u32 (base + 0x20400))) 0x1deadbee ∷ h

abbrev pub IsLm32 : Env → ℕ → List ℕ → History → Bool → SpecPrivate → Type 0
IsLm32 e base words h true s =
    (before : History) × (after : History) × OnlyReads (hold base h) before
    × IsReadBack e base 0 words (written base 0 words before) after
    × (s.history ≡ write (bar0 (u32 (base + 0x20400))) 0x0deadbee ∷ after)
IsLm32 e base words h false s =
    (before : History) × (after : History) × OnlyReads (hold base h) before
    × OnlyReads (written base 0 words before) after
    × (s.history ≡ after)

IsVerified-cons :
    (e : Env) (base i w : ℕ) (words : List ℕ) (h : History)
    → u32 (e.answer h (place base i)) ≡ htonl w
    → (good : Bool) (s : SpecPrivate)
    → IsVerified e base (i + 1) words (read (place base i) ∷ h) good s
    → IsVerified e base i (w ∷ words) h good s
IsVerified-cons e base i w words h same true s (h', back, p) = (h', next_read same back, p)
IsVerified-cons e base i w words h same false s (h', reads, p) =
    (h', one_more (place base i) reads, p)

module _ {W : Type 0} where
  spec_writel-Triple :
      (v a : ℕ) (h : History)
      → u32 a + 3 < bar0_len
      → Triple W (IsAfter h) (spec_writel v a) (λ _. IsAfter (write (bar0 (u32 a)) (u32 v) ∷ h))
  unfolding spec_writel
  spec_writel-Triple v a h small = record {
    at = λ s p.
        rw (p.mapped, lt→ltb (u32 a + 3) bar0_len small)
          (returns (record {
            mapped = refl;
            accesses = ap (λ (x : History). write (bar0 (u32 a)) (u32 v) ∷ x) p.accesses;
          }));
  }

  spec_readl-Triple :
      (e : Env) (a : ℕ) (h : History)
      → u32 a + 3 < bar0_len
      → Triple W
          (IsAfter h)
          (spec_readl e a)
          (λ r s. (r ≡ u32 (e.answer h (bar0 (u32 a)))) × IsAfter (read (bar0 (u32 a)) ∷ h) s)
  unfolding spec_readl
  spec_readl-Triple e a h small = record {
    at = λ s p.
        rw (p.mapped, lt→ltb (u32 a + 3) bar0_len small)
          (returns (
            ap (λ (x : History). u32 (e.answer x (bar0 (u32 a)))) p.accesses,
            record {
              mapped = refl;
              accesses = ap (λ (x : History). read (bar0 (u32 a)) ∷ x) p.accesses;
            },
          ));
  }

  write_program-Triple :
      (rounds base i : ℕ) (bytes : List ℕ) (h : History)
      → 4 * rounds ≤ length bytes
      → base + 4 * (i + rounds) ≤ bar0_len
      → Triple W
          (IsAfter h)
          (write_program rounds base i bytes)
          (λ _. IsAfter (written base i (file_words rounds bytes) h))
  unfolding write_program
  write_program-Triple zero base i bytes h enough fits = Triple-pure tt (λ s p. p)
  write_program-Triple (suc rounds) base i [] h enough fits = absurd (omega arith)
  write_program-Triple (suc rounds) base i (b0 ∷ []) h enough fits = absurd (omega arith)
  write_program-Triple (suc rounds) base i (b0 ∷ b1 ∷ []) h enough fits = absurd (omega arith)
  write_program-Triple (suc rounds) base i (b0 ∷ b1 ∷ b2 ∷ []) h enough fits = absurd (omega arith)
  write_program-Triple (suc rounds) base i (b0 ∷ b1 ∷ b2 ∷ b3 ∷ rest) h enough fits =
      let w = b0 + b1 * 2 ^ 8 + b2 * 2 ^ 16 + b3 * 2 ^ 24 in
      record {
        at = λ s p.
            (Triple-bind (spec_writel-Triple (htonl w) (base + i * 4) h (omega arith)) λ _.
                write_program-Triple rounds base (i + 1) rest
                  (write (place base i) (u32 (htonl w)) ∷ h) (omega arith) (omega arith)).at
              s p;
      }

module _ (e : Env) where
  -- After some reads.
  wait_reset-Triple :
      (fuel base : ℕ) (h : History)
      → base + 0x20404 ≤ bar0_len
      → Triple
          (Unit {0})
          (IsAfter h)
          (wait_reset e fuel base)
          (λ _ s. (h' : History) × OnlyReads h h' × IsAfter h' s)
  unfolding wait_reset
  wait_reset-Triple zero base h fits = record { at = λ s p. blocks tt }
  wait_reset-Triple (suc fuel) base h fits =
      Triple-bind (spec_readl-Triple e (base + 0x20400) h (omega arith)) λ r. Triple-given λ _.
        Triple-if (has_bits r (2 ^ 28))
          (λ _. Triple-pure tt (λ s p. (
            read (bar0 (u32 (base + 0x20400))) ∷ h,
            one_more (bar0 (u32 (base + 0x20400))) no_more,
            p,
          )))
          (λ _.
            Triple-post
              (λ _ s (h', reads, p). (h', one_more (bar0 (u32 (base + 0x20400))) reads, p))
              (wait_reset-Triple fuel base (read (bar0 (u32 (base + 0x20400))) ∷ h) fits))

module _ {W : Type 0} (e : Env) where
  verify_program-Triple :
      (rounds base i : ℕ) (bytes : List ℕ) (h : History)
      → 4 * rounds ≤ length bytes
      → base + 4 * (i + rounds) ≤ bar0_len
      → Triple W
          (IsAfter h)
          (verify_program e rounds base i bytes)
          (IsVerified e base i (file_words rounds bytes) h)
  unfolding verify_program
  verify_program-Triple zero base i bytes h enough fits = Triple-pure true (λ s p. (h, all_read, p))
  verify_program-Triple (suc rounds) base i [] h enough fits = absurd (omega arith)
  verify_program-Triple (suc rounds) base i (b0 ∷ []) h enough fits = absurd (omega arith)
  verify_program-Triple (suc rounds) base i (b0 ∷ b1 ∷ []) h enough fits = absurd (omega arith)
  verify_program-Triple (suc rounds) base i (b0 ∷ b1 ∷ b2 ∷ []) h enough fits = absurd (omega arith)
  verify_program-Triple (suc rounds) base i (b0 ∷ b1 ∷ b2 ∷ b3 ∷ rest) h enough fits =
      let w = b0 + b1 * 2 ^ 8 + b2 * 2 ^ 16 + b3 * 2 ^ 24 in
      Triple-bind (spec_readl-Triple e (base + i * 4) h (omega arith)) λ r. Triple-given λ value.
        Triple-if (r == htonl w)
          (λ same.
            Triple-post
              (IsVerified-cons e base i w (file_words rounds rest) h
                (sym value ∙ (==_iff r (htonl w)).0 same))
              (verify_program-Triple rounds base (i + 1) rest (read (place base i) ∷ h)
                (omega arith) (omega arith)))
          (λ _.
            Triple-pure false
              (λ s p. (read (place base i) ∷ h, one_more (place base i) no_more, p)))

  -- The end, after the comparison.
  release :
      (base : ℕ) (words : List ℕ) (h before : History) (good : Bool)
      → base + 0x20404 ≤ bar0_len
      → OnlyReads (hold base h) before
      → Triple W
          (IsVerified e base 0 words (written base 0 words before) good)
          (if good then (spec_writel 0x0deadbee (base + 0x20400) >> pure true) else pure false)
          (IsLm32 e base words h)
  release base words h before true fits held = record {
    at = λ s (h', back, p).
        (Triple-bind (spec_writel-Triple 0x0deadbee (base + 0x20400) h' (omega arith))
            λ _. Triple-pure true (λ s' q. (before, h', held, back, q.accesses))).at
          s p;
  }
  release base words h before false fits held =
      Triple-pure false (λ s (h', reads, p). (before, h', held, reads, p.accesses))

-- With BAR 0 mapped, a buffer of whole words, and the program and the reset register inside BAR 0, nothing faults. The first
-- access holds the processor, and then nothing but reads comes before the words of the program, which are all written in
-- order, each in network order at its place. If the loading succeeds, the words were read back in order with these values,
-- and the last access releases the processor. If it fails, nothing but reads follows the words: the processor is not
-- released.
pub spec_load_lm32-Triple :
    (e : Env) (fuel base size : ℕ) (bytes : List ℕ) (h : History)
    → 4 * ((size + 3) / 4) ≤ length bytes
    → base + 0x20404 ≤ bar0_len
    → base + 4 * ((size + 3) / 4) ≤ bar0_len
    → Triple
        (Unit {0})
        (IsAfter h)
        (spec_load_lm32 e fuel (some (bytes, size)) base)
        (IsLm32 e base (file_words ((size + 3) / 4) bytes) h)
unfolding spec_load_lm32
spec_load_lm32-Triple e fuel base size bytes h enough regs fits =
    let n = (size + 3) / 4 in
    Triple-bind (spec_writel-Triple 0x1deadbee (base + 0x20400) h (omega arith)) λ _.
      Triple-bind (wait_reset-Triple e fuel base (hold base h) regs) λ _. record {
        at = λ s (before, held, p).
            (Triple-bind (write_program-Triple n base 0 bytes before enough (omega arith)) λ _.
                Triple-bind
                  (verify_program-Triple e n base 0 bytes
                    (written base 0 (file_words n bytes) before) enough (omega arith))
                  λ good. release e base (file_words n bytes) h before good regs held).at
              s p;
      }
