-- ===== src/Core/Fmc/Steps.antt =====
-- The load of the processor's program leaves what the carrier holds as it is.
use sbndaq_wr.Base.{
  ℕ, zero, suc, ◌+◌, ◌*◌, ◌/◌, ◌^◌, ◌≤◌, List, [], ◌∷◌, length, Option, none, some, Bool, true,
  false, not, arith, get_or, fault, ◌||◌, ltb, ◌==◌, has_bits,
}
use sbndaq_wr.Base.Triples.{returns, Keeps, Keeps-pure, Triple-bind, Triple-if}
use sbndaq_wr.Mmio.{Env}
use sbndaq_wr.Carrier.Stage.{Stage, IsAt, HasWindow, Ensures-if_true, window_at}
use sbndaq_wr.Carrier.Device.{window_readl}
use sbndaq_wr.Carrier.Pci.Stages.{IsWhole}
use sbndaq_wr.Core.{Services}
use sbndaq_wr.Core.Stop.{off}
use sbndaq_wr.Core.Fmc.{
  window_writel, write_words, load_wrc, is_default_wrc, wrc_file, Setup, wrc_magic, reset_done,
  wait_reset, reload, needs_wrc, load_if,
}

module _ {W : Type 0} (g : Stage) (first : HasWindow g) where
  readl-IsAt : (e : Env) (off : ℕ) → Keeps W (IsAt g) (window_readl e off)
  unfolding window_readl
  readl-IsAt e off = record {
    at = λ s i.
        Ensures-if_true (get_or s.remap 0 false) _ fault (window_at g s first i)
          (returns (record { is = i.is }));
  }

  writel-IsAt : (v off : ℕ) → Keeps W (IsAt g) (window_writel v off)
  unfolding window_writel
  writel-IsAt v off = record {
    at = λ s i.
        Ensures-if_true (get_or s.remap 0 false) _ fault (window_at g s first i)
          (returns (record { is = i.is }));
  }

  write_words-IsAt :
      (rounds : ℕ) (p : List ℕ) (addr : ℕ)
      → 4 * rounds ≤ length p
      → Keeps W (IsAt g) (write_words rounds p addr)
  unfolding write_words
  write_words-IsAt zero p addr enough = Keeps-pure tt
  write_words-IsAt (suc rounds) (b0 ∷ b1 ∷ b2 ∷ b3 ∷ rest) addr enough =
      Triple-bind (writel-IsAt (b0 * 2 ^ 24 + b1 * 2 ^ 16 + b2 * 2 ^ 8 + b3) addr)
        λ _. write_words-IsAt rounds rest (addr + 4) (omega arith)
  write_words-IsAt (suc rounds) [] addr enough = absurd (omega arith)
  write_words-IsAt (suc rounds) (b0 ∷ []) addr enough = absurd (omega arith)
  write_words-IsAt (suc rounds) (b0 ∷ b1 ∷ []) addr enough = absurd (omega arith)
  write_words-IsAt (suc rounds) (b0 ∷ b1 ∷ b2 ∷ []) addr enough = absurd (omega arith)

  load_wrc-IsAt :
      (o : Option (List ℕ × ℕ)) (ram ramsize : ℕ)
      → IsWhole o
      → Keeps W (IsAt g) (load_wrc o ram ramsize)
  unfolding load_wrc
  load_wrc-IsAt none ram ramsize w = Keeps-pure false
  load_wrc-IsAt (some (bytes, size)) ram ramsize w =
      Triple-if (ltb ramsize size) (λ _. Keeps-pure false)
        λ _. Triple-bind (write_words-IsAt ((size + 3) / 4) bytes ram w) λ _. Keeps-pure true

  module _ (e : Env) (k : Services) (t : Setup)
      (whole : (n : Option ℕ) → IsWhole (t.wrc_files n)) where
    wait_reset-IsAt : (polls syscon : ℕ) → Keeps W (IsAt g) (wait_reset e k t polls syscon)
    unfolding wait_reset
    wait_reset-IsAt zero syscon =
        Triple-bind (readl-IsAt e syscon) λ v. Keeps-pure (not (has_bits v reset_done))
    wait_reset-IsAt (suc polls) syscon = Triple-bind (readl-IsAt e syscon) λ v.
        Triple-if (has_bits v reset_done) (λ _. Keeps-pure false)
          (λ _. wait_reset-IsAt polls syscon)

    reload-IsAt : (ram ramsize syscon : ℕ) → Keeps W (IsAt g) (reload e k t ram ramsize syscon)
    unfolding reload
    reload-IsAt ram ramsize syscon = Triple-bind (writel-IsAt 0x1deadbee syscon) λ _.
        Triple-bind (wait_reset-IsAt t.polls syscon) λ over.
          Triple-if (over || t.late)
            (λ _. Triple-bind (writel-IsAt 0x0deadbee syscon) λ _. Keeps-pure (true, false))
            λ _.
              Triple-bind
                (load_wrc-IsAt (t.wrc_files (wrc_file t.wrc)) ram ramsize (whole (wrc_file t.wrc)))
                λ loaded. Triple-bind (writel-IsAt 0x0deadbee syscon) λ _.
                  Triple-if (not loaded) (λ _. Keeps-pure (false, false))
                    λ _. Triple-bind (readl-IsAt e ram) λ _. Keeps-pure (true, true)

    pub needs_wrc-IsAt : (ram : Option (ℕ × ℕ)) → Keeps W (IsAt g) (needs_wrc e k t ram)
    unfolding needs_wrc
    needs_wrc-IsAt none = Keeps-pure (not (is_default_wrc t.wrc))
    needs_wrc-IsAt (some (ram, ramsize)) =
        Triple-bind (readl-IsAt e ram)
          λ v. Keeps-pure (not (v == wrc_magic) || not (is_default_wrc t.wrc))

    pub load_if-IsAt :
        (need : Bool) (ram : Option (ℕ × ℕ)) (syscon : Option ℕ)
        → Keeps W (IsAt g) (load_if e k t need ram syscon)
    unfolding load_if
    load_if-IsAt false ram syscon = Keeps-pure (true, true)
    load_if-IsAt true (some (ram, ramsize)) (some syscon) = reload-IsAt ram ramsize syscon
    load_if-IsAt true (some ram) none = Keeps-pure (true, false)
    load_if-IsAt true none syscon = Keeps-pure (true, false)
