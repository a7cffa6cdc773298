-- ===== src/Speclib.antt =====
-- tools/speclib.c: the card as the tools open it, its virtual UART, and the program of its processor.
pub mod File
pub mod Firmware
mod Tests
use sbndaq_wr.Base.{
  ℕ, zero, suc, ◌+◌, ◌*◌, ◌/◌, ◌%◌, ◌^◌, List, [], ◌∷◌, Option, none, some, Bool, true, false, not,
  bit_and, Program, done, fault, waiting, pure, stop, ◌>>=◌, ◌>>◌, checked, ltb, ◌==◌, ◌&&◌, ◌||◌,
  has_bits, if◌then◌else◌,
}
use sbndaq_wr.Mmio.{Addr, bar0, read, write, History, Env, u32}

-- `struct spec_private`: whether the two areas are mapped, the UART's base, and the accesses to BAR 0.
pub record SpecPrivate : Type 0 where
  pub bar0_mapped : Bool
  pub bar4_mapped : Bool
  pub vuart_base : ℕ
  pub history : History

abbrev pub V : Type 0 → Type 0
V A = Program SpecPrivate A

-- What `spec_scan` has chosen; `none` is a negative number.
pub record Place : Type 0 where
  pub bus : Option ℕ
  pub devfn : Option ℕ
  pub found : Bool

-- `if (x < 0) x = mine`.
abbrev pub or_mine : Option ℕ → ℕ → ℕ
or_mine none mine = mine
or_mine (some x) mine = x

-- The loop of `spec_scan`, over what `sscanf` makes of the names, the last one first; `none` is a name that does not match.
unfoldable pub scan_names : Place → List (Option (ℕ × ℕ)) → Place
scan_names p [] = p
scan_names p (none ∷ names) = scan_names p names
scan_names p (some (my_bus, my_devfn) ∷ names) =
    let bus = or_mine p.bus my_bus in
    let devfn = or_mine p.devfn my_devfn in
    let next : Place = record {
      bus = some bus;
      devfn = some devfn;
      found = bus == my_bus && devfn == my_devfn;
    } in
    if p.found then scan_names p names else scan_names next names

-- `spec_scan`: the place, if there is a card.
unfoldable pub spec_scan : Option ℕ → Option ℕ → List (Option (ℕ × ℕ)) → Option (ℕ × ℕ)
unfolding scan_names
spec_scan bus devfn names =
    let p = scan_names (record { bus = bus; devfn = devfn; found = false }) names in
    if p.found
    then elim p.bus [ none ↦ none | some b ↦ elim p.devfn [ none ↦ none | some d ↦ some (b, d) ] ]
    else none

-- `spec_open`: the card, for the place that `spec_scan` finds and the areas that can be mapped.
unfoldable pub spec_open :
    Bool → Option ℕ → Option ℕ → List (Option (ℕ × ℕ)) → (ℕ → ℕ → Bool × Bool) → Option SpecPrivate
unfolding spec_scan
spec_open allocated bus dev names map_areas =
    if not allocated then none else elim (spec_scan bus dev names) [
      | none ↦ none
      | some (b, d) ↦
          let areas = map_areas b d in
          if not areas.0 && not areas.1
          then none
          else some (record {
            bar0_mapped = areas.0;
            bar4_mapped = areas.1;
            vuart_base = 0;
            history = [];
          })
    ]

-- The length of BAR 0 as `spec_open` maps it.
abbrev pub bar0_len : ℕ
bar0_len = 0x100000

abbrev pub is_inside : ℕ → SpecPrivate → Bool
is_inside addr s = s.bar0_mapped && ltb (u32 addr + 3) bar0_len

-- `spec_writel` and `spec_readl`: through a null pointer if the area is not mapped, and undefined behind
-- its end.
unfoldable pub spec_writel : ℕ → ℕ → V (Unit {0})
spec_writel word addr s =
    if is_inside addr s
    then done tt (record s { history = write (bar0 (u32 addr)) (u32 word) ∷ s.history })
    else stop s

unfoldable pub spec_vuart_init : ℕ → V (Unit {0})
spec_vuart_init base s = done tt (record s { vuart_base = base })

unfoldable pub get_base : V ℕ
get_base s = done s.vuart_base s

-- `htonl` on a little-endian host.
abbrev pub htonl : ℕ → ℕ
htonl x =
    x % 2 ^ 8 * 2 ^ 24
    + x / 2 ^ 8 % 2 ^ 8 * 2 ^ 16
    + x / 2 ^ 16 % 2 ^ 8 * 2 ^ 8
    + x / 2 ^ 24 % 2 ^ 8

-- `ibuf[i]` for the pointer to the bytes of it on, and the pointer to the next word.
abbrev pub next_word : List ℕ → Option (ℕ × List ℕ)
next_word (b0 ∷ b1 ∷ b2 ∷ b3 ∷ rest) = some (b0 + b1 * 2 ^ 8 + b2 * 2 ^ 16 + b3 * 2 ^ 24, rest)
next_word (b0 ∷ b1 ∷ b2 ∷ []) = none
next_word (b0 ∷ b1 ∷ []) = none
next_word (b0 ∷ []) = none
next_word [] = none

-- The loop that writes the program, with `rounds` words left from word `i` on.
unfoldable pub write_program : ℕ → ℕ → ℕ → List ℕ → V (Unit {0})
unfolding spec_writel
write_program zero base i ibuf = pure tt
write_program (suc rounds) base i ibuf = do
  w ← checked (next_word ibuf)
  spec_writel (htonl w.0) (base + i * 4)
  write_program rounds base (i + 1) w.1

module _ (e : Env) where
  unfoldable pub spec_readl : ℕ → V ℕ
  spec_readl addr s =
      if is_inside addr s
      then done (u32 (e.answer s.history (bar0 (u32 addr))))
          (record s { history = read (bar0 (u32 addr)) ∷ s.history })
      else stop s

  -- The loop that compares: whether all words are as they should be.
  unfoldable pub verify_program : ℕ → ℕ → ℕ → List ℕ → V Bool
  unfolding spec_readl
  verify_program zero base i ibuf = pure true
  verify_program (suc rounds) base i ibuf = do
    r ← spec_readl (base + i * 4)
    w ← checked (next_word ibuf)
    if r == htonl w.0 then verify_program rounds base (i + 1) w.1 else pure false

  -- The wait for the reset, with fuel.
  unfoldable pub wait_reset : ℕ → ℕ → V (Unit {0})
  unfolding spec_readl
  wait_reset zero base = λ s. waiting
  wait_reset (suc fuel) base = do
    r ← spec_readl (base + 0x20400)
    if has_bits r (2 ^ 28) then pure tt else wait_reset fuel base

  -- `spec_load_lm32`, for a file's bytes and size; whether it returns 0.
  unfoldable pub spec_load_lm32 : ℕ → Option (List ℕ × ℕ) → ℕ → V Bool
  unfolding wait_reset write_program verify_program spec_writel
  spec_load_lm32 fuel none base = pure false
  spec_load_lm32 fuel (some file) base = do
    spec_writel 0x1deadbee (base + 0x20400)
    wait_reset fuel base
    write_program ((file.1 + 3) / 4) base 0 file.0
    good ← verify_program ((file.1 + 3) / 4) base 0 file.0
    if good then (spec_writel 0x0deadbee (base + 0x20400) >> pure true) else pure false

  -- `vuart_rx`: a byte, if there is one.
  unfoldable pub vuart_rx : V (Option ℕ)
  unfolding spec_readl get_base
  vuart_rx = do
    base ← get_base
    rdr ← spec_readl (base + 0x14)
    pure (if has_bits rdr (2 ^ 8) then some (rdr % 2 ^ 8) else none)

  -- `vuart_tx`, with fuel for the wait.
  unfoldable pub wait_uart : ℕ → ℕ → V (Unit {0})
  unfolding spec_readl
  wait_uart zero base = λ s. waiting
  wait_uart (suc fuel) base = do
    sr ← spec_readl (base + 0x0)
    if has_bits sr (2 ^ 1) then wait_uart fuel base else pure tt

  unfoldable pub vuart_tx : ℕ → ℕ → V (Unit {0})
  unfolding wait_uart spec_writel get_base
  vuart_tx fuel c = do base ← get_base; wait_uart fuel base; spec_writel (c % 2 ^ 8) (base + 0x10)

  -- `spec_vuart_rx`: the bytes that are stored, at most `size`.
  unfoldable pub spec_vuart_rx : ℕ → V (List ℕ)
  unfolding vuart_rx
  spec_vuart_rx zero = pure []
  spec_vuart_rx (suc size) = do
    c ← vuart_rx
    elim c [ none ↦ pure [] | some byte ↦ (spec_vuart_rx size >>= λ rest. pure (byte ∷ rest)) ]

  -- `spec_vuart_tx`.
  unfoldable pub spec_vuart_tx : ℕ → List ℕ → V (Unit {0})
  unfolding vuart_tx
  spec_vuart_tx fuel [] = pure tt
  spec_vuart_tx fuel (c ∷ buffer) = vuart_tx fuel c >> spec_vuart_tx fuel buffer
