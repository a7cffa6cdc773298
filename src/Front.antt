-- ===== src/Front.antt =====
-- The small tools: tools/specmem.c, tools/spec-cl.c, tools/spec-fwloader.c and tools/spec-vuart.c, on the card of speclib.c.
pub mod Accesses
mod Tests
use sbndaq_wr.Base.{
  ℕ, zero, suc, ◌+◌, ◌-◌, ◌%◌, ◌^◌, List, [], ◌∷◌, ◌++◌, Option, none, some, Bool, true, false, not,
  Outcome, done, fault, waiting, pure, stop, ltb, ◌>>=◌, ◌>>◌, ◌==◌, if◌then◌else◌,
}
use sbndaq_wr.Mmio.{Addr, bar0, gennum, read, write, Env, u32}
use sbndaq_wr.Spec.Loader.{L, LoadReturn, wrote, load_eio, spec_load_bitstream}
use sbndaq_wr.Speclib.{
  SpecPrivate, V, bar0_len, spec_open, spec_load_lm32, spec_vuart_init, spec_vuart_rx,
  spec_vuart_tx,
}

-- What `sscanf` makes of a number: nothing, a negative one, or one that is not.
pub data Scan : Type 0 where
  no_number : Scan
  minus plus : ℕ → Scan

-- What `getopt` returns.
pub data Flag : Type 0 where
  bus_flag devfn_flag base_flag : Scan → Flag
  gennum_flag keep_flag unknown_flag : Flag

-- The tools, by the options that they know.
pub data Tool : Type 0 where
  specmem spec_cl spec_fwloader spec_vuart : Tool

pub record Flags : Type 0 where
  pub bus : Option ℕ
  pub devfn : Option ℕ
  pub base : ℕ
  pub gennum_bar : Bool
  pub keep_term : Bool

-- A place, and a base, which is a `uint32_t`.
abbrev pub place_of : Scan → Option ℕ → Option ℕ
place_of no_number old = old
place_of (minus n) old = none
place_of (plus n) old = some n

abbrev pub base_of : Scan → ℕ → ℕ
base_of no_number old = old
base_of (minus n) old = (2 ^ 32 - n % 2 ^ 32) % 2 ^ 32
base_of (plus n) old = n % 2 ^ 32

abbrev pub knows : Tool → Flag → Bool
knows t (bus_flag v) = true
knows t (devfn_flag v) = true
knows spec_cl (base_flag v) = true
knows spec_vuart (base_flag v) = true
knows specmem gennum_flag = true
knows spec_vuart keep_flag = true
knows _ _ = false

abbrev pub store_flag : Flag → Flags → Flags
store_flag (bus_flag v) o = record o { bus = place_of v o.bus }
store_flag (devfn_flag v) o = record o { devfn = place_of v o.devfn }
store_flag (base_flag v) o = record o { base = base_of v o.base }
store_flag gennum_flag o = record o { gennum_bar = true }
store_flag keep_flag o = record o { keep_term = true }
store_flag unknown_flag o = o

-- The loop over the options: `none` is the exit with the help.
unfoldable pub parse_flags : Tool → List Flag → Flags → Option Flags
parse_flags t [] o = some o
parse_flags t (flag ∷ flags) o =
    if knows t flag then parse_flags t flags (store_flag flag o) else none

-- The initial values, for the base that the tool has.
abbrev pub initial : ℕ → Flags
initial base = record {
  bus = none;
  devfn = none;
  base = base;
  gennum_bar = false;
  keep_term = false;
}

-- What `spec_open` finds: whether there is memory, the names, and the areas that can be mapped.
pub record Machine : Type 0 where
  pub allocated : Bool
  pub names : List (Option (ℕ × ℕ))
  pub areas : ℕ → ℕ → Bool × Bool

-- How a tool ends: with 1 before it has opened a card, or on the card with an exit code.
abbrev pub Run : Type 0 → Type 0
Run A = Option (Outcome SpecPrivate A)

unfoldable pub with_card : {A : Type 0} → Machine → Flags → V A → Run A
with_card m o body = elim (spec_open m.allocated o.bus o.devfn m.names m.areas) [
  | none ↦ none
  | some card ↦ some (body card)
]

-- A program on the registers of the bridge; it is a null pointer if the area is not mapped.
unfoldable pub on_bar4 : {A : Type 0} → L A → V A
on_bar4 m s =
    if s.bar4_mapped
    then elim (m s.history) [
      | done a h ↦ done a (record s { history = h })
      | fault ↦ fault
      | waiting ↦ waiting
    ]
    else fault

unfoldable pub get_card : V SpecPrivate
get_card s = done s s

abbrev pub mem_addr : Bool → ℕ → Addr
mem_addr true off = gennum off
mem_addr false off = bar0 off

-- The length of each area as `spec_open` maps it.
abbrev pub bar_len : Bool → ℕ
bar_len true = 0x1000
bar_len false = bar0_len

-- `*ptr = value`.
unfoldable pub poke : Addr → ℕ → V (Unit {0})
poke a v s = done tt (record s { history = write a (u32 v) ∷ s.history })

module _ (e : Env) where
  -- `*ptr`.
  unfoldable pub peek : Addr → V ℕ
  peek a s = done (u32 (e.answer s.history a)) (record s { history = read a ∷ s.history })

  -- The access of specmem: the exit code, and the value that was read. Behind the end of the area it is undefined.
  unfoldable pub mem_access : Bool → ℕ → Option ℕ → V (ℕ × Option ℕ)
  unfolding get_card peek poke
  mem_access gennum_bar off value = do
    s ← get_card
    if not (if gennum_bar then s.bar4_mapped else s.bar0_mapped)
        then pure (1, none)
        else if ltb (off + 3) (bar_len gennum_bar)
        then elim value [
          | none ↦ peek (mem_addr gennum_bar off) >>= λ v. pure (0, some v)
          | some v ↦ poke (mem_addr gennum_bar off) v >> pure (0, none)
        ]
        else stop

  -- specmem with its flags, for one number or two that `strtol` has read to their end.
  unfoldable pub mem_run : Machine → Flags → ℕ → Option ℕ → Run (ℕ × Option ℕ)
  unfolding with_card mem_access
  mem_run m o off value =
      if not (off % 4 == 0) then none else with_card m o (mem_access o.gennum_bar off value)

  -- The arguments of specmem behind its options; `none` is no hexadecimal number.
  unfoldable pub mem_args : Machine → List (Option ℕ) → Flags → Run (ℕ × Option ℕ)
  unfolding mem_run
  mem_args m (some off ∷ []) o = mem_run m o (u32 off) none
  mem_args m (some off ∷ some v ∷ []) o = mem_run m o (u32 off) (some (u32 v))
  mem_args m _ o = none

  unfoldable pub specmem_main : Machine → List Flag → List (Option ℕ) → Run (ℕ × Option ℕ)
  unfolding parse_flags mem_args
  specmem_main m flags args = elim (parse_flags specmem flags (initial 0)) [
    | none ↦ none
    | some o ↦ mem_args m args o
  ]

  -- spec-cl, for the file that its argument names.
  unfoldable pub cl_main : ℕ → Machine → List Flag → List (Option (List ℕ × ℕ)) → Run ℕ
  unfolding parse_flags with_card
  cl_main fuel m flags args = elim (parse_flags spec_cl flags (initial 0x80000)) [
    | none ↦ none
    | some o ↦ elim args [
      | [] ↦ none
      | file ∷ rest ↦
          with_card m o (spec_load_lm32 e fuel file o.base >>= λ ok. pure (if ok then 0 else 1))
    ]
  ]

  -- spec-fwloader: a file that could not be read or loaded is an error.
  unfoldable pub fw_exit : Option LoadReturn → ℕ
  fw_exit none = 1
  fw_exit (some (wrote n)) = 0
  fw_exit (some load_eio) = 1

  unfoldable pub fw_main : ℕ → Machine → List Flag → List (Option (List ℕ × ℕ)) → Run ℕ
  unfolding parse_flags with_card on_bar4 fw_exit
  fw_main fuel m flags args = elim (parse_flags spec_fwloader flags (initial 0)) [
    | none ↦ none
    | some o ↦ elim args [
      | [] ↦ none
      | file ∷ rest ↦
          with_card m o (on_bar4 (spec_load_bitstream e fuel file) >>= λ rv. pure (fw_exit rv))
    ]
  ]

  -- The loop that prints what the card sends, with fuel.
  unfoldable pub drain_uart : ℕ → V (List ℕ)
  drain_uart zero = λ s. waiting
  drain_uart (suc fuel) = do
    bytes ← spec_vuart_rx e 1
    elim bytes [ [] ↦ pure [] | c ∷ rest ↦ (drain_uart fuel >>= λ more. pure (c ∷ more)) ]

-- What `select` and `read` say in a round of the terminal.
pub data Key : Type 0 where
  no_key lost : Key
  key : ℕ → Key

module _ (e : Env) where
  -- `transfer_byte` with the round around it: whether the loop ends.
  unfoldable pub transfer_key : ℕ → Key → V Bool
  transfer_key fuel no_key = pure false
  transfer_key fuel lost = pure true
  transfer_key fuel (key c) =
      if c == 1 then pure true else (spec_vuart_tx e fuel (c ∷ []) >> pure false)

  -- `term_main`: what it prints, for the keys that come; the settings of the terminal are left out.
  unfoldable pub term_main : ℕ → List Key → V (List ℕ)
  unfolding transfer_key drain_uart
  term_main fuel [] = λ s. waiting
  term_main fuel (k ∷ keys) = do
    leave ← transfer_key fuel k
    shown ← drain_uart e fuel
    let rest = term_main fuel keys in
        if leave then pure shown else (rest >>= λ more. pure (shown ++ more))

  -- spec-vuart.
  unfoldable pub vuart_main : ℕ → Machine → List Flag → List Key → Run ℕ
  unfolding parse_flags with_card term_main
  vuart_main fuel m flags keys = elim (parse_flags spec_vuart flags (initial 0x20500)) [
    | none ↦ none
    | some o ↦ with_card m o (spec_vuart_init o.base >> (term_main fuel keys >>= λ shown. pure 0))
  ]
