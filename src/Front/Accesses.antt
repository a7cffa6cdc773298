-- ===== src/Front/Accesses.antt =====
-- What specmem does to the card.
use sbndaq_wr.Base.{
  ℕ, ◌%◌, ◌≡◌, ◌≢◌, ◌⊎◌, List, [], ◌∷◌, Option, none, some, Bool, true, false, if◌then◌else◌,
}
use sbndaq_wr.Base.Triples.{Ensures}
use sbndaq_wr.Mmio.{Addr, read, write, History, Env, u32}
use sbndaq_wr.Speclib.{SpecPrivate, spec_open}
use sbndaq_wr.Front.{Flags, Machine, Run, mem_addr}

-- Whether the area of the bridge, or the other one, is mapped.
abbrev pub has_area : Bool → SpecPrivate → Bool
has_area b s = if b then s.bar4_mapped else s.bar0_mapped

-- The one access: a read, whose value is shown, or the write of the value.
abbrev pub IsOne : Env → Addr → Option ℕ → ℕ × Option ℕ → History → Type 0
IsOne e a none r h = (r ≡ (0, some (u32 (e.answer [] a)))) × (h ≡ read a ∷ [])
IsOne e a (some v) r h = (r ≡ (0, none)) × (h ≡ write a (u32 v) ∷ [])

-- No access and the code 1 without the area; the one access and the code 0 with it.
abbrev pub IsAccess : Env → Bool → ℕ → Option ℕ → ℕ × Option ℕ → SpecPrivate → Type 0
IsAccess e b off value r s =
    ((has_area b s ≡ false) × (r ≡ (1, none)) × (s.history ≡ []))
    ⊎ ((has_area b s ≡ true) × IsOne e (mem_addr b off) value r s.history)

-- Without a card, because the address is no multiple of 4 or there is no card; or on a card.
abbrev pub Ends : Env → Machine → Flags → ℕ → Option ℕ → Run (ℕ × Option ℕ) → Type 0
Ends e m o off value none =
    (off % 4 ≢ 0) ⊎ (spec_open m.allocated o.bus o.devfn m.names m.areas ≡ none)
Ends e m o off value (some r) = (off % 4 ≡ 0) × Ensures ⊥ (IsAccess e o.gennum_bar off value) r

abbrev Fresh : SpecPrivate → Type 0
Fresh s = s.history ≡ []

opened :
    (c : Bool) (card s : SpecPrivate)
    → (if c then none else some card) ≡ some s
    → Fresh card
    → Fresh s
opened true card s e h = absurd (cc)
opened false card s e h = cc

-- The number that was read, and the value if there is one.
abbrev pub args_of : ℕ → Option ℕ → List (Option ℕ)
args_of off none = some off ∷ []
args_of off (some v) = some off ∷ some v ∷ []

abbrev pub word_of : Option ℕ → Option ℕ
word_of none = none
word_of (some v) = some (u32 v)
