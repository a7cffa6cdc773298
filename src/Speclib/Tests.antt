-- ===== src/Speclib/Tests.antt =====
-- Tests and concrete cases of the result on speclib.c.
use sbndaq_wr.Base.{ℕ, ◌≡◌, refl, List, [], ◌∷◌, none, some, true, arith, done}
use sbndaq_wr.Base.Triples.{Ensures}
use sbndaq_wr.Mmio.{Env, zero_time}
use sbndaq_wr.Speclib.{SpecPrivate, spec_load_lm32, spec_scan}
use sbndaq_wr.Speclib.File.{
  Disk, Held, IsWithin, IsLoaded, load_binary_file, load_binary_file-Triple, opened, read_file,
  allocated, fclose, free,
}
use sbndaq_wr.Speclib.Firmware.{IsAfter, IsLm32, file_words, spec_load_lm32-Triple}

-- All registers read 0x10203040: the reset is seen, and a program of the bytes 16, 32, 48, 64 is found.
abbrev card : Env
card = record {
  answer = λ h a. 0x10203040;
  set_normalized = λ s n. zero_time;
  timespec_add = λ a b. a;
}

abbrev spec : SpecPrivate
spec = record { bar0_mapped = true; bar4_mapped = true; vuart_base = 0; history = [] }

abbrev program : List ℕ
program = 16 ∷ 32 ∷ 48 ∷ 64 ∷ []

spec-IsAfter : IsAfter [] spec
spec-IsAfter = record { mapped = refl; accesses = refl }

spec_load_lm32-Triple_example :
    Ensures
      (Unit {0})
      (IsLm32 card 0x80000 (file_words 1 program) [])
      (spec_load_lm32 card 3 (some (program, 4)) 0x80000 spec)
spec_load_lm32-Triple_example =
    (spec_load_lm32-Triple card 3 0x80000 4 program [] (omega arith) (omega arith) (omega arith)).at
      spec spec-IsAfter

-- The first card is taken if nothing is asked for.
scan_any : spec_scan none none (some (2, 0) ∷ some (3, 1) ∷ []) ≡ some (2, 0)
unfolding spec_scan
scan_any = refl

-- With a bus alone, the other number is the one of the first card, although it is on another bus: the card on bus 3 is
-- not found.
scan_bus : spec_scan (some 3) none (some (2, 0) ∷ some (3, 1) ∷ []) ≡ none
unfolding spec_scan
scan_bus = refl

-- A file of four bytes, and one that is cut short while it is read.
abbrev disk : Disk
disk = record { opens = true; stat = some (true, 4); allocates = true; contents = program }

disk-IsWithin : IsWithin disk
disk-IsWithin regular size e = ground arith

abbrev idle : Held
idle = record { files = 3; buffers = 1 }

load_binary_file-Triple_example : Ensures ⊥ (IsLoaded 3 1) (load_binary_file disk idle)
load_binary_file-Triple_example =
    (load_binary_file-Triple 3 1 disk disk-IsWithin).at idle (refl, refl)

short_read : load_binary_file (record disk { contents = 16 ∷ [] }) idle ≡ done none idle
unfolding load_binary_file opened read_file allocated fclose free
short_read = refl
