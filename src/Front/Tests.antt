-- ===== src/Front/Tests.antt =====
-- A concrete case of the result on specmem.
use sbndaq_wr.Base.{[], ◌∷◌, some, true, false}
use sbndaq_wr.Mmio.{Env, zero_time}
use sbndaq_wr.Front.{Flags, initial, Machine}

abbrev card : Env
card = record { answer = λ h a. 7; set_normalized = λ s n. zero_time; timespec_add = λ a b. a }

abbrev machine : Machine
machine = record {
  allocated = true;
  names = some (3, 0) ∷ some (2, 0) ∷ [];
  areas = λ b d. (false, true);
}

abbrev flags : Flags
flags = record (initial 0) { bus = some 2; gennum_bar = true }
