-- ===== src/Carrier/Pci/Tests.antt =====
-- Concrete cases of the results on spec-pci.c and spec-fmc.c.
use sbndaq_wr.Base.{◌≡◌, refl, [], ◌∷◌, none, some, true, false, arith, replicate}
use sbndaq_wr.Base.Triples.{Ensures}
use sbndaq_wr.Mmio.{Env, zero_time}
use sbndaq_wr.Carrier.{SpecDev, irq_init}
use sbndaq_wr.Carrier.Stage.{IsAt}
use sbndaq_wr.Carrier.Irq.{init_stage, irq_init-Triple}
use sbndaq_wr.Carrier.Device.{Kernel}
use sbndaq_wr.Carrier.Pci.{Bus, memory}
use sbndaq_wr.Carrier.Pci.Stages.{ready}

-- Every register reads the magic number of SDB.
abbrev card : Env
card = record {
  answer = λ h a. 0x5344422d;
  set_normalized = λ s n. zero_time;
  timespec_add = λ a b. a;
}

abbrev kernel : Kernel
kernel = record {
  use_msi = false;
  testing = true;
  requested = true;
  calls = 1;
  sdb_scanned = true;
  fmc_memory = true;
  eeprom_memory = true;
  nr_eeprom = 0;
  eeprom_file = none;
  registers = true;
}

abbrev bus : Bus
bus = record {
  enables = true;
  spec_memory = true;
  msix_enables = false;
  bars = memory true ∷ memory true ∷ memory true ∷ [];
  firmware = some (1 ∷ 2 ∷ 3 ∷ 4 ∷ [], 4);
  fuel = 4;
  clock = false ∷ true ∷ [];
}

abbrev pub absent : SpecDev
absent = record {
  enabled = false;
  allocated = false;
  drvdata = false;
  msix = false;
  remap = replicate 3 false;
  fmc_there = false;
  registered = false;
  golden = false;
  custom = false;
  irq_registered = false;
  irq_count = 0;
  handler = false;
  stray_frees = 0;
  lost_buffers = 0;
  fmc = record {
    eeprom = none;
    eeprom_len = 0;
    eeprom_addr = 0;
    fake_eeprom = false;
    no_mezzanine = false;
    eeprom_index = 0;
    history = [];
  };
}

irq_init-Triple_example :
    Ensures ⊥
      (λ r s. (r ≡ true) × IsAt (init_stage true true 1 (ready false 0 0 0)) s)
      (irq_init card false true true 1 (record absent {
        enabled = true;
        allocated = true;
        drvdata = true;
        remap = replicate 3 true;
        fmc_there = true;
        registered = true;
      }))
irq_init-Triple_example =
    (irq_init-Triple card (ready false 0 0 0) false true true 1 refl refl (omega arith)).at
      (record absent {
        enabled = true;
        allocated = true;
        drvdata = true;
        remap = replicate 3 true;
        fmc_there = true;
        registered = true;
      })
      (record { is = refl })
