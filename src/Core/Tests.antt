-- ===== src/Core/Tests.antt =====
-- Concrete cases of the results on wr-nic-core.c, wr-nic-eth.c and the operations of spec-fmc.c that they use.
use sbndaq_wr.Base.{
  ◌≡◌, refl, List, [], ◌∷◌, none, some, true, false, arith, replicate, done, fault, pure, ◌>>=◌,
  when, length,
}
use sbndaq_wr.Base.Triples.{Ensures, Keeps-pure}
use sbndaq_wr.Mmio.{Env, zero_time}
use sbndaq_wr.Carrier.{SpecDev}
use sbndaq_wr.Carrier.Stage.{stage, IsAt}
use sbndaq_wr.Carrier.Gpio.{place_by, map_pin, Pin, virtual, ours, foreign, gpio_config}
use sbndaq_wr.Carrier.Gpio.Mapped.{IsConfigured, gpio_config-Triple}
use sbndaq_wr.Carrier.Operations.{FmcDriver, empty_name, Files, reprogram, validate}
use sbndaq_wr.Carrier.Operations.Flags.{FlagsOf, reprogram-Triple}
use sbndaq_wr.Carrier.Pci.Tests.{absent}
use sbndaq_wr.Nic.Endpoint.{registered_ok}
use sbndaq_wr.Nic.Probe.Views.{view}
use sbndaq_wr.Nic.Probe.Tests.{pdev}
use sbndaq_wr.Core.{Card, Services, eth_init, eth_exit, resources_of}
use sbndaq_wr.Core.Stop.{IsOff, IsGone}
use sbndaq_wr.Core.Start.{init_exit}
use sbndaq_wr.Core.Fmc.{own_wrc, default_wrc, bus_ok, Setup, fmc_ok, fmc_probe, fmc_remove}
use sbndaq_wr.Core.Fmc.Held.{idle_parts, Held, fmc_probe-Triple}
use sbndaq_wr.Core.Fmc.Unready.{fmc_probe_unready}

-- Every register reads the magic number of the endpoint.
abbrev env : Env
env = record {
  answer = λ h a. 0xcafebabe;
  set_normalized = λ s n. zero_time;
  timespec_add = λ a b. a;
}

-- A carrier in use, without a handler.
abbrev spec : SpecDev
spec = record absent {
  enabled = true;
  allocated = true;
  drvdata = true;
  remap = replicate 3 true;
  fmc_there = true;
  registered = true;
  golden = true;
}

abbrev card : Card
card = record {
  spec = spec;
  pdev = pdev;
  mezzanine_data = false;
  vic_base = false;
  bound = false;
  drvdata = false;
  chip = false;
  held = 3;
  double_frees = 0;
}

abbrev services : Services
services = record {
  use_msi = false;
  requested = true;
  memory = replicate 4 true;
  cores = replicate 4 (some true);
  vic = true;
  wrdio = true;
  driver = true;
  netdev = true;
  registered = registered_ok;
  mezzanine = true;
}

-- The program of the processor is loaded, or the RAM is not there.
abbrev setup : Setup
setup = record {
  valid = true;
  driver_memory = true;
  reprogram = pure bus_ok;
  ram = some (0x1000, 16);
  syscon = some 0x2000;
  wrc = default_wrc;
  wrc_files = λ n. some (1 ∷ 2 ∷ 3 ∷ 4 ∷ [], 4);
  polls = 2;
  late = false;
  chip_memory = true;
  chip_added = true;
}

abbrev no_ram : Setup
no_ram = record setup { ram = none; wrc = own_wrc 5 }

card-IsOff : IsOff (stage spec) (idle_parts false false 3) 0 card
card-IsOff = record {
  seen = view pdev;
  netdevs = refl;
  card = record { spec_at = record { is = refl }; pdev_at = record { is = refl }; parts_at = refl };
}

init_exit_example :
    Ensures ⊥
      (λ _. IsGone (stage spec) (idle_parts false false 3) 0)
      ((eth_init env services >>= λ ok. when ok eth_exit) card)
unfolding resources_of
init_exit_example =
    (init_exit env services (stage spec) refl (idle_parts false false 3) 0 refl refl refl refl
        refl).at
      card card-IsOff

fmc_probe-Triple_example : Ensures ⊥ (Held (stage spec) 3 0) (fmc_probe env services setup card)
unfolding resources_of
fmc_probe-Triple_example =
    (fmc_probe-Triple env services setup (stage spec) refl refl 3 0 refl refl refl refl refl
        (λ n. omega arith) (Keeps-pure bus_ok)).at
      card (record { has_data = false; is = card-IsOff })

fmc_probe_unready_example :
    (fmc_probe env services no_ram card
      ≡ done fmc_ok (record card { drvdata = true; chip = false; spec = spec }))
    × ((fmc_probe env services no_ram >>= λ _. fmc_remove) card ≡ fault)
fmc_probe_unready_example =
    fmc_probe_unready env services no_ram refl card spec refl refl refl refl refl

-- An interrupt pin of the mezzanine, a raw one, and one of another carrier.
abbrev pins : List Pin
pins =
    record { owner = virtual; gpio = 0x1001; raw = 0; mode = 1; irqmode = 1 }
    ∷ record { owner = ours; gpio = 10; raw = 0; mode = 2; irqmode = 0 }
    ∷ record { owner = foreign; gpio = 40; raw = 0; mode = 0; irqmode = 0 }
    ∷ []

gpio_config-Triple_example :
    Ensures ⊥
      (λ r s. IsConfigured (length pins) r × IsAt (stage spec) s)
      (gpio_config env pins spec)
unfolding place_by map_pin
gpio_config-Triple_example =
    (gpio_config-Triple env (stage spec) refl pins (omega arith, (omega arith, (tt, tt)))).at spec
      (record { is = refl })

-- The driver's own file for the card with number 9, which is the second one that it knows.
abbrev driver : FmcDriver
driver = record { busids = 4 ∷ 9 ∷ []; gateware = λ i. some 7 }

abbrev files : Files
files = record {
  firmware = λ name. some (1 ∷ 2 ∷ 3 ∷ 4 ∷ [], 4);
  fuel = 4;
  clock = false ∷ true ∷ [];
}

reprogram-Triple_example :
    Ensures
      (Unit {0})
      (FlagsOf true false (some (some 7)))
      (reprogram env files driver 9 empty_name spec)
unfolding validate
reprogram-Triple_example =
    (reprogram-Triple env files true false driver 9 empty_name (λ name. omega arith) tt).at spec
      (record { mapped = refl; golden_is = refl; custom_is = refl })
