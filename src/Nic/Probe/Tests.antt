-- ===== src/Nic/Probe/Tests.antt =====
-- Concrete cases of the results on the probing of the network card.
use sbndaq_wr.Base.{
  ℕ, refl, [], ◌∷◌, none, true, false, replicate, ◌≡◌, fault, zero, suc, some, get_elem?,
}
use sbndaq_wr.Base.Triples.{Ensures}
use sbndaq_wr.Mmio.{Env}
use sbndaq_wr.Dio.Device.{Driver}
use sbndaq_wr.Nic.State.{Pending, Wrn}
use sbndaq_wr.Nic.Endpoint.{Endpoint, registered_ok}
use sbndaq_wr.Nic.Probe.{Pdev, no_region, region, wrn_probe}
use sbndaq_wr.Nic.Probe.Ready.{IsBlank, Ended, wrn_probe-Triple}
use sbndaq_wr.Nic.Probe.Unmapped.{wrn_probe_unmapped}

-- A card whose endpoint is there.
abbrev card : Env
card = record {
  answer = λ h a. 0xcafebabe;
  set_normalized = λ s n. record { tv_sec = s; tv_nsec = n };
  timespec_add = λ a b. a;
}

abbrev idle : Pending
idle = record { skb = none; valid = 0; frame_id = 0; cycles = 0 }

abbrev wrn : Wrn
wrn = record {
  next_tx_head = 3;
  next_tx_tail = 2;
  next_rx = 5;
  skb_desc = replicate 8 idle;
  id = 0;
  stats = record {
    tx_errors = 0;
    tx_packets = 0;
    tx_bytes = 0;
    rx_packets = 0;
    rx_bytes = 0;
    rx_errors = 0;
  };
  freed = [];
  stamped = [];
  received = [];
  tasklet = false;
  history = [];
}

abbrev endpoint : Endpoint
endpoint = record {
  up = false;
  stamping_tx = false;
  stamping_rx = false;
  queue_stopped = false;
  carrier = false;
  registered = false;
  dev_addr = [];
  lock = false;
  history = [];
}

abbrev driver : Driver
driver = record {
  ch = [];
  hw_lock = true;
  pulse_offsets = 20 ∷ 21 ∷ 22 ∷ 23 ∷ 24 ∷ [];
  t_ini = 0;
  t_end = 0;
  rate_avg = 0;
  history = [];
}

abbrev pub pdev : Pdev
pdev = record {
  wrn = wrn;
  ep = endpoint;
  dio = driver;
  wrdio = true;
  bases = replicate 4 false;
  shortcuts = false;
  dev = false;
  netdevs = 0;
}

idle_untagged : (n i : ℕ) (p : Pending) → get_elem? (replicate n idle) i ≡ some p → p.valid ≡ 0
idle_untagged zero i p e = absurd (cc)
idle_untagged (suc n) zero p e = cc
idle_untagged (suc n) (suc i) p e = idle_untagged n i p e

pub pdev-IsBlank : IsBlank 0 pdev
pdev-IsBlank = record {
  bases = refl;
  shortcuts = refl;
  dev = refl;
  wrdio = refl;
  netdevs = refl;
  table = refl;
  untagged = record { at = idle_untagged 8 };
  offsets = refl;
}

-- The probing of a card with everything there, from a queue that another use has left.
wrn_probe-Triple_example :
    Ensures ⊥
      (Ended true 0)
      (wrn_probe card (replicate 4 (region true)) true registered_ok true pdev)
wrn_probe-Triple_example = (wrn_probe-Triple card registered_ok true 0).at pdev pdev-IsBlank

-- The third block cannot be mapped.
wrn_probe_unmapped_example :
    wrn_probe card (region true ∷ no_region ∷ region false ∷ []) true registered_ok true pdev
    ≡ fault
wrn_probe_unmapped_example =
    wrn_probe_unmapped card (region true ∷ no_region ∷ region false ∷ []) true registered_ok true
      pdev refl refl
