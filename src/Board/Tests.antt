-- ===== src/Board/Tests.antt =====
-- A concrete case of the result on the interrupts of the card.
use sbndaq_wr.Base.{
  ℕ, zero, suc, ◌^◌, [], ◌≡◌, refl, inl, none, some, true, false, arith, get_elem?, replicate,
}
use sbndaq_wr.Base.Triples.{Ensures}
use sbndaq_wr.Mmio.{Env, zero_time}
use sbndaq_wr.Dio.Device.{Driver}
use sbndaq_wr.Dio.Invariant.{IsDriver}
use sbndaq_wr.Dio.Ioctl.{fresh_channel}
use sbndaq_wr.Dio.Ioctl.Safety.{fresh-IsChannel}
use sbndaq_wr.Nic.State.{Pending, Wrn}
use sbndaq_wr.Nic.Queue.{IsQueued}
use sbndaq_wr.Board.{Board, wrn_handler}
use sbndaq_wr.Nic.Endpoint.{registered_ok}
use sbndaq_wr.Nic.Probe.Tests.{pdev, pdev-IsBlank}
use sbndaq_wr.Board.Started.{Handled, probe_and_interrupt, probe_and_interrupt-Triple}
use sbndaq_wr.Board.Safety.{IsReady, IsDone, wrn_handler-Triple}

-- All registers read 2: the vector is the mezzanine's, and no channel of it has an event.
abbrev card : Env
card = record { answer = λ h a. 2; set_normalized = λ s n. zero_time; timespec_add = λ a b. a }

abbrev idle : Pending
idle = record { skb = none; valid = 0; frame_id = 0; cycles = 0 }

abbrev wrn : Wrn
wrn = record {
  next_tx_head = 7;
  next_tx_tail = 6;
  next_rx = 3;
  skb_desc = replicate 8 idle;
  id = 2 ^ 16;
  stats = record {
    tx_errors = 0;
    tx_packets = 0;
    tx_bytes = 0;
    rx_packets = 0;
    rx_bytes = 0;
    rx_errors = 0;
  };
  freed = [];
  stamped = [];
  received = [];
  tasklet = false;
  history = [];
}

replicate_valid :
    (n i : ℕ) (q p : Pending) → q.valid ≡ 0 → get_elem? (replicate n q) i ≡ some p → p.valid ≡ 0
replicate_valid zero i q p good e = absurd (cc)
replicate_valid (suc n) zero q p good e = cc
replicate_valid (suc n) (suc i) q p good e = replicate_valid n i q p good e

wrn-IsQueued : IsQueued 7 6 wrn
wrn-IsQueued = record {
  valid = record {
    head_in = omega arith;
    tail_in = omega arith;
    rx_in = omega arith;
    table = refl;
    untagged = record { at = λ i p e. replicate_valid 8 i idle p refl e };
  };
  head_is = refl;
  tail_is = refl;
}

abbrev driver : Driver
driver = record {
  ch = replicate 5 fresh_channel;
  hw_lock = false;
  pulse_offsets = replicate 5 0;
  t_ini = 0;
  t_end = 0;
  rate_avg = 0;
  history = [];
}

driver-IsDriver : IsDriver false driver
driver-IsDriver = record {
  channels = refl;
  offsets = refl;
  each = (
    fresh-IsChannel,
    (fresh-IsChannel, (fresh-IsChannel, (fresh-IsChannel, (fresh-IsChannel, tt)))),
  );
  lock = refl;
}

abbrev board : Board
board = record { registered = true; txtsu_regs = true; wrn = wrn; dio = driver; history = [] }

board-IsReady : IsReady 7 5 board
board-IsReady = record {
  good = record { wrn = (6, wrn-IsQueued); dio = driver-IsDriver };
  clock = (omega arith, inl (omega arith));
}

wrn_handler-Triple_example :
    Ensures (Unit {0}) (λ _. IsDone 7) (wrn_handler card 8 4 true 5 6 board)
wrn_handler-Triple_example =
    (wrn_handler-Triple card 7 8 4 true 5 6 (omega arith) (omega arith)).at board board-IsReady

-- The card of these tests has no endpoint, and the other one has.
abbrev with_endpoint : Env
with_endpoint = record card { answer = λ h a. 0xcafebabe }

probe_and_interrupt-Triple_example :
    Ensures
      (Unit {0})
      Handled
      (probe_and_interrupt with_endpoint [] 8 4 true 5 6 registered_ok pdev)
probe_and_interrupt-Triple_example =
    probe_and_interrupt-Triple with_endpoint [] 8 4 true 5 6 registered_ok 0 pdev (omega arith)
      pdev-IsBlank ((λ e. omega (arith, e)), inl (λ e. omega (arith, e)))
