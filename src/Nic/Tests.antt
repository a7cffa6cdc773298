-- ===== src/Nic/Tests.antt =====
-- Tests and concrete cases of the results on the network card driver.
use sbndaq_wr.Base.{
  ℕ, zero, suc, ◌/◌, ◌%◌, ◌^◌, ◌≡◌, refl, List, [], ◌∷◌, none, some, Bool, true, false, arith,
  length, get_elem?, ltb, replicate, inr, if◌then◌else◌, ◌==◌,
}
use sbndaq_wr.Base.Triples.{Ensures}
use sbndaq_wr.Mmio.{Env, u32, zero_time}
use sbndaq_wr.Dio.Ioctl.{fresh_channel}
use sbndaq_wr.Dio.Ioctl.Safety.{fresh-IsChannel}
use sbndaq_wr.Nic.Endpoint.{Endpoint}
use sbndaq_wr.Nic.Netdev.{Netdev, Request, wrn_ioctl}
use sbndaq_wr.Nic.Netdev.Safety.{IsNetdev, IsRequest, wrn_ioctl-Triple}
use sbndaq_wr.Nic.State.{Skb, Pending, Wrn}
use sbndaq_wr.Nic.Transmit.{start_xmit}
use sbndaq_wr.Nic.Stamps.{find_frame}
use sbndaq_wr.Nic.Stamps.Match.{IsFound, find_frame_sound}
use sbndaq_wr.Nic.Interrupt.{tx_interrupt}
use sbndaq_wr.Nic.Receive.{rx_descriptor, rx_interrupt}
use sbndaq_wr.Nic.Receive.Account.{
  IsAccounted, HasOnePort, InMemory, HasFrames, HasAccount, rx_descriptor-Triple,
  rx_interrupt-Triple,
}
use sbndaq_wr.Nic.Queue.{IsUntagged, IsWrn, IsQueued}
use sbndaq_wr.Nic.Xmit.{IsTransmitted, start_xmit-Triple}
use sbndaq_wr.Nic.Completion.{HasHead, tx_interrupt-Triple}

-- A card that received one frame with its time stamp, owns no descriptor, and reports sent and received frames.
abbrev card : Env
card = record {
  answer = λ h a. if ltb (length h) 6 then 0x4002 else 0x4003;
  set_normalized = λ s n. record { tv_sec = s; tv_nsec = n };
  timespec_add = λ a b. a;
}

abbrev frame : Skb
frame = record { name = 7; memory = λ i. i; len = 64; hw_tstamp = false; in_progress = false }

abbrev idle : Pending
idle = record { skb = none; valid = 0; frame_id = 0; cycles = 0 }

abbrev sending : Pending
sending = record { skb = some frame; valid = 0; frame_id = 9; cycles = 0 }

-- One frame was sent, from descriptor 6.
abbrev wrn : Wrn
wrn = record {
  next_tx_head = 7;
  next_tx_tail = 6;
  next_rx = 3;
  skb_desc = idle ∷ idle ∷ idle ∷ idle ∷ idle ∷ idle ∷ sending ∷ idle ∷ [];
  id = 2 ^ 16;
  stats = record {
    tx_errors = 0;
    tx_packets = 1;
    tx_bytes = 64;
    rx_packets = 0;
    rx_bytes = 0;
    rx_errors = 0;
  };
  freed = [];
  stamped = [];
  received = [];
  tasklet = false;
  history = [];
}

IsUntagged-nil : IsUntagged []
IsUntagged-nil = record { at = λ i p e. absurd (cc) }

cons_valid :
    (q : Pending) (ps : List Pending) (i : ℕ) (p : Pending)
    → q.valid ≡ 0
    → IsUntagged ps
    → get_elem? (q ∷ ps) i ≡ some p
    → p.valid ≡ 0
cons_valid q ps zero p good u e = cc
cons_valid q ps (suc i) p good u e = u.at i p e

IsUntagged-cons :
    {q : Pending} {ps : List Pending} → q.valid ≡ 0 → IsUntagged ps → IsUntagged (q ∷ ps)
IsUntagged-cons {q} {ps} good u = record { at = λ i p e. cons_valid q ps i p good u e }

wrn-IsUntagged : IsUntagged wrn.skb_desc
wrn-IsUntagged = IsUntagged-cons refl (
    IsUntagged-cons refl (
      IsUntagged-cons refl (
        IsUntagged-cons refl (
          IsUntagged-cons refl
            (IsUntagged-cons refl (IsUntagged-cons refl (IsUntagged-cons refl IsUntagged-nil)))))))

wrn-IsWrn : IsWrn wrn
wrn-IsWrn = record {
  head_in = omega arith;
  tail_in = omega arith;
  rx_in = omega arith;
  table = refl;
  untagged = wrn-IsUntagged;
}

wrn-IsQueued : IsQueued 7 6 wrn
wrn-IsQueued = record { valid = wrn-IsWrn; head_is = refl; tail_is = refl }

wrn-IsAccounted : IsAccounted 0 wrn
wrn-IsAccounted = record { total = refl; delivered = refl; position = omega arith }

-- This card has one port.
one_port : (b : Bool) → (u32 (if b then 0x4002 else 0x4003) / 2 ^ 8 % 2 ^ 6 == 0) ≡ true
one_port true = refl
one_port false = refl

card-HasOnePort : HasOnePort card
card-HasOnePort = λ h i. one_port (ltb (length h) 6)

in_memory : (b : Bool) → InMemory (u32 (if b then 0x4002 else 0x4003))
in_memory true = omega arith
in_memory false = omega arith

card-HasFrames : HasFrames card
card-HasFrames = λ h i. in_memory (ltb (length h) 6)

start_xmit-Triple_example : Ensures ⊥ (IsTransmitted card frame 7 6 wrn) (start_xmit card frame wrn)
start_xmit-Triple_example = start_xmit-Triple card frame wrn (omega arith) wrn-IsQueued

tx_interrupt-Triple_example : Ensures ⊥ (λ _. HasHead 7) (tx_interrupt card 8 wrn)
tx_interrupt-Triple_example =
    (tx_interrupt-Triple card 8 7 6 (omega arith) (omega arith) (omega arith)).at wrn wrn-IsQueued

rx_descriptor-Triple_example : Ensures ⊥ (λ _. IsAccounted 1) (rx_descriptor card true 3 wrn)
rx_descriptor-Triple_example =
    (rx_descriptor-Triple card 3 card-HasOnePort card-HasFrames).at wrn wrn-IsAccounted

rx_interrupt-Triple_example :
    Ensures (Unit {0}) (λ _. HasAccount) (rx_interrupt card 8 (λ _. true) wrn)
rx_interrupt-Triple_example =
    (rx_interrupt-Triple card 8 0 card-HasOnePort card-HasFrames).at wrn wrn-IsAccounted

find_frame_sound_example : IsFound card wrn.skb_desc 0 9 (find_frame card wrn.skb_desc 0 9)
find_frame_sound_example = find_frame_sound card wrn.skb_desc 0 9

-- The frame with the number 9 is found at its place.
frame_found : find_frame card wrn.skb_desc 0 9 ≡ some (6, frame, sending)
unfolding find_frame
frame_found = refl

abbrev ep : Endpoint
ep = record {
  up = true;
  stamping_tx = false;
  stamping_rx = false;
  queue_stopped = false;
  carrier = true;
  registered = true;
  dev_addr = 0 ∷ 1 ∷ 2 ∷ 3 ∷ 4 ∷ 5 ∷ [];
  lock = false;
  history = [];
}

abbrev netdev : Netdev
netdev = record {
  ep = ep;
  mezzanine = record {
    ch = replicate 5 fresh_channel;
    hw_lock = false;
    pulse_offsets = replicate 5 0;
    t_ini = 0;
    t_end = 0;
    rate_avg = 0;
    history = [];
  };
}

netdev-IsNetdev : IsNetdev netdev
netdev-IsNetdev = record {
  endpoint = record { free = refl; inside = tt };
  driver = record {
    channels = refl;
    offsets = refl;
    each = (
      fresh-IsChannel,
      (fresh-IsChannel, (fresh-IsChannel, (fresh-IsChannel, (fresh-IsChannel, tt)))),
    );
    lock = refl;
  };
}

-- The register of the address is read.
abbrev request : Request
request = record {
  number = 0x89f3;
  word = some 0x24;
  put_works = true;
  config = none;
  services = record { allocated = true; copied_in = true; copied_out = true };
  wakes = [];
  command = record {
    command = 0;
    channel = 0;
    value = 0;
    flags = 0;
    nstamp = 0;
    t = replicate 16 zero_time;
  };
  mii_result = 0;
}

request-IsRequest : IsRequest request
request-IsRequest = record { wakes = tt; size = refl; target = inr (omega arith) }

wrn_ioctl-Triple_example : Ensures (Unit {0}) (λ _. IsNetdev) (wrn_ioctl card request netdev)
wrn_ioctl-Triple_example =
    (wrn_ioctl-Triple card request request-IsRequest).at netdev netdev-IsNetdev
