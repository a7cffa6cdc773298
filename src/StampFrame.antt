-- ===== src/StampFrame.antt =====
-- tools/stamp-frame.c: two machines exchange a frame, and one of them reports the times.
pub mod Exchange
mod Tests
use sbndaq_wr.Base.{
  ℕ, ◌+◌, ◌-◌, ◌*◌, ◌^◌, List, [], ◌∷◌, Option, none, some, Bool, true, false, not, Program, done,
  fault, waiting, pure, stop, ◌>>=◌, ◌>>◌, checked, get_elem?, set, ltb, ◌==◌, ◌&&◌, ◌||◌,
  if◌then◌else◌,
}
use sbndaq_wr.Mmio.{Timespec, zero_time, add64, sub64}

-- `ts_add` and `ts_sub`, with the time that is left in the first argument.
abbrev pub ts_add : Timespec → Timespec → Timespec
ts_add t1 t2 =
    let sec = add64 t1.tv_sec t2.tv_sec in
    let nsec = add64 t1.tv_nsec t2.tv_nsec in
    if ltb nsec (2 ^ 63) && ltb (1000 * 1000 * 1000) nsec
    then record { tv_sec = add64 sec 1; tv_nsec = sub64 nsec (1000 * 1000 * 1000) }
    else record { tv_sec = sec; tv_nsec = nsec }

abbrev pub ts_sub : Timespec → Timespec → Timespec
ts_sub t1 t2 =
    let sec = sub64 t1.tv_sec t2.tv_sec in
    let nsec = sub64 t1.tv_nsec t2.tv_nsec in
    if ltb nsec (2 ^ 63)
    then record { tv_sec = sec; tv_nsec = nsec }
    else record { tv_sec = sub64 sec 1; tv_nsec = add64 nsec (1000 * 1000 * 1000) }

-- `STAMP_PROTO`.
abbrev pub stamp_proto : ℕ
stamp_proto = 0xf001

-- `sizeof(struct frame)`: header, phase, four times and the filler.
abbrev pub stamp_frame_size : ℕ
stamp_frame_size = 14 + 2 + 64 + 64

-- `struct frame`, without the addresses and the filler.
pub record StampFrame : Type 0 where
  pub ether_type : ℕ
  pub phase : ℕ
  pub ts : List Timespec

-- What `send_and_stamp` comes to: no frame on the network, one without a stamp in time, or one with its hardware stamp.
pub data Sending : Type 0 where
  send_failed unstamped : Sending
  stamped : Timespec → Sending

-- What `recv_and_stamp` comes to: a number of bytes, the buffer after it, and the hardware stamp.
pub data Arrival : Type 0 where
  recv_failed : Arrival
  arrived : ℕ → StampFrame → Timespec → Arrival

-- A machine: the static frame, what it has sent, the latest first, and what its next calls come to.
pub record Node : Type 0 where
  pub f : StampFrame
  pub sent : List StampFrame
  pub sendings : List Sending
  pub inbox : List Arrival

abbrev pub X : Type 0 → Type 0
X A = Program Node A

unfoldable pub put_frame : StampFrame → X (Unit {0})
put_frame f n = done tt (record n { f = f })

unfoldable pub get_frame : X StampFrame
get_frame n = done n.f n

-- `send_and_stamp` with the frame.
unfoldable pub send_and_stamp : X Sending
send_and_stamp n = elim n.sendings [
  | [] ↦ waiting
  | s ∷ rest ↦ elim s [
    | send_failed ↦ done send_failed (record n { sendings = rest })
    | unstamped ↦ done unstamped (record n { sendings = rest; sent = n.f ∷ n.sent })
    | stamped t ↦ done (stamped t) (record n { sendings = rest; sent = n.f ∷ n.sent })
  ]
]

-- `stamp.hw[2]` after it: if the call failed the structure was never written.
unfoldable pub stamp_of : Sending → X Timespec
stamp_of send_failed = stop
stamp_of unstamped = pure zero_time
stamp_of (stamped t) = pure t

-- `f->ts[offset] = t`.
unfoldable pub store_stamp : ℕ → Timespec → X (Unit {0})
store_stamp offset t n = elim (get_elem? n.f.ts offset) [
  | none ↦ fault
  | some old ↦ done tt (record n { f = record n.f { ts = set n.f.ts offset t } })
]

-- `send_one_with_followup`.
unfoldable pub send_one_with_followup : ℕ → X (Unit {0})
unfolding send_and_stamp stamp_of store_stamp put_frame get_frame
send_one_with_followup offset = do
  f ← get_frame
  put_frame (record f { ether_type = stamp_proto; phase = 0 })
  s ← send_and_stamp
  t ← stamp_of s
  f ← get_frame
  put_frame (record f { phase = 1 })
  store_stamp offset t
  _ ← send_and_stamp
  pure tt

-- Whether the loop of `recv_one_with_followup` takes a frame for a good one.
abbrev pub is_good : ℕ → StampFrame → Bool
is_good len f = len == stamp_frame_size && (f.ether_type == stamp_proto && f.phase == 0)

-- The loop: the frame that is in the buffer, the stamp, and what is left to receive.
abbrev pub first_good : List Arrival → Option (StampFrame × Timespec × List Arrival)
first_good [] = none
first_good (recv_failed ∷ rest) = first_good rest
first_good (arrived len f t ∷ rest) = if is_good len f then some (f, t, rest) else first_good rest

-- `recv_one_with_followup`; the second frame is whatever comes next.
unfoldable pub recv_one_with_followup : ℕ → X (Unit {0})
unfolding store_stamp
recv_one_with_followup offset n = elim (first_good n.inbox) [
  | none ↦ waiting
  | some (f, t, rest) ↦ elim rest [
    | [] ↦ waiting
    | next ∷ more ↦ elim next [
      | recv_failed ↦ store_stamp offset t (record n { f = f; inbox = more })
      | arrived len g u ↦ store_stamp offset t (record n { f = g; inbox = more })
    ]
  ]
]

-- The loop of `main` as a listener, once.
unfoldable pub listen_once : X (Unit {0})
unfolding send_one_with_followup recv_one_with_followup
listen_once = recv_one_with_followup 1 >> send_one_with_followup 2

-- The rest of `main`: the exchange of the sender.
unfoldable pub send_mode : X (Unit {0})
unfolding send_one_with_followup recv_one_with_followup
send_mode = send_one_with_followup 0 >> recv_one_with_followup 3

-- What `report_times` computes.
pub record Report : Type 0 where
  pub rtt : Timespec
  pub fw : Timespec
  pub bw : Timespec

abbrev pub report_times : Timespec → Timespec → Timespec → Timespec → Report
report_times t1 t2 t3 t4 = record {
  rtt = ts_sub (ts_sub t4 t1) (ts_sub t3 t2);
  fw = ts_sub t2 t1;
  bw = ts_sub t4 t3;
}
