-- ===== src/StampFrame/Tests.antt =====
-- Tests and concrete cases of the results on tools/stamp-frame.c.
use sbndaq_wr.Base.{ℕ, ◌+◌, ◌^◌, ◌<◌, ◌≡◌, refl, List, [], ◌∷◌, done, arith}
use sbndaq_wr.Mmio.{Timespec, zero_time}
use sbndaq_wr.StampFrame.{
  ts_add, StampFrame, Arrival, Node, recv_failed, arrived, recv_one_with_followup,
  send_one_with_followup, listen_once, report_times,
}
use sbndaq_wr.StampFrame.Exchange.{IsStamp, nanos, carry, machine, four, round_trip, exchange}

abbrev at : ℕ → ℕ → Timespec
at s n = record { tv_sec = s; tv_nsec = n }

at-IsStamp : (s n : ℕ) → s < 2 ^ 62 → n < 1000000000 → IsStamp (at s n)
at-IsStamp s n i j = record { sec_fits = i; nsec_small = j }

-- The second of a pair that was lost, an error, and a frame of another protocol.
abbrev noise : List Arrival
noise =
    arrived 144 (four 0xf001 1 zero_time zero_time zero_time zero_time) zero_time
    ∷ recv_failed
    ∷ arrived 60 (four 0x0800 0 zero_time zero_time zero_time zero_time) zero_time
    ∷ []

abbrev empty_frame : StampFrame
empty_frame = four 0 0 zero_time zero_time zero_time zero_time

exchange_example :
    (a : Node) × (b : Node) × (c : Node) × (send_one_with_followup 0
        (machine empty_frame (at 10 999999000) [])
      ≡ done tt a)
    × (listen_once (machine empty_frame (at 11 300) (carry noise (at 11 200) zero_time a.sent))
        ≡ done tt b)
    × (recv_one_with_followup 3 (record a { inbox = carry noise (at 11 1500) zero_time b.sent })
        ≡ done tt c)
    × (c.f.ts ≡ at 10 999999000 ∷ at 11 200 ∷ at 11 300 ∷ at 11 1500 ∷ [])
exchange_example =
    exchange (at 10 999999000) (at 11 200) (at 11 300) (at 11 1500) zero_time zero_time zero_time
      zero_time zero_time zero_time 0 0 empty_frame noise noise (refl, (refl, tt))
      (refl, (refl, tt))

round_trip_example :
    nanos (report_times (at 10 999999000) (at 11 200) (at 11 300) (at 11 1500)).rtt
    ≡ nanos (report_times (at 10 999999000) (at 11 200) (at 11 300) (at 11 1500)).fw
      + nanos (report_times (at 10 999999000) (at 11 200) (at 11 300) (at 11 1500)).bw
round_trip_example =
    round_trip (at 10 999999000) (at 11 200) (at 11 300) (at 11 1500)
      (at-IsStamp 10 999999000 (omega arith) (omega arith))
      (at-IsStamp 11 200 (omega arith) (omega arith))
      (at-IsStamp 11 300 (omega arith) (omega arith))
      (at-IsStamp 11 1500 (omega arith) (omega arith)) (omega arith) (omega arith) (omega arith)

-- A sum of exactly a second of nanoseconds is left as it is.
ts_add_full : ts_add (at 1 500000000) (at 1 500000000) ≡ at 2 1000000000
ts_add_full = refl
