-- ===== src/StampFrame/Exchange.antt =====
-- The exchange of two machines gathers the four times, and the round trip is the sum of the two ways.
use mathlib.Core.Path.{subst}
use sbndaq_wr.Base.{
  dec_lt, lt→ltb, ge→ltb, ℕ, ◌+◌, ◌-◌, ◌*◌, ◌^◌, ◌<◌, ◌≤◌, ◌≡◌, refl, sym, ap, List, [], ◌∷◌, ◌++◌,
  none, some, false, arith, done, waiting,
}
use sbndaq_wr.Base.Triples.{bind-done}
use sbndaq_wr.Mmio.{Timespec, add64, sub64}
use sbndaq_wr.StampFrame.{
  ts_sub, stamp_proto, stamp_frame_size, StampFrame, stamped, unstamped, Arrival, recv_failed,
  arrived, Node, is_good, first_good, send_one_with_followup, recv_one_with_followup,
  send_and_stamp, stamp_of, store_stamp, put_frame, get_frame, listen_once, report_times,
}

-- A normalised time, and its nanoseconds.
pub record IsStamp (t : Timespec) : Type 0 where
  pub sec_fits : t.tv_sec < 2 ^ 62
  pub nsec_small : t.tv_nsec < 1000000000

abbrev pub nanos : Timespec → ℕ
nanos t = t.tv_sec * 1000000000 + t.tv_nsec

sub_below : (a b : ℕ) → a < 2 ^ 62 → b < 2 ^ 62 → b ≤ a → sub64 a b ≡ a - b
sub_below a b i j h = omega arith

sub_above : (a b : ℕ) → a < 2 ^ 62 → b < 2 ^ 62 → a < b → sub64 a b ≡ a + 2 ^ 64 - b
sub_above a b i j h = omega arith

-- The carry.
kept :
    (t1 t2 : Timespec)
    → IsStamp t1
    → IsStamp t2
    → t2.tv_nsec ≤ t1.tv_nsec
    → ts_sub t1 t2
      ≡ record { tv_sec = sub64 t1.tv_sec t2.tv_sec; tv_nsec = t1.tv_nsec - t2.tv_nsec }
kept t1 t2 i j h =
    rw
      (
        sub_below t1.tv_nsec t2.tv_nsec (omega (arith, i.nsec_small)) (omega (arith, j.nsec_small))
            h,
        lt→ltb (t1.tv_nsec - t2.tv_nsec) (2 ^ 63) (omega (arith, i.nsec_small)),
      )
      refl

borrowed :
    (t1 t2 : Timespec)
    → IsStamp t1
    → IsStamp t2
    → t1.tv_nsec < t2.tv_nsec
    → ts_sub t1 t2 ≡ record {
      tv_sec = sub64 (sub64 t1.tv_sec t2.tv_sec) 1;
      tv_nsec = add64 (t1.tv_nsec + 2 ^ 64 - t2.tv_nsec) 1000000000;
    }
borrowed t1 t2 i j h =
    rw
      (
        sub_above t1.tv_nsec t2.tv_nsec (omega (arith, i.nsec_small)) (omega (arith, j.nsec_small))
            h,
        ge→ltb (t1.tv_nsec + 2 ^ 64 - t2.tv_nsec) (2 ^ 63) (omega (arith, j.nsec_small)),
      )
      refl

-- The difference of two times in order is normalised again.
abbrev IsDifference : Timespec → Timespec → Timespec → Type 0
IsDifference t1 t2 d = IsStamp d × (nanos d + nanos t2 ≡ nanos t1)

ts_sub_lem :
    (t1 t2 : Timespec)
    → IsStamp t1
    → IsStamp t2
    → nanos t2 ≤ nanos t1
    → IsDifference t1 t2 (ts_sub t1 t2)
ts_sub_lem t1 t2 i j h = elim (dec_lt t1.tv_nsec t2.tv_nsec) [
  | yes less ↦
      let s : t2.tv_sec + 1 ≤ t1.tv_sec = omega (arith, h, less, i.nsec_small, j.nsec_small) in
      let e : sub64 (sub64 t1.tv_sec t2.tv_sec) 1 ≡ t1.tv_sec - t2.tv_sec - 1 =
        omega (arith, s, i.sec_fits, j.sec_fits) in
      let n : add64 (t1.tv_nsec + 2 ^ 64 - t2.tv_nsec) 1000000000
          ≡ t1.tv_nsec + 1000000000 - t2.tv_nsec =
        omega (arith, less, i.nsec_small, j.nsec_small) in
      subst (IsDifference t1 t2) (sym (borrowed t1 t2 i j less)) (
        record {
          sec_fits = omega (arith, e, i.sec_fits);
          nsec_small = omega (arith, n, less, j.nsec_small);
        },
        omega (arith, e, n, s, less, i.nsec_small, j.nsec_small),
      )
  | no more ↦
      let m : t2.tv_nsec ≤ t1.tv_nsec = omega (arith, more) in
      let s : t2.tv_sec ≤ t1.tv_sec = omega (arith, h, i.nsec_small, j.nsec_small) in
      let e : sub64 t1.tv_sec t2.tv_sec ≡ t1.tv_sec - t2.tv_sec =
        sub_below t1.tv_sec t2.tv_sec i.sec_fits j.sec_fits s in
      subst (IsDifference t1 t2) (sym (kept t1 t2 i j m)) (
        record {
          sec_fits = omega (arith, e, i.sec_fits);
          nsec_small = omega (arith, i.nsec_small);
        },
        omega (arith, e, s, m),
      )
]

-- For four normalised times in order, the round trip that is reported, which leaves out the time on the other machine, is
-- the sum of the forward and the backward time that are reported.
pub round_trip :
    (t1 t2 t3 t4 : Timespec)
    → IsStamp t1
    → IsStamp t2
    → IsStamp t3
    → IsStamp t4
    → nanos t1 ≤ nanos t2
    → nanos t2 ≤ nanos t3
    → nanos t3 ≤ nanos t4
    → nanos (report_times t1 t2 t3 t4).rtt
      ≡ nanos (report_times t1 t2 t3 t4).fw + nanos (report_times t1 t2 t3 t4).bw
round_trip t1 t2 t3 t4 i1 i2 i3 i4 h12 h23 h34 =
    let whole = ts_sub_lem t4 t1 i4 i1 (omega (arith, h12, h23, h34)) in
    let stay = ts_sub_lem t3 t2 i3 i2 h23 in
    let fw = ts_sub_lem t2 t1 i2 i1 h12 in
    let bw = ts_sub_lem t4 t3 i4 i3 h34 in
    let rtt =
      ts_sub_lem (ts_sub t4 t1) (ts_sub t3 t2) whole.0 stay.0
        (omega (arith, whole.1, stay.1, h12, h23, h34)) in
    sum_lem (nanos (ts_sub t4 t1)) (nanos (ts_sub t3 t2)) (nanos (ts_sub t2 t1))
      (nanos (ts_sub t4 t3)) (nanos (report_times t1 t2 t3 t4).rtt) (nanos t1) (nanos t2) (nanos t3)
      (nanos t4) whole.1 stay.1 fw.1 bw.1 rtt.1
  where
    sum_lem :
        (w s f b r n1 n2 n3 n4 : ℕ)
        → w + n1 ≡ n4
        → s + n2 ≡ n3
        → f + n1 ≡ n2
        → b + n3 ≡ n4
        → r + s ≡ w
        → r ≡ f + b
    sum_lem w s f b r n1 n2 n3 n4 hw hs hf hb hr = omega (arith, hw, hs, hf, hb, hr)

-- What the loop of a receiver passes over: errors, and frames that are not the first of a pair.
abbrev pub AllSkipped : List Arrival → Type 0
AllSkipped [] = Unit
AllSkipped (recv_failed ∷ arrivals) = AllSkipped arrivals
AllSkipped (arrived len f t ∷ arrivals) = (is_good len f ≡ false) × AllSkipped arrivals

first_good-skip :
    (noise rest : List Arrival) → AllSkipped noise → first_good (noise ++ rest) ≡ first_good rest
first_good-skip [] rest skip = refl
first_good-skip (recv_failed ∷ noise) rest skip = first_good-skip noise rest skip
first_good-skip (arrived len f t ∷ noise) rest (bad, skip) =
    rw bad (first_good-skip noise rest skip)

-- The network: two frames, the latest first, arrive in order behind some noise, the first one with a stamp.
abbrev pub carry : List Arrival → Timespec → Timespec → List StampFrame → List Arrival
carry noise t u (second ∷ first ∷ []) =
    noise ++ arrived stamp_frame_size first t ∷ arrived stamp_frame_size second u ∷ []
carry noise t u sent = noise

recv_lem :
    (offset : ℕ) (n : Node) (f g : StampFrame) (t u : Timespec) (len : ℕ)
    → first_good n.inbox ≡ some (f, t, arrived len g u ∷ [])
    → recv_one_with_followup offset n ≡ store_stamp offset t (record n { f = g; inbox = [] })
unfolding recv_one_with_followup
recv_lem offset n f g t u len e =
    ap
      (λ o. elim o [
        | none ↦ waiting
        | some (f, t, rest) ↦ elim rest [
          | [] ↦ waiting
          | next ∷ more ↦ elim next [
            | recv_failed ↦ store_stamp offset t (record n { f = f; inbox = more })
            | arrived len g u ↦ store_stamp offset t (record n { f = g; inbox = more })
          ]
        ]
      ])
      e

-- A machine with four times in its frame, of which the first sending is stamped.
abbrev pub machine : StampFrame → Timespec → List Arrival → Node
machine f t inbox = record {
  f = f;
  sent = [];
  sendings = stamped t ∷ unstamped ∷ [];
  inbox = inbox;
}

abbrev pub four : ℕ → ℕ → Timespec → Timespec → Timespec → Timespec → StampFrame
four ether_type phase x0 x1 x2 x3 = record {
  ether_type = ether_type;
  phase = phase;
  ts = x0 ∷ x1 ∷ x2 ∷ x3 ∷ [];
}

-- An exchange of two machines whose pairs of frames arrive in order behind noise, and whose first frames are stamped: the
-- sender sends, the listener receives and answers, and the sender receives. Each of these steps comes to its end, and the
-- sender's frame then holds the four times in order, whatever the two frames held before.
pub exchange :
    (t1 t2 t3 t4 u2 u4 x0 x1 x2 x3 : Timespec) (ether_type phase : ℕ) (g : StampFrame)
    (noise2 noise4 : List Arrival)
    → AllSkipped noise2
    → AllSkipped noise4
    → (a : Node) × (b : Node) × (c : Node) × (send_one_with_followup 0
          (machine (four ether_type phase x0 x1 x2 x3) t1 [])
        ≡ done tt a)
      × (listen_once (machine g t3 (carry noise2 t2 u2 a.sent)) ≡ done tt b)
      × (recv_one_with_followup 3 (record a { inbox = carry noise4 t4 u4 b.sent }) ≡ done tt c)
      × (c.f.ts ≡ t1 ∷ t2 ∷ t3 ∷ t4 ∷ [])
unfolding send_one_with_followup listen_once send_and_stamp stamp_of store_stamp put_frame get_frame
exchange t1 t2 t3 t4 u2 u4 x0 x1 x2 x3 ether_type phase g noise2 noise4 skip2 skip4 =
    let p0 = four stamp_proto 0 x0 x1 x2 x3 in
    let p1 = four stamp_proto 1 t1 x1 x2 x3 in
    let q0 = four stamp_proto 0 t1 t2 x2 x3 in
    let q1 = four stamp_proto 1 t1 t2 t3 x3 in
    let pair2 = arrived stamp_frame_size p0 t2 ∷ arrived stamp_frame_size p1 u2 ∷ [] in
    let pair4 = arrived stamp_frame_size q0 t4 ∷ arrived stamp_frame_size q1 u4 ∷ [] in
    let a : Node = record { f = p1; sent = p1 ∷ p0 ∷ []; sendings = []; inbox = [] } in
    (
      a,
      record { f = q1; sent = q1 ∷ q0 ∷ []; sendings = []; inbox = [] },
      record { f = four stamp_proto 1 t1 t2 t3 t4; sent = p1 ∷ p0 ∷ []; sendings = []; inbox = [] },
      refl,
      bind-done (recv_one_with_followup 1) (λ _. send_one_with_followup 2)
          {s = machine g t3 (noise2 ++ pair2)}
          (recv_lem 1 (machine g t3 (noise2 ++ pair2)) p0 p1 t2 u2 stamp_frame_size
            (first_good-skip noise2 pair2 skip2)),
      recv_lem 3 (record a { inbox = noise4 ++ pair4 }) q0 q1 t4 u4 stamp_frame_size
          (first_good-skip noise4 pair4 skip4),
      refl,
    )
