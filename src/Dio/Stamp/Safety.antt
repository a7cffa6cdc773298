-- ===== src/Dio/Stamp/Safety.antt =====
-- A stamp command for existing channels keeps the driver's invariant, and faults nowhere.
use sbndaq_wr.Base.{
  ℕ, zero, suc, ◌+◌, ◌-◌, ◌<◌, ◌≤◌, ◌≡◌, ◌∙◌, inl, inr, ◌⊎◌, List, [], ◌∷◌, Bool, true, false,
  arith, length, ◌==◌, has_bits, checked, bit_and, take, ap,
}
use sbndaq_wr.Base.Triples.{
  Triple, Keeps, blocks, Triple-bind, Triple-pure, Keeps-pure, Triple-given, Triple-if,
  checked-Triple,
}
use sbndaq_wr.Mmio.{Timespec}
use sbndaq_wr.Dio.Device.{
  Channel, Driver, Cmd, Ret, ok, einval, eagain, erestartsys, f_mask, f_wait, n_stamp, M,
}
use sbndaq_wr.Dio.Ring.{push, drain, publish}
use sbndaq_wr.Dio.Ring.Queue.{contents, length-store_all}
use sbndaq_wr.Dio.Ring.Push.{pushed, push-eq-pushed, pushed-IsRing}
use sbndaq_wr.Dio.Ring.Drain.{IsDrained, drain_refines}
use sbndaq_wr.Dio.Stamp.{Wake, Pass, arrive, scan, pass, after_pass, sleep, cmd_stamp}
use sbndaq_wr.Dio.Invariant.{IsChannel, IsDriver, shl-Keeps, channel_at-Triple, store_channel-Keeps}
use sbndaq_wr.Dio.Pulse.Safety.{IsCmd, Replies}

-- Every stamp that arrives is for an existing channel.
abbrev pub AllExisting : List (ℕ × Timespec) → Type 0
AllExisting [] = Unit
AllExisting ((ch, ts) ∷ more) = (ch < 5) × AllExisting more

abbrev pub AllWakes : List Wake → Type 0
AllWakes [] = Unit
AllWakes (w ∷ wakes) = AllExisting w.arrivals × AllWakes wakes

-- The channels that a command is for are there.
abbrev pub IsTarget : Cmd → Type 0
IsTarget cmd = (has_bits cmd.flags f_mask ≡ true) ⊎ (cmd.channel < 5)

pushed-IsChannel : {c : Channel} (ts : Timespec) → IsChannel c → IsChannel (pushed c ts)
unfolding publish
pushed-IsChannel ts good = record { ring = pushed-IsRing ts good.ring; target_in = good.target_in }

drained-IsChannel :
    {left : ℕ} {c c' : Channel} {n n' : ℕ} {t t' : List Timespec}
    → IsChannel c
    → IsDrained left c c' n n' t t'
    → IsChannel c'
drained-IsChannel good d = record {
  ring = d.ring;
  target_in = ground (arith, d.others, good.target_in);
}

-- What a pass gives: the array as long as it was, and a channel number up to 5.
abbrev Passed : Bool → Pass → Driver → Type 0
Passed locked p d = ((length p.t ≡ n_stamp) × (p.ch ≤ 5)) × IsDriver locked d

-- What is known of the outcome of a drain.
abbrev Found : Channel × ℕ × List Timespec → Type 0
Found found = IsChannel found.0 × (length found.2 ≡ n_stamp)

module _ {W : Type 0} {locked : Bool} where
  arrive-Keeps :
      (more : List (ℕ × Timespec)) → AllExisting more → Keeps W (IsDriver locked) (arrive more)
  unfolding arrive
  arrive-Keeps [] a = Keeps-pure tt
  arrive-Keeps ((ch, ts) ∷ more) a = Triple-bind (channel_at-Triple ch a.0) λ c.
      Triple-given λ good.
        Triple-bind
          (checked-Triple IsChannel (push c ts) (pushed c ts) (push-eq-pushed ts good.ring)
            (pushed-IsChannel ts good))
          λ c'.
            Triple-given
              λ good'. Triple-bind (store_channel-Keeps ch c' good' a.0) λ _. arrive-Keeps more a.1

  drain-Found :
      (c : Channel) (t : List Timespec)
      → IsChannel c
      → length t ≡ n_stamp
      → Triple W
          (IsDriver locked)
          (checked (drain n_stamp c 0 t))
          (λ found d. Found found × IsDriver locked d)
  drain-Found c t good full =
      let (c', n', t', runs, d) = drain_refines n_stamp 0 t good.ring (omega (arith, full)) in
      checked-Triple Found (drain n_stamp c 0 t) (c', n', t') runs
        (
          drained-IsChannel good d,
          ap length d.stamps ∙ length-store_all (take n_stamp (contents c)) t 0 ∙ full,
        )

  scan-Triple :
      (rounds ch mask : ℕ) (t : List Timespec)
      → ch + rounds ≤ 5
      → length t ≡ n_stamp
      → Triple W (IsDriver locked) (scan rounds ch mask t) (Passed locked)
  unfolding scan
  scan-Triple zero ch mask t h full =
      Triple-pure (record { nstamp = 0; ch = ch; t = t }) (λ d v. ((full, omega arith), v))
  scan-Triple (suc rounds) ch mask t h full = Triple-bind (shl-Keeps 1 ch (omega arith)) λ bit.
      Triple-if (has_bits bit mask)
        (λ _. Triple-bind (channel_at-Triple ch (omega arith)) λ c. Triple-given λ good.
          Triple-bind (drain-Found c t good full) λ found. Triple-given λ kept.
            Triple-bind (store_channel-Keeps ch found.0 kept.0 (omega arith)) λ _.
              Triple-if (found.1 == 0)
                (λ _. scan-Triple rounds (ch + 1) mask found.2 (omega arith) kept.1)
                (λ _.
                  Triple-pure (record { nstamp = found.1; ch = ch; t = found.2 })
                    (λ d v. ((kept.1, omega arith), v))))
        (λ _. scan-Triple rounds (ch + 1) mask t (omega arith) full)

  pass-Triple :
      (cmd : Cmd) → IsCmd cmd → IsTarget cmd → Triple W (IsDriver locked) (pass cmd) (Passed locked)
  unfolding pass
  pass-Triple cmd full (inl masked) =
      rw masked (scan-Triple 5 0 cmd.channel cmd.t (omega arith) full)
  pass-Triple cmd full (inr small) =
      Triple-if (has_bits cmd.flags f_mask)
        (λ _. scan-Triple 5 0 cmd.channel cmd.t (omega arith) full)
        (λ _.
          Triple-bind (shl-Keeps 1 cmd.channel (omega arith))
            λ mask. scan-Triple 1 cmd.channel mask cmd.t (omega arith) full)

-- Sleeping may not end; all else returns.
abbrev Sleeper : (ℕ → Cmd → M (Ret × Cmd)) → Type 0
Sleeper k =
    (ch : ℕ) (cmd : Cmd)
    → ch < 5
    → IsCmd cmd
    → IsTarget cmd
    → Triple (Unit {0}) (IsDriver false) (k ch cmd) Replies

after_pass-Triple :
    (k : ℕ → Cmd → M (Ret × Cmd)) (cmd : Cmd) (p : Pass)
    → Sleeper k
    → IsTarget cmd
    → length p.t ≡ n_stamp
    → p.ch ≤ 5
    → Triple (Unit {0}) (IsDriver false) (after_pass k cmd p) Replies
unfolding after_pass
after_pass-Triple k cmd p ks target full small =
    Triple-if (p.nstamp == 0)
      (λ _.
        Triple-if (has_bits cmd.flags f_wait)
          (λ _. ks (p.ch - 1) (record cmd { nstamp = 0; t = p.t }) (omega arith) full target)
          (λ _. Triple-pure (eagain, record cmd { nstamp = 0; t = p.t }) (λ d v. (full, v))))
      (λ _.
        Triple-pure (ok, record cmd { channel = p.ch; nstamp = p.nstamp; t = p.t })
          (λ d v. (full, v)))

sleep-Sleeper : (wakes : List Wake) → AllWakes wakes → Sleeper (sleep wakes)
unfolding sleep
sleep-Sleeper [] a ch cmd small full target = record { at = λ d v. blocks tt }
sleep-Sleeper (w ∷ wakes) a ch cmd small full target =
    Triple-bind (arrive-Keeps w.arrivals a.0) λ _. Triple-bind (channel_at-Triple ch small) λ c.
      Triple-given λ good.
        Triple-if w.signal (λ _. Triple-pure (erestartsys, cmd) (λ d v. (full, v)))
          λ _.
            Triple-if (c.bhead == c.btail) (λ _. sleep-Sleeper wakes a.1 ch cmd small full target)
              λ _. Triple-bind (pass-Triple cmd full target) λ p. Triple-given λ passed.
                after_pass-Triple (sleep wakes) cmd p (sleep-Sleeper wakes a.1) target passed.0
                  passed.1

-- In a good state with the lock free, a stamp command for existing channels touches nothing out of
-- bounds whatever happens while it sleeps; if it returns, the state is good and the lock free.
pub cmd_stamp-Triple :
    (wakes : List Wake) (cmd : Cmd)
    → AllWakes wakes
    → IsCmd cmd
    → IsTarget cmd
    → Triple (Unit {0}) (IsDriver false) (cmd_stamp wakes cmd) Replies
unfolding cmd_stamp
cmd_stamp-Triple wakes cmd a full target =
    Triple-if (bit_and cmd.flags 1 == 1) (λ _. Triple-pure (einval, cmd) (λ d v. (full, v)))
      λ _. Triple-bind (pass-Triple cmd full target) λ p. Triple-given λ passed.
        after_pass-Triple (sleep wakes) cmd p (sleep-Sleeper wakes a) target passed.0 passed.1
