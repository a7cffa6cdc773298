-- ===== src/Board/Safety.antt =====
-- Any interrupt of the card leaves both drivers in a good state.
use sbndaq_wr.Base.{
  not, ℕ, ◌/◌, ◌%◌, ◌^◌, ◌<◌, ◌≤◌, ◌≡◌, refl, ◌∷◌, Option, none, some, Bool, true, false, Outcome,
  done, fault, waiting, pure, ◌>>=◌, ◌>>◌, ◌==◌, has_bits, if◌then◌else◌,
}
use sbndaq_wr.Base.Triples.{
  Ensures, Ensures-weaken, Triple, Keeps, Keeps-pure, returns, blocks, Triple-bind, Triple-pre,
  Triple-given, Triple-if, Triple-split, Triple-weak,
}
use sbndaq_wr.Mmio.{txtsu, read, write, History, Timespec, Env}
use sbndaq_wr.Dio.Device.{Driver}
use sbndaq_wr.Dio.Invariant.{IsDriver}
use sbndaq_wr.Dio.Irq.Safety.{ClockMoves, interrupt-Triple}
use sbndaq_wr.Dio.Irq.{IrqReturn, irq_none, irq_handled}
use sbndaq_wr.Nic.State.{Skb, Pending, Wrn, N, nr_desc, stamp_time, ppsg_read_time}
use sbndaq_wr.Nic.Stamps.{report_stamp, release, find_frame, record_tstamp, tstamp_interrupt}
use sbndaq_wr.Nic.Stamps.Match.{find_frame-entry}
use sbndaq_wr.Nic.Queue.{
  IsQueued, get-Triple, readl-IsQueued, writel-IsQueued, ppsg_read_time-IsQueued,
}
use sbndaq_wr.Nic.Progress.{release-IsQueued}
use sbndaq_wr.Nic.Completion.{HasHead, nic_interrupt-Triple}
use sbndaq_wr.Board.{
  Board, on_wrn, on_dio, has_txtsu, is_registered, board_readl, board_writel, irq_ack, handle,
  wrn_handler, eoir_reg, var_reg, int_status, vic_id_nic, vic_id_txtsu, vic_id_dio,
}

module _ {W : Type 0} {h t : ℕ} (e : Env) where
  report_stamp-Keeps : (skb : Skb) (ts : Timespec) → Keeps W (IsQueued h t) (report_stamp skb ts)
  unfolding report_stamp
  report_stamp-Keeps skb ts = record {
    at = λ w q. returns (record {
      valid = record {
        head_in = q.valid.head_in;
        tail_in = q.valid.tail_in;
        rx_in = q.valid.rx_in;
        table = q.valid.table;
        untagged = q.valid.untagged;
      };
      head_is = q.head_is;
      tail_is = q.tail_is;
    });
  }

  -- The stamp of a frame that was found.
  stamp_found :
      (tsval r2 : ℕ) (found : Option (ℕ × Skb × Pending))
      → ((i : ℕ) (skb : Skb) (p : Pending) → found ≡ some (i, skb, p) → p.valid ≡ 0)
      → Keeps W (IsQueued h t) (elim found [
        | none ↦ pure tt
        | some (i, skb, p) ↦ ppsg_read_time e >>= λ time.
            (if has_bits r2 1
              then pure tt
              else report_stamp skb (stamp_time time.0 time.1 (tsval % 2 ^ 28)))
            >> release i skb p
      ])
  stamp_found tsval r2 none valid = Keeps-pure tt
  stamp_found tsval r2 (some (i, skb, p)) valid = Triple-bind (ppsg_read_time-IsQueued e) λ time.
      Triple-bind (Triple-if (has_bits r2 1) (λ _. Keeps-pure tt) (λ _. report_stamp-Keeps skb _))
        λ _. release-IsQueued i skb p (valid i skb p refl)

  record_tstamp-Keeps :
      (tsval idreg r2 : ℕ) → Keeps W (IsQueued h t) (record_tstamp e tsval idreg r2)
  unfolding record_tstamp
  record_tstamp-Keeps tsval idreg r2 = Triple-bind (get-Triple (IsQueued h t)) λ w.
      Triple-given λ q.
        stamp_found tsval r2 (find_frame e w.skb_desc 0 (idreg / 2 ^ 16 % 2 ^ 16)) λ i skb p found.
          let (k, place, entry) =
            find_frame-entry e w.skb_desc 0 (idreg / 2 ^ 16 % 2 ^ 16) i skb p found in
          q.valid.untagged.at k p entry

  tstamp_interrupt-Keeps : (mapped : Bool) → Keeps W (IsQueued h t) (tstamp_interrupt e mapped)
  unfolding tstamp_interrupt
  tstamp_interrupt-Keeps mapped =
      Triple-if (not mapped) (λ _. Keeps-pure irq_none)
        λ _. Triple-bind (readl-IsQueued e (txtsu 0x10)) λ r0.
          Triple-bind (readl-IsQueued e (txtsu 0x14)) λ r1.
            Triple-bind (readl-IsQueued e (txtsu 0x18)) λ r2.
              Triple-bind (record_tstamp-Keeps r0 r1 r2)
                λ _. Triple-bind (writel-IsQueued 1 (txtsu 0x0c)) λ _. Keeps-pure irq_handled

-- The accesses that came before do not count.
IsQueued-history :
    {h t : ℕ} {w : Wrn} (k : History) → IsQueued h t w → IsQueued h t (record w { history = k })
IsQueued-history k q = record {
  valid = record {
    head_in = q.valid.head_in;
    tail_in = q.valid.tail_in;
    rx_in = q.valid.rx_in;
    table = q.valid.table;
    untagged = q.valid.untagged;
  };
  head_is = q.head_is;
  tail_is = q.tail_is;
}

IsDriver-history :
    {l : Bool} {d : Driver} (k : History) → IsDriver l d → IsDriver l (record d { history = k })
IsDriver-history k v = record {
  channels = v.channels;
  offsets = v.offsets;
  each = v.each;
  lock = v.lock;
}

-- The two drivers are in a good state; the queue of frames to send has its head where it was.
pub record IsBoard (h : ℕ) (b : Board) : Type 0 where
  pub wrn : HasHead h b.wrn
  pub dio : IsDriver false b.dio

-- As that, with the clock ahead of the last interrupt of the mezzanine.
pub record IsReady (h started : ℕ) (b : Board) : Type 0 where
  pub good : IsBoard h b
  pub clock : ClockMoves started b.dio

-- It is known whether there is a platform device.
record IsCalled (h started : ℕ) (there : Bool) (b : Board) : Type 0 where
  good : IsBoard h b
  clock : ClockMoves started b.dio
  same : b.registered ≡ there

-- After the handler of a driver.
record IsServed (h : ℕ) (there : Bool) (b : Board) : Type 0 where
  good : IsBoard h b
  same : b.registered ≡ there

-- The last accesses of a handler: the carrier's acknowledge and, if there is a device, the end of the interrupt.
abbrev pub IsAcknowledged : Bool → Board → Type 0
IsAcknowledged true b =
    (before : History) × (b.history ≡ write eoir_reg 0 ∷ read int_status ∷ before)
IsAcknowledged false b = (before : History) × (b.history ≡ read int_status ∷ before)

served :
    (h : ℕ) (there : Bool) (b : Board) (started : ℕ)
    → IsCalled h started there b
    → IsServed h there b
served h there b started c = record { good = c.good; same = c.same }

module _ {W : Type 0} (h : ℕ) (there : Bool) where
  has_txtsu-Keeps : Keeps W (IsServed h there) has_txtsu
  unfolding has_txtsu
  has_txtsu-Keeps = record { at = λ b s. returns s }

  lift_wrn :
      {A : Type 0} {o : Outcome Wrn A} (b : Board)
      → IsServed h there b
      → Ensures W (λ _. HasHead h) o
      → Ensures W
          (λ _. IsServed h there)
          (elim o [
            | done a w ↦ done a (record b { wrn = w; history = w.history })
            | fault ↦ fault
            | waiting ↦ waiting
          ])
  lift_wrn b s (returns q) =
      returns (record { good = record { wrn = q; dio = s.good.dio }; same = s.same })
  lift_wrn b s (blocks w) = blocks w

  on_wrn-Keeps :
      {A : Type 0} (m : N A) → Keeps W (HasHead h) m → Keeps W (IsServed h there) (on_wrn m)
  unfolding on_wrn
  on_wrn-Keeps m k = record {
    at = λ b s. lift_wrn b s (
        k.at (record b.wrn { history = b.history })
          (s.good.wrn.0, IsQueued-history b.history s.good.wrn.1));
  }

  lift_dio :
      {A : Type 0} {o : Outcome Driver A} (b : Board)
      → IsServed h there b
      → Ensures W (λ _. IsDriver false) o
      → Ensures W
          (λ _. IsServed h there)
          (elim o [
            | done a d ↦ done a (record b { dio = d; history = d.history })
            | fault ↦ fault
            | waiting ↦ waiting
          ])
  lift_dio b s (returns q) =
      returns (record { good = record { wrn = s.good.wrn; dio = q }; same = s.same })
  lift_dio b s (blocks w) = blocks w

module _ (e : Env) (h : ℕ) (h_in : h < nr_desc) (there : Bool) (started : ℕ) where
  tstamp-HasHead : {W : Type 0} (mapped : Bool) → Keeps W (HasHead h) (tstamp_interrupt e mapped)
  tstamp-HasHead mapped = record {
    at = λ w (t, q). Ensures-weaken (λ _ w' q'. (t, q')) ((tstamp_interrupt-Keeps e mapped).at w q);
  }

  handle-Triple :
      (fuel_nic fuel_dio : ℕ) (eeprom : Bool) (ended vector : ℕ)
      → nr_desc ≤ fuel_nic
      → Triple
          (Unit {0})
          (IsCalled h started there)
          (handle e fuel_nic fuel_dio eeprom started ended vector)
          (λ _. IsServed h there)
  unfolding handle on_dio
  handle-Triple fuel_nic fuel_dio eeprom ended vector enough =
      Triple-if (vector == vic_id_nic)
        (λ _.
          Triple-pre (λ b. served h there b started)
            (Triple-bind
              (on_wrn-Keeps h there _ (Triple-weak (nic_interrupt-Triple e fuel_nic h h_in enough)))
              (λ _. Keeps-pure irq_handled)))
        λ _.
          Triple-if (vector == vic_id_txtsu)
            (λ _.
              Triple-pre (λ b. served h there b started)
                (Triple-bind (has_txtsu-Keeps h there)
                  (λ mapped. on_wrn-Keeps h there _ (tstamp-HasHead mapped))))
            λ _.
              Triple-if (vector == vic_id_dio)
                (λ _. record {
                  at = λ b c. lift_dio h there b (served h there b started c) (
                      (interrupt-Triple e fuel_dio eeprom started ended).at
                        (record b.dio { history = b.history })
                        (c.clock, IsDriver-history b.history c.good.dio));
                })
                (λ _. Triple-pre (λ b. served h there b started) (Keeps-pure irq_handled))

  read_var-Keeps : {W : Type 0} → Keeps W (IsCalled h started there) (board_readl e var_reg)
  read_var-Keeps = record {
    at = λ b c. returns (record {
      good = record { wrn = c.good.wrn; dio = c.good.dio };
      clock = c.clock;
      same = c.same;
    });
  }

-- A good state, and the interrupt acknowledged.
pub record IsDone (h : ℕ) (b : Board) : Type 0 where
  pub good : IsBoard h b
  pub acknowledged : IsAcknowledged b.registered b

module _ {W : Type 0} (e : Env) (h : ℕ) where
  registered-Triple :
      (started : ℕ) → Triple W (IsReady h started) is_registered (IsCalled h started)
  unfolding is_registered
  registered-Triple started = record {
    at = λ b r. returns (record { good = r.good; clock = r.clock; same = refl });
  }

  finish_there :
      (ret : IrqReturn)
      → Triple W
          (IsServed h true)
          (irq_ack e >> board_writel 0 eoir_reg >> pure ret)
          (λ _. IsDone h)
  unfolding irq_ack
  finish_there ret = record {
    at = λ b s. returns (record {
      good = record { wrn = s.good.wrn; dio = s.good.dio };
      acknowledged = rw s.same (b.history, refl);
    });
  }

  finish_early :
      (started : ℕ)
      → Triple W (IsCalled h started false) (irq_ack e >> pure irq_handled) (λ _. IsDone h)
  unfolding irq_ack
  finish_early started = record {
    at = λ b s. returns (record {
      good = record { wrn = s.good.wrn; dio = s.good.dio };
      acknowledged = rw s.same (b.history, refl);
    });
  }

-- With both drivers in a good state, the spinlock free and at least eight rounds for the sent frames, an interrupt of
-- the card, whatever its vector is, faults nowhere, if the rate limiter's division is defined: the clock has moved since
-- the last interrupt of the mezzanine, and its load is not the least `int` over -1. If it returns, both drivers are in a good state with the spinlock free, the head of the frames to send is
-- where it was, and the last accesses to the card, after all those of the drivers, acknowledge the interrupt.
pub wrn_handler-Triple :
    (e : Env) (h fuel_nic fuel_dio : ℕ) (eeprom : Bool) (started ended : ℕ)
    → h < nr_desc
    → nr_desc ≤ fuel_nic
    → Triple
        (Unit {0})
        (IsReady h started)
        (wrn_handler e fuel_nic fuel_dio eeprom started ended)
        (λ _. IsDone h)
unfolding wrn_handler
wrn_handler-Triple e h fuel_nic fuel_dio eeprom started ended h_in enough =
    Triple-bind (registered-Triple e h started) λ there.
      Triple-split (IsCalled h started) there
        (Triple-bind (read_var-Keeps e h h_in true started) λ vector.
          Triple-bind
            (handle-Triple e h h_in true started fuel_nic fuel_dio eeprom ended vector enough)
            λ ret. finish_there e h ret)
        (finish_early e h started)
