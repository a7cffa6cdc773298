-- ===== src/Nic/Receive/Account.antt =====
-- Reception: every descriptor that the card filled is either delivered or counted as an error.
use sbndaq_wr.Base.{
  ℕ, zero, suc, ◌+◌, ◌*◌, ◌/◌, ◌%◌, ◌^◌, ◌<◌, ◌≤◌, ltb, ◌≡◌, none, some, true, arith, ◌==◌, ◌||◌,
  not, has_bits, if◌then◌else◌, length, [], ◌∷◌, bit_or,
}
use sbndaq_wr.Base.Triples.{
  Triple, Keeps, returns, blocks, Triple-bind, Triple-pure, Keeps-pure, Triple-given, Triple-if,
  Triple-weak,
}
use sbndaq_wr.Mmio.{Addr, Env, u32, History, databuf, ppsg}
use sbndaq_wr.Nic.State.{
  Wrn, Frame, readl, writel, nr_desc, next_desc, rx1, rx2, rx3, eic_ier, ppsg_read_time, stamp_time,
  Ddir, desc_offset, copy_rounds, ddata_offset, mem_bytes,
}
use sbndaq_wr.Nic.Receive.{
  rx_empty, rx_error, rx_got_ts, rx_ts_incorrect, clear_ahead, copy_in, give_back, deliver,
  count_error, receive_frame, rx_descriptor, rx_loop, rx_interrupt,
}
use sbndaq_wr.Nic.Queue.{get-Triple, put-Triple, next_desc_in, Triple-never}

-- `n` descriptors are accounted for, the packet counter counts the frames that were delivered, and the
-- position is a descriptor.
pub record IsAccounted (n : ℕ) (w : Wrn) : Type 0 where
  pub total : w.stats.rx_packets + w.stats.rx_errors ≡ n
  pub delivered : w.stats.rx_packets ≡ length w.received
  pub position : w.next_rx < nr_desc

-- The card has one endpoint: the port field of a receive descriptor is 0.
abbrev pub HasOnePort : Env → Type 0
HasOnePort e = (h : History) (i : ℕ) → (u32 (e.answer h (rx1 i)) / 2 ^ 8 % 2 ^ 6 == 0) ≡ true

-- The words of a frame, by the third word of its descriptor, are in the packet memory.
abbrev pub InMemory : ℕ → Type 0
InMemory r3 = r3 % 2 ^ 16 + 4 * copy_rounds (r3 / 2 ^ 16 % 2 ^ 16 + ddata_offset) ≤ mem_bytes

-- So it is for each descriptor that the card fills.
abbrev pub HasFrames : Env → Type 0
HasFrames e = (h : History) (i : ℕ) → InMemory (u32 (e.answer h (rx3 i)))

module _ {W : Type 0} {n : ℕ} where
  readl-IsAccounted : (e : Env) (a : Addr) → Keeps W (IsAccounted n) (readl e a)
  readl-IsAccounted e a = record {
    at =
        λ w q. returns (record { total = q.total; delivered = q.delivered; position = q.position });
  }

  writel-IsAccounted : (v : ℕ) (a : Addr) → Keeps W (IsAccounted n) (writel v a)
  writel-IsAccounted v a = record {
    at =
        λ w q. returns (record { total = q.total; delivered = q.delivered; position = q.position });
  }

  -- The first word of a descriptor, with its port.
  rx1-IsAccounted :
      (e : Env) (i : ℕ)
      → HasOnePort e
      → Triple W
          (IsAccounted n)
          (readl e (rx1 i))
          (λ r1 w. ((r1 / 2 ^ 8 % 2 ^ 6 == 0) ≡ true) × IsAccounted n w)
  rx1-IsAccounted e i one = record {
    at = λ w q. returns (
      one w.history i,
      record { total = q.total; delivered = q.delivered; position = q.position },
    );
  }

  -- The third word, with the place and the length of the frame.
  rx3-IsAccounted :
      (e : Env) (i : ℕ)
      → HasFrames e
      → Triple W (IsAccounted n) (readl e (rx3 i)) (λ r3 w. InMemory r3 × IsAccounted n w)
  rx3-IsAccounted e i inside = record {
    at = λ w q. returns (
      inside w.history i,
      record { total = q.total; delivered = q.delivered; position = q.position },
    );
  }

  ppsg_read_time-IsAccounted : (e : Env) → Keeps W (IsAccounted n) (ppsg_read_time e)
  unfolding ppsg_read_time
  ppsg_read_time-IsAccounted e = Triple-bind (readl-IsAccounted e (ppsg 0x08)) λ utc1.
      Triple-bind (readl-IsAccounted e (ppsg 0x04)) λ cnt.
        Triple-bind (readl-IsAccounted e (ppsg 0x08)) λ utc2.
          Triple-bind
            (Triple-if (utc2 == utc1) (λ _. Keeps-pure cnt) (λ _. readl-IsAccounted e (ppsg 0x04)))
            λ cnt'. Keeps-pure (cnt', utc2)

  copy_in-IsAccounted :
      (e : Env) (rounds from : ℕ)
      → from + 4 * rounds ≤ mem_bytes
      → Keeps W (IsAccounted n) (copy_in e rounds from)
  unfolding copy_in
  copy_in-IsAccounted e zero from inside = Keeps-pure []
  copy_in-IsAccounted e (suc rounds) from inside =
      Triple-bind
        (Triple-if (ltb (from + 3) mem_bytes) (λ _. readl-IsAccounted e (databuf from))
          (λ out. Triple-never (ground (arith, inside, out))))
        λ x.
          Triple-bind (copy_in-IsAccounted e rounds (from + 4) (omega arith))
            λ rest. Keeps-pure (x ∷ rest)

  give_back-IsAccounted : (e : Env) (desc : ℕ) → Keeps W (IsAccounted n) (give_back e desc)
  unfolding give_back
  give_back-IsAccounted e desc =
      Triple-bind
        (writel-IsAccounted (bit_or (2000 * 2 ^ 16) (desc_offset Ddir.ddir_rx desc)) (rx3 desc))
        λ _. writel-IsAccounted rx_empty (rx1 desc)

  deliver-Triple :
      (e : Env) (f : Frame) → Triple W (IsAccounted n) (deliver e f) (λ _. IsAccounted (n + 1))
  unfolding deliver
  deliver-Triple e f = record {
    at = λ w q. returns (record {
      total = omega (arith, q.total);
      delivered = omega (arith, q.delivered);
      position = q.position;
    });
  }

  count_error-Triple :
      (e : Env) → Triple W (IsAccounted n) (count_error e) (λ _. IsAccounted (n + 1))
  unfolding count_error
  count_error-Triple e = record {
    at = λ w q.
        returns (record {
          total = omega (arith, q.total);
          delivered = q.delivered;
          position = q.position;
        });
  }

  receive_frame-Triple :
      (e : Env) (desc r1 r2 r3 : ℕ)
      → (r1 / 2 ^ 8 % 2 ^ 6 == 0) ≡ true
      → InMemory r3
      → Triple W (IsAccounted n) (receive_frame e true desc r1 r2 r3) (λ _. IsAccounted (n + 1))
  unfolding receive_frame
  receive_frame-Triple e desc r1 r2 r3 one inside =
      Triple-if (r1 / 2 ^ 8 % 2 ^ 6 == 0)
        (λ _.
          Triple-bind
            (copy_in-IsAccounted e (copy_rounds (r3 / 2 ^ 16 % 2 ^ 16 + ddata_offset)) (r3 % 2 ^ 16)
              inside)
            λ words. Triple-bind (give_back-IsAccounted e desc) λ _.
              Triple-bind (ppsg_read_time-IsAccounted e) λ time. deliver-Triple e (record {
                words = words;
                len = r3 / 2 ^ 16 % 2 ^ 16;
                hwtstamp =
                    if has_bits r1 rx_ts_incorrect
                    then none
                    else some (
                        clear_ahead (r2 % 2 ^ 28) (r2 / 2 ^ 28 % 2 ^ 4)
                          (stamp_time time.0 time.1 (r2 % 2 ^ 28)));
              }))
        (λ other. Triple-never (ground (arith, one, other)))

-- A descriptor that the card filled makes one more delivered frame or one more error, whatever else
-- its words say, if the card has one endpoint, the place and length that it names are in the packet memory, and a
-- buffer is allocated. It is read without a fault.
pub rx_descriptor-Triple :
    {n : ℕ} (e : Env) (desc : ℕ)
    → HasOnePort e
    → HasFrames e
    → Triple ⊥ (IsAccounted n) (rx_descriptor e true desc) (λ _. IsAccounted (n + 1))
unfolding rx_descriptor
rx_descriptor-Triple e desc one frames = Triple-bind (rx1-IsAccounted e desc one) λ r1.
    Triple-given λ port. Triple-bind (readl-IsAccounted e (rx2 desc)) λ r2.
      Triple-bind (rx3-IsAccounted e desc frames) λ r3. Triple-given λ inside.
        Triple-if (has_bits r1 rx_error || not (has_bits r1 rx_got_ts))
          (λ _. Triple-bind (give_back-IsAccounted e desc) λ _. count_error-Triple e)
          (λ _. receive_frame-Triple e desc r1 r2 r3 port inside)

-- Some number of descriptors is accounted for.
abbrev pub HasAccount : Wrn → Type 0
HasAccount w = (n : ℕ) × IsAccounted n w

next_rx-IsAccounted :
    {n : ℕ} (w : Wrn) (i : ℕ) → IsAccounted n w → IsAccounted n (record w { next_rx = next_desc i })
next_rx-IsAccounted w i q = record {
  total = q.total;
  delivered = q.delivered;
  position = next_desc_in i;
}

rx_loop-Triple :
    (e : Env) (fuel n : ℕ)
    → HasOnePort e
    → HasFrames e
    → Triple (Unit {0}) (IsAccounted n) (rx_loop e fuel (λ _. true)) (λ _. HasAccount)
unfolding rx_loop
rx_loop-Triple e zero n one frames = record { at = λ w q. blocks tt }
rx_loop-Triple e (suc fuel) n one frames = Triple-bind (get-Triple (IsAccounted n)) λ w.
    Triple-given λ q. Triple-bind (readl-IsAccounted e (rx1 w.next_rx)) λ reg.
      Triple-if (has_bits reg rx_empty) (λ _. Triple-pure tt (λ s p. (n, p)))
        λ _. Triple-bind (Triple-weak (rx_descriptor-Triple e w.next_rx one frames)) λ _.
          Triple-bind (get-Triple (IsAccounted (n + 1))) λ w'. Triple-given λ q'.
            Triple-bind
              (put-Triple (IsAccounted (n + 1)) (record w' { next_rx = next_desc w.next_rx })
                (next_rx-IsAccounted w' w.next_rx q'))
              λ _. rx_loop-Triple e fuel (n + 1) one frames

writel-HasAccount : {W : Type 0} (v : ℕ) (a : Addr) → Keeps W HasAccount (writel v a)
writel-HasAccount v a = record {
  at = λ w q.
      returns
        (q.0, record { total = q.1.total; delivered = q.1.delivered; position = q.1.position });
}

-- The receive tasklet never faults, if the card has one endpoint, the descriptors name places and
-- lengths in the packet memory, and buffers are allocated. When it
-- returns, the packet counter still counts the delivered frames, and the position is a descriptor.
pub rx_interrupt-Triple :
    (e : Env) (fuel n : ℕ)
    → HasOnePort e
    → HasFrames e
    → Triple (Unit {0}) (IsAccounted n) (rx_interrupt e fuel (λ _. true)) (λ _. HasAccount)
unfolding rx_interrupt
rx_interrupt-Triple e fuel n one frames =
    Triple-bind (rx_loop-Triple e fuel n one frames) λ _. writel-HasAccount 1 eic_ier
