-- ===== src/Nic/Progress.antt =====
-- Transmission and its interrupt: no fault, an end, and the positions in the queue.
use sbndaq_wr.Base.{
  ℕ, zero, suc, ◌+◌, ◌*◌, ◌^◌, ◌<◌, ◌≤◌, ◌≡◌, ◌∙◌, Bool, arith, length-set, get_elem?, get_elem?_in,
  checked, ltb, ◌==◌, if◌then◌else◌, bit_or,
}
use sbndaq_wr.Base.Triples.{
  Triple, Keeps, returns, Triple-bind, Keeps-pure, Triple-given, Triple-if, checked-Triple,
}
use sbndaq_wr.Mmio.{Env, databuf}
use sbndaq_wr.Nic.State.{
  Skb, Pending, Wrn, get, nr_desc, tx1, tx2, tx3, Ddir, desc_offset, ddata_offset, copy_rounds,
  mem_bytes, mtu,
}
use sbndaq_wr.Nic.Transmit.{
  tx_ts_e, tx_pad_e, le32, tx_ready, copy_out, tx_desc, save_skb, count_sent,
}
use sbndaq_wr.Nic.Stamps.{tx_tstamp_skb, release}
use sbndaq_wr.Nic.Interrupt.{mark_in_progress}
use sbndaq_wr.Nic.Queue.{IsUntagged-set, IsQueued, Triple-never, writel-IsQueued, get-IsQueued}

module _ {W : Type 0} {h t : ℕ} where
  pub copy_out-IsQueued :
      (rounds to i : ℕ) (memory : ℕ → ℕ)
      → to + 4 * (i + rounds) ≤ mem_bytes
      → Keeps W (IsQueued h t) (copy_out rounds to i memory)
  unfolding copy_out
  copy_out-IsQueued zero to i memory inside = Keeps-pure tt
  copy_out-IsQueued (suc rounds) to i memory inside =
      Triple-bind
        (Triple-if (ltb (to + 4 * i + 3) mem_bytes)
          (λ _. writel-IsQueued (le32 memory (4 * i)) (databuf (to + 4 * i)))
          (λ out. Triple-never (ground (arith, inside, out))))
        λ _. copy_out-IsQueued rounds to (i + 1) memory (omega arith)

  pub tx_desc-IsQueued :
      (e : Env) (desc : ℕ) (skb : Skb) (id : ℕ) (do_stamp : Bool)
      → desc < nr_desc
      → skb.len ≤ mtu
      → Keeps W (IsQueued h t) (tx_desc e desc skb id do_stamp)
  unfolding tx_desc desc_offset
  tx_desc-IsQueued e desc skb id do_stamp small short =
      Triple-bind
        (copy_out-IsQueued (copy_rounds (skb.len + ddata_offset)) (desc_offset Ddir.ddir_tx desc) 0
          skb.memory (omega arith))
        λ _. Triple-bind (writel-IsQueued 1 (tx3 desc)) λ _.
          Triple-bind
            (writel-IsQueued (bit_or (desc_offset Ddir.ddir_tx desc) (skb.len * 2 ^ 16)) (tx2 desc))
            λ _.
              writel-IsQueued
                (bit_or
                  (bit_or (bit_or (if ltb skb.len 60 then tx_pad_e else 0) tx_ready)
                    (if do_stamp then tx_ts_e else 0))
                  (id * 2 ^ 16))
                (tx1 desc)

  pub count_sent-IsQueued : (e : Env) (len : ℕ) → Keeps W (IsQueued h t) (count_sent e len)
  unfolding count_sent
  count_sent-IsQueued e len = record {
    at = λ w q. returns (record {
      valid = record {
        head_in = q.valid.head_in;
        tail_in = q.valid.tail_in;
        rx_in = q.valid.rx_in;
        table = q.valid.table;
        untagged = q.valid.untagged;
      };
      head_is = q.head_is;
      tail_is = q.tail_is;
    });
  }

  -- `skb_desc[desc]` exists, and stays without a time stamp.
  pub save_skb-IsQueued :
      (e : Env) (desc : ℕ) (skb : Skb) (id : ℕ)
      → desc < nr_desc
      → Keeps W (IsQueued h t) (save_skb e desc skb id)
  unfolding save_skb get
  save_skb-IsQueued env desc skb id small = record {
    at = λ w q.
        let (p, e) = get_elem?_in w.skb_desc desc (omega (arith, q.valid.table)) in
        rw e (
          returns (record {
            valid = record {
              head_in = q.valid.head_in;
              tail_in = q.valid.tail_in;
              rx_in = q.valid.rx_in;
              table = length-set w.skb_desc desc _ ∙ q.valid.table;
              untagged = IsUntagged-set desc _ q.valid.untagged (q.valid.untagged.at desc p e);
            };
            head_is = q.head_is;
            tail_is = q.tail_is;
          }));
  }

  pub release-IsQueued :
      (desc : ℕ) (skb : Skb) (p : Pending)
      → p.valid ≡ 0
      → Keeps W (IsQueued h t) (release desc skb p)
  unfolding release
  release-IsQueued desc skb p good = record {
    at = λ w q. returns (record {
      valid = record {
        head_in = q.valid.head_in;
        tail_in = q.valid.tail_in;
        rx_in = q.valid.rx_in;
        table = length-set w.skb_desc desc _ ∙ q.valid.table;
        untagged = IsUntagged-set desc _ q.valid.untagged good;
      };
      head_is = q.head_is;
      tail_is = q.tail_is;
    });
  }

  pub mark_in_progress-IsQueued :
      (desc : ℕ) (skb : Skb) (p : Pending)
      → p.valid ≡ 0
      → Keeps W (IsQueued h t) (mark_in_progress desc skb p)
  unfolding mark_in_progress
  mark_in_progress-IsQueued desc skb p good = record {
    at = λ w q. returns (record {
      valid = record {
        head_in = q.valid.head_in;
        tail_in = q.valid.tail_in;
        rx_in = q.valid.rx_in;
        table = length-set w.skb_desc desc _ ∙ q.valid.table;
        untagged = IsUntagged-set desc _ q.valid.untagged good;
      };
      head_is = q.head_is;
      tail_is = q.tail_is;
    });
  }

  -- An entry of the table has no time stamp yet.
  pub entry-IsQueued :
      (desc : ℕ)
      → desc < nr_desc
      → (w : Wrn) → IsQueued h t w
      → Triple W
          (IsQueued h t)
          (checked (get_elem? w.skb_desc desc))
          (λ p s. (p.valid ≡ 0) × IsQueued h t s)
  entry-IsQueued desc small w q =
      let (p, e) = get_elem?_in w.skb_desc desc (omega (arith, q.valid.table)) in
      checked-Triple (λ (p : Pending). p.valid ≡ 0) (get_elem? w.skb_desc desc) p e
        (q.valid.untagged.at desc p e)

  -- So the call from the transmit interrupt never finds one.
  pub tx_tstamp_skb-IsQueued :
      (e : Env) (desc : ℕ) → desc < nr_desc → Keeps W (IsQueued h t) (tx_tstamp_skb e desc)
  unfolding tx_tstamp_skb
  tx_tstamp_skb-IsQueued e desc small = Triple-bind get-IsQueued λ w. Triple-given λ q.
      Triple-bind (entry-IsQueued desc small w q) λ p. Triple-given λ good.
        Triple-if (p.valid == 0) (λ _. Keeps-pure tt)
          (λ no. Triple-never (ground (arith, good, no)))
