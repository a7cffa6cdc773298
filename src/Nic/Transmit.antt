-- ===== src/Nic/Transmit.antt =====
-- Transmission: `__wrn_alloc_tx_desc`, `__wrn_tx_desc` with `__wrn_copy_out`, and `wrn_start_xmit`.
use sbndaq_wr.Base.{
  ℕ, zero, suc, ◌+◌, ◌*◌, ◌%◌, ◌^◌, Option, none, some, Bool, bit_or, get_elem?, set, done, pure,
  stop, ◌>>=◌, ◌>>◌, checked, ltb, ◌==◌, has_bits, if◌then◌else◌,
}
use sbndaq_wr.Mmio.{databuf, Env, u32}
use sbndaq_wr.Nic.State.{
  Skb, N, readl, writel, get, put, tx1, tx2, tx3, mtu, ddata_offset, next_desc, ddir_tx,
  desc_offset, copy_rounds, mem_bytes,
}

abbrev pub tx_ready : ℕ
tx_ready = 1

abbrev pub tx_ts_e : ℕ
tx_ts_e = 4

abbrev pub tx_pad_e : ℕ
tx_pad_e = 8

pub data XmitReturn : Type 0 where
  sent emsgsize no_desc : XmitReturn

-- `get_unaligned_le32` of the memory from byte `i` on.
abbrev pub le32 : (ℕ → ℕ) → ℕ → ℕ
le32 memory i =
    memory i + memory (i + 1) * 2 ^ 8 + memory (i + 2) * 2 ^ 16 + memory (i + 3) * 2 ^ 24

-- `__wrn_copy_out` from word `i` on; the packet memory ends.
unfoldable pub copy_out : ℕ → ℕ → ℕ → (ℕ → ℕ) → N (Unit {0})
copy_out zero to i memory = pure tt
copy_out (suc rounds) to i memory = do
  if ltb (to + 4 * i + 3) mem_bytes
      then writel (le32 memory (4 * i)) (databuf (to + 4 * i))
      else stop
  copy_out rounds to (i + 1) memory

module _ (e : Env) where
  -- The descriptor at the head, if the card does not own it.
  unfoldable pub alloc_tx_desc : N (Option ℕ)
  unfolding next_desc
  alloc_tx_desc = do
    w ← get
    reg ← readl e (tx1 w.next_tx_head)
    if has_bits reg tx_ready then pure none else (do
      w' ← get
      put (record w' { next_tx_head = next_desc w.next_tx_head })
      pure (some w.next_tx_head))

  -- The data, and the three registers of the descriptor: the last one starts the transmission.
  unfoldable pub tx_desc : ℕ → Skb → ℕ → Bool → N (Unit {0})
  unfolding copy_out desc_offset
  tx_desc desc skb id do_stamp = do
    copy_out (copy_rounds (skb.len + ddata_offset)) (desc_offset ddir_tx desc) 0 skb.memory
    writel 1 (tx3 desc)
    writel (bit_or (desc_offset ddir_tx desc) (skb.len * 2 ^ 16)) (tx2 desc)
    writel
        (bit_or
          (bit_or (bit_or (if ltb skb.len 60 then tx_pad_e else 0) tx_ready)
            (if do_stamp then tx_ts_e else 0))
          (id * 2 ^ 16))
        (tx1 desc)

  -- The next frame number, and the counter after it: 0 is passed over.
  unfoldable pub next_id : ℕ → ℕ × ℕ
  next_id id =
      if id % 2 ^ 16 == 0 then (u32 (id + 1), u32 (id + 2)) else (id % 2 ^ 16, u32 (id + 1))

  -- `skb_desc[desc]` with the frame and its number.
  unfoldable pub save_skb : ℕ → Skb → ℕ → N (Unit {0})
  save_skb desc skb id = do
    w ← get
    old ← checked (get_elem? w.skb_desc desc)
    put (record w {
      skb_desc = set w.skb_desc desc (record old { skb = some skb; frame_id = id % 2 ^ 16 });
    })

  unfoldable pub count_sent : ℕ → N (Unit {0})
  count_sent len w = done tt (record w {
    stats = record w.stats {
      tx_packets = w.stats.tx_packets + 1;
      tx_bytes = w.stats.tx_bytes + len;
    };
  })

  -- `wrn_start_xmit`.
  unfoldable pub start_xmit : Skb → N XmitReturn
  unfolding alloc_tx_desc tx_desc next_id save_skb count_sent
  start_xmit skb =
      if ltb mtu skb.len
      then (λ w.
          done emsgsize (record w { stats = record w.stats { tx_errors = w.stats.tx_errors + 1 } }))
      else (do
        desc ← alloc_tx_desc
        w ← get
        put (record w { id = (next_id w.id).1 })
        elim desc [
          | none ↦ pure no_desc
          | some d ↦
              save_skb d skb (next_id w.id).0
              >> tx_desc d skb (next_id w.id).0 skb.hw_tstamp
              >> count_sent skb.len
              >> pure sent
        ])
