-- ===== src/Nic/Stamps.antt =====
-- Time stamps of sent frames: timestamp.c, but for its ioctl, which is in Nic/Netdev.
pub mod Match
use sbndaq_wr.Base.{
  ℕ, zero, suc, ◌+◌, ◌-◌, ◌*◌, ◌/◌, ◌%◌, ◌^◌, List, [], ◌∷◌, Option, none, some, Bool, true, false,
  not, get_elem?, set, Program, done, fault, waiting, pure, ◌>>=◌, ◌>>◌, checked, ltb, ◌==◌,
  has_bits, if◌then◌else◌,
}
use sbndaq_wr.Mmio.{Addr, txtsu, read, write, Timespec, Env, u32}
use sbndaq_wr.Dio.Irq.{IrqReturn, irq_none, irq_handled}
use sbndaq_wr.Nic.State.{Skb, Pending, Wrn, N, readl, writel, get, put, ppsg_read_time, stamp_time}

abbrev pub ts_invalid : ℕ
ts_invalid = 2

-- `skb_tstamp_tx`: the stack is given the time of the frame.
unfoldable pub report_stamp : Skb → Timespec → N (Unit {0})
report_stamp skb ts w = done tt (record w { stamped = (skb.name, ts) ∷ w.stamped })

-- `dev_kfree_skb_irq`, and the descriptor without the frame.
unfoldable pub release : ℕ → Skb → Pending → N (Unit {0})
release desc skb p w = done tt (record w {
  freed = skb.name ∷ w.freed;
  skb_desc = set w.skb_desc desc (record p { skb = none });
})

module _ (e : Env) where
  -- `wrn_tx_tstamp_skb`: only if a time stamp is already there.
  unfoldable pub tx_tstamp_skb : ℕ → N (Unit {0})
  unfolding ppsg_read_time stamp_time report_stamp release
  tx_tstamp_skb desc = do
    w ← get
    d ← checked (get_elem? w.skb_desc desc)
    if d.valid == 0 then pure tt else (do
      time ← ppsg_read_time e
      skb ← checked d.skb
      if has_bits d.valid ts_invalid
          then pure tt
          else report_stamp skb (stamp_time time.0 time.1 d.cycles)
      release desc skb (record d { valid = 0 }))

  -- The first descriptor from `i` on that holds a frame of this number.
  unfoldable pub find_frame : List Pending → ℕ → ℕ → Option (ℕ × Skb × Pending)
  find_frame [] i frame_id = none
  find_frame (p ∷ ps) i frame_id =
      let later = find_frame ps (i + 1) frame_id in
      elim p.skb [
        | none ↦ later
        | some skb ↦ if p.frame_id == frame_id then some (i, skb, p) else later
      ]

  -- `record_tstamp`: the frame is stamped, unless the card doubts the time, and freed.
  unfoldable pub record_tstamp : ℕ → ℕ → ℕ → N (Unit {0})
  unfolding find_frame ppsg_read_time stamp_time report_stamp release
  record_tstamp tsval idreg r2 = do
    w ← get
    elim (find_frame w.skb_desc 0 (idreg / 2 ^ 16 % 2 ^ 16)) [
      | none ↦ pure tt
      | some (i, skb, p) ↦ ppsg_read_time e >>= λ time.
          (if has_bits r2 1
            then pure tt
            else report_stamp skb (stamp_time time.0 time.1 (tsval % 2 ^ 28)))
          >> release i skb p
    ]

  -- `wrn_tstamp_interrupt`; `mapped` tells whether `txtsu_regs` is set.
  unfoldable pub tstamp_interrupt : Bool → N IrqReturn
  unfolding record_tstamp
  tstamp_interrupt mapped = if not mapped then pure irq_none else (do
    r0 ← readl e (txtsu 0x10)
    r1 ← readl e (txtsu 0x14)
    r2 ← readl e (txtsu 0x18)
    record_tstamp r0 r1 r2
    writel 1 (txtsu 0x0c)
    pure irq_handled)

-- `wrn_tstamp_init`: the interrupt for stamps is enabled.
unfoldable pub tstamp_init : N (Unit {0})
tstamp_init = writel 1 (txtsu 0x04)
