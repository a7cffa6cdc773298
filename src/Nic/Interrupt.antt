-- ===== src/Nic/Interrupt.antt =====
-- `wrn_tx_interrupt` and `wrn_interrupt`.
use sbndaq_wr.Base.{
  ℕ, zero, suc, none, some, true, get_elem?, set, done, waiting, pure, ◌>>=◌, ◌>>◌, checked, when,
  ◌==◌, has_bits, if◌then◌else◌,
}
use sbndaq_wr.Mmio.{Env}
use sbndaq_wr.Nic.State.{
  Skb, Pending, N, readl, writel, get, status_reg, eic_isr, eic_idr, tx1, next_desc,
}
use sbndaq_wr.Nic.Transmit.{tx_ready}
use sbndaq_wr.Nic.Stamps.{tx_tstamp_skb, release}

abbrev pub irq_rcomp : ℕ
irq_rcomp = 1

abbrev pub irq_tcomp : ℕ
irq_tcomp = 2

abbrev pub irq_txerr : ℕ
irq_txerr = 8

-- The frame is marked as waiting for its time stamp.
unfoldable pub mark_in_progress : ℕ → Skb → Pending → N (Unit {0})
mark_in_progress i skb p w = done tt (record w {
  skb_desc = set w.skb_desc i (record p { skb = some (record skb { in_progress = true }) });
})

unfoldable pub set_tail : ℕ → N (Unit {0})
set_tail i w = done tt (record w { next_tx_tail = i })

module _ (e : Env) where
  -- One sent frame: freed, or kept until its time stamp comes.
  unfoldable pub finish_frame : ℕ → Skb → Pending → N (Unit {0})
  unfolding mark_in_progress tx_tstamp_skb release set_tail next_desc
  finish_frame i skb p = do
    if skb.hw_tstamp then (mark_in_progress i skb p >> tx_tstamp_skb e i) else release i skb p
    set_tail (next_desc i)

  -- The loop of `wrn_tx_interrupt` from the tail up to the head, with fuel.
  unfoldable pub tx_interrupt : ℕ → N (Unit {0})
  unfolding finish_frame
  tx_interrupt zero = λ w. waiting
  tx_interrupt (suc fuel) = do
    w ← get
    if w.next_tx_tail == w.next_tx_head then pure tt else (do
      reg ← readl e (tx1 w.next_tx_tail)
      if has_bits reg tx_ready then pure tt else (do
        p ← checked (get_elem? w.skb_desc w.next_tx_tail)
        elim p.skb [
          | none ↦ pure tt
          | some skb ↦ finish_frame w.next_tx_tail skb p >> tx_interrupt fuel
        ]))

  unfoldable pub schedule : N (Unit {0})
  schedule w = done tt (record w { tasklet = true })

  -- `wrn_interrupt`: errors, sent frames, and the tasklet for received ones.
  unfoldable pub interrupt : ℕ → N (Unit {0})
  unfolding tx_interrupt schedule
  interrupt fuel = do
    irqs ← readl e eic_isr
    _ ← readl e status_reg
    when (has_bits irqs irq_txerr) (writel irq_txerr eic_isr)
    when (has_bits irqs irq_tcomp) (tx_interrupt fuel >> writel irq_tcomp eic_isr)
    when (has_bits irqs irq_rcomp)
        (writel irq_rcomp eic_isr >> writel irq_rcomp eic_idr >> schedule)
