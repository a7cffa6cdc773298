-- ===== src/Nic/Completion.antt =====
-- `wrn_tx_interrupt` and `wrn_interrupt`: eight rounds are enough, and only the tail moves.
use mathlib.Core.Path.{subst}
use sbndaq_wr.Base.{
  ℕ, zero, suc, ◌<◌, ◌≤◌, ◌≡◌, refl, sym, Option, none, some, Bool, true, false, arith, pure, ◌>>◌,
  ◌==◌, has_bits, when, Program,
}
use sbndaq_wr.Base.Triples.{
  Triple, Keeps, returns, Triple-bind, Triple-pure, Keeps-pure, Triple-pre, Triple-post,
  Triple-given, Triple-if,
}
use sbndaq_wr.Mmio.{Env}
use sbndaq_wr.Nic.State.{Skb, Pending, Wrn, nr_desc, next_desc, tx1, eic_isr, eic_idr, status_reg}
use sbndaq_wr.Nic.Transmit.{tx_ready}
use sbndaq_wr.Nic.Interrupt.{
  set_tail, finish_frame, tx_interrupt, schedule, interrupt, irq_rcomp, irq_tcomp, irq_txerr,
}
use sbndaq_wr.Nic.Queue.{
  IsQueued, get-Triple, next_desc_in, distance, distance-next, readl-IsQueued, writel-IsQueued,
}
use sbndaq_wr.Nic.Progress.{
  entry-IsQueued, release-IsQueued, mark_in_progress-IsQueued, tx_tstamp_skb-IsQueued,
}

-- Some tail, with the head where it was.
abbrev pub HasHead : ℕ → Wrn → Type 0
HasHead h w = (t : ℕ) × IsQueued h t w

module _ {W : Type 0} {h t : ℕ} (e : Env) where
  set_tail-Triple : Triple W (IsQueued h t) (set_tail (next_desc t)) (λ _. IsQueued h (next_desc t))
  unfolding set_tail
  set_tail-Triple = record {
    at = λ w q. returns (record {
      valid = record {
        head_in = q.valid.head_in;
        tail_in = next_desc_in t;
        rx_in = q.valid.rx_in;
        table = q.valid.table;
        untagged = q.valid.untagged;
      };
      head_is = q.head_is;
      tail_is = refl;
    });
  }

  pub finish_frame-Triple :
      (skb : Skb) (p : Pending)
      → t < nr_desc
      → p.valid ≡ 0
      → Triple W (IsQueued h t) (finish_frame e t skb p) (λ _. IsQueued h (next_desc t))
  unfolding finish_frame
  finish_frame-Triple skb p small good =
      Triple-bind
        (Triple-if skb.hw_tstamp
          (λ _.
            Triple-bind (mark_in_progress-IsQueued t skb p good)
              λ _. tx_tstamp_skb-IsQueued e t small)
          (λ _. release-IsQueued t skb p good))
        λ _. set_tail-Triple

HasHead-IsQueued : {h t : ℕ} {w : Wrn} → IsQueued h t w → HasHead h w
HasHead-IsQueued {t} q = (t, q)

IsQueued-tail : {h t : ℕ} {w : Wrn} → IsQueued h t w → IsQueued h w.next_tx_tail w
IsQueued-tail q = record { valid = q.valid; head_is = q.head_is; tail_is = refl }

-- One round, given the rounds after it.
entry-Triple :
    (e : Env) (fuel h : ℕ) (w : Wrn)
    → ((t : ℕ)
        → t < nr_desc
        → distance h t < fuel
        → Triple ⊥ (IsQueued h t) (tx_interrupt e fuel) (λ _. HasHead h))
    → w.next_tx_tail < nr_desc
    → distance h (next_desc w.next_tx_tail) < fuel
    → (p : Pending) → p.valid ≡ 0
    → (o : Option Skb)
    → Triple ⊥
        (IsQueued h w.next_tx_tail)
        (elim o [
          | none ↦ pure tt
          | some skb ↦ finish_frame e w.next_tx_tail skb p >> tx_interrupt e fuel
        ])
        (λ _. HasHead h)
entry-Triple e fuel h w rest small enough p good none = Triple-pure tt (λ s p. HasHead-IsQueued p)
entry-Triple e fuel h w rest small enough p good (some skb) =
    Triple-bind (finish_frame-Triple e skb p small good)
      λ _. rest (next_desc w.next_tx_tail) (next_desc_in w.next_tx_tail) enough

closer :
    (e : Env) (fuel h : ℕ) (w : Wrn) {t : ℕ}
    → IsQueued h t w
    → distance h t < suc fuel
    → (w.next_tx_tail == w.next_tx_head) ≡ false
    → distance h (next_desc w.next_tx_tail) < fuel
closer e fuel h w {t} q enough apart =
    let same : w.next_tx_tail ≡ t = q.tail_is in
    let head : w.next_tx_head ≡ h = q.head_is in
    let small : w.next_tx_tail < nr_desc = q.valid.tail_in in
    let inside : w.next_tx_head < nr_desc = q.valid.head_in in
    let ne : (w.next_tx_tail == h) ≡ false = rw (sym head) apart in
    let next = distance-next h w.next_tx_tail (omega arith) small ne in omega arith

-- The loop of the transmit interrupt returns if it has more rounds than there are sent frames, without
-- a fault, and with the head where it was.
pub tx_interrupt-Triple :
    (e : Env) (fuel h t : ℕ)
    → h < nr_desc
    → t < nr_desc
    → distance h t < fuel
    → Triple ⊥ (IsQueued h t) (tx_interrupt e fuel) (λ _. HasHead h)
unfolding tx_interrupt
tx_interrupt-Triple e zero h t hh ht enough = absurd (omega arith)
tx_interrupt-Triple e (suc fuel) h t hh ht enough = Triple-bind (get-Triple (IsQueued h t)) λ w.
    Triple-given λ q.
      Triple-pre (λ s p. subst (λ i. IsQueued h i s) (sym q.tail_is) p)
        (Triple-if (w.next_tx_tail == w.next_tx_head)
          (λ _. Triple-pure tt (λ s p. HasHead-IsQueued p))
          λ apart. Triple-bind (readl-IsQueued e (tx1 w.next_tx_tail)) λ reg.
            Triple-if (has_bits reg tx_ready) (λ _. Triple-pure tt (λ s p. HasHead-IsQueued p))
              λ _.
                Triple-bind (entry-IsQueued w.next_tx_tail q.valid.tail_in w (IsQueued-tail q)) λ p.
                  Triple-given λ good.
                    entry-Triple e fuel h w
                      (λ t' small more. tx_interrupt-Triple e fuel h t' hh small more)
                      q.valid.tail_in (closer e fuel h w q enough apart) p good p.skb)

schedule-HasHead : {W : Type 0} {h : ℕ} (e : Env) → Keeps W (HasHead h) (schedule e)
unfolding schedule
schedule-HasHead e = record {
  at = λ w q. returns (
    q.0,
    record {
      valid = record {
        head_in = q.1.valid.head_in;
        tail_in = q.1.valid.tail_in;
        rx_in = q.1.valid.rx_in;
        table = q.1.valid.table;
        untagged = q.1.valid.untagged;
      };
      head_is = q.1.head_is;
      tail_is = q.1.tail_is;
    },
  );
}

-- What keeps every position of the queue keeps that there is one.
HasHead-Keeps :
    {W A : Type 0} {h : ℕ} {m : Program Wrn A}
    → ((t : ℕ) → Keeps W (IsQueued h t) m)
    → Keeps W (HasHead h) m
HasHead-Keeps k = record {
  at = λ s p. (Triple-post (λ a s q. HasHead-IsQueued q) (k p.0)).at s p.1;
}

HasHead-when :
    {W : Type 0} {h : ℕ} (b : Bool) {m : Program Wrn (Unit {0})}
    → Keeps W (HasHead h) m
    → Keeps W (HasHead h) (when b m)
HasHead-when true k = k
HasHead-when false k = Keeps-pure tt

sent_frames :
    (e : Env) (fuel h : ℕ)
    → h < nr_desc
    → nr_desc ≤ fuel
    → Keeps ⊥ (HasHead h) (tx_interrupt e fuel)
sent_frames e fuel h hh enough = record {
  at = λ s p. (tx_interrupt-Triple e fuel h p.0 hh (tail_small p) (omega arith)).at s p.1;
}
  where
    tail_small : {s : Wrn} (p : HasHead h s) → p.0 < nr_desc
    tail_small p = omega (arith, p.1.valid.tail_in, p.1.tail_is)

-- The interrupt of the card is served with eight rounds for the sent frames: the handler returns, leaves
-- no array, and only the tail of the queue of sent frames moves.
pub nic_interrupt-Triple :
    (e : Env) (fuel h : ℕ) → h < nr_desc → nr_desc ≤ fuel → Keeps ⊥ (HasHead h) (interrupt e fuel)
unfolding interrupt
nic_interrupt-Triple e fuel h hh enough =
    Triple-bind (HasHead-Keeps λ t. readl-IsQueued e eic_isr) λ irqs.
      Triple-bind (HasHead-Keeps λ t. readl-IsQueued e status_reg) λ _.
        Triple-bind
          (HasHead-when (has_bits irqs irq_txerr)
            (HasHead-Keeps λ t. writel-IsQueued irq_txerr eic_isr))
          λ _.
            Triple-bind
              (HasHead-when (has_bits irqs irq_tcomp) (
                Triple-bind (sent_frames e fuel h hh enough)
                  λ _. HasHead-Keeps λ t. writel-IsQueued irq_tcomp eic_isr))
              λ _. HasHead-when (has_bits irqs irq_rcomp) (
                Triple-bind
                  (Triple-bind (HasHead-Keeps λ t. writel-IsQueued irq_rcomp eic_isr)
                    λ _. HasHead-Keeps λ t. writel-IsQueued irq_rcomp eic_idr)
                  λ _. schedule-HasHead e)
