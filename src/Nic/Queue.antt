-- ===== src/Nic/Queue.antt =====
-- The queue of descriptors to send: what every operation of nic-core.c keeps, and what it moves.
use sbndaq_wr.Base.{
  Program, ℕ, zero, suc, ◌+◌, ◌-◌, ◌%◌, ◌<◌, ◌≡◌, refl, List, [], ◌∷◌, some, Bool, true, false,
  arith, length, get_elem?, set, ◌==◌, when,
}
use sbndaq_wr.Base.Triples.{Triple, Keeps, returns, Triple-bind, Keeps-pure, Triple-if}
use sbndaq_wr.Mmio.{Addr, ppsg, Env}
use sbndaq_wr.Nic.State.{Pending, Wrn, readl, writel, get, put, nr_desc, next_desc, ppsg_read_time}

-- No entry has a time stamp of its own: `valid` is never set.
pub record IsUntagged (ps : List Pending) : Type 0 where
  pub at : (i : ℕ) (p : Pending) → get_elem? ps i ≡ some p → p.valid ≡ 0

untagged-set :
    (ps : List Pending) (i j : ℕ) (v p : Pending)
    → ((k : ℕ) (q : Pending) → get_elem? ps k ≡ some q → q.valid ≡ 0)
    → v.valid ≡ 0
    → get_elem? (set ps i v) j ≡ some p
    → p.valid ≡ 0
untagged-set [] i j v p all good e = absurd (cc)
untagged-set (x ∷ ps) zero zero v p all good e = cc
untagged-set (x ∷ ps) zero (suc j) v p all good e = all (suc j) p e
untagged-set (x ∷ ps) (suc i) zero v p all good e = all 0 p e
untagged-set (x ∷ ps) (suc i) (suc j) v p all good e =
    untagged-set ps i j v p (λ k q. all (suc k) q) good e

pub IsUntagged-set :
    {ps : List Pending} (i : ℕ) (v : Pending)
    → IsUntagged ps
    → v.valid ≡ 0
    → IsUntagged (set ps i v)
IsUntagged-set {ps} i v u good = record {
  at = λ j p e. untagged-set ps i j v p (λ k q. u.at k q) good e;
}

-- The three positions are descriptors, and each descriptor has its entry.
pub record IsWrn (w : Wrn) : Type 0 where
  pub head_in : w.next_tx_head < nr_desc
  pub tail_in : w.next_tx_tail < nr_desc
  pub rx_in : w.next_rx < nr_desc
  pub table : length w.skb_desc ≡ nr_desc
  pub untagged : IsUntagged w.skb_desc

-- A driver with the head and the tail at given places.
pub record IsQueued (h t : ℕ) (w : Wrn) : Type 0 where
  pub valid : IsWrn w
  pub head_is : w.next_tx_head ≡ h
  pub tail_is : w.next_tx_tail ≡ t

pub IsWrn-IsQueued : {w : Wrn} → IsWrn w → IsQueued w.next_tx_head w.next_tx_tail w
IsWrn-IsQueued v = record { valid = v; head_is = refl; tail_is = refl }

pub next_desc_in : (i : ℕ) → next_desc i < nr_desc
unfolding next_desc
next_desc_in i = omega arith

-- How many sent frames `wrn_tx_interrupt` has before it.
abbrev pub distance : ℕ → ℕ → ℕ
distance h t = (h + nr_desc - t) % nr_desc

pub distance-next :
    (h t : ℕ)
    → h < nr_desc
    → t < nr_desc
    → (t == h) ≡ false
    → distance h (next_desc t) + 1 ≡ distance h t
unfolding next_desc
distance-next h t hh ht ne = ground arith

module _ {W : Type 0} {h t : ℕ} where
  pub readl-IsQueued : (e : Env) (a : Addr) → Keeps W (IsQueued h t) (readl e a)
  readl-IsQueued e a = record {
    at = λ w q. returns (record {
      valid = record {
        head_in = q.valid.head_in;
        tail_in = q.valid.tail_in;
        rx_in = q.valid.rx_in;
        table = q.valid.table;
        untagged = q.valid.untagged;
      };
      head_is = q.head_is;
      tail_is = q.tail_is;
    });
  }

  pub writel-IsQueued : (v : ℕ) (a : Addr) → Keeps W (IsQueued h t) (writel v a)
  writel-IsQueued v a = record {
    at = λ w q. returns (record {
      valid = record {
        head_in = q.valid.head_in;
        tail_in = q.valid.tail_in;
        rx_in = q.valid.rx_in;
        table = q.valid.table;
        untagged = q.valid.untagged;
      };
      head_is = q.head_is;
      tail_is = q.tail_is;
    });
  }

  pub get-IsQueued : Triple W (IsQueued h t) get (λ w s. IsQueued h t w × IsQueued h t s)
  unfolding get
  get-IsQueued = record { at = λ w q. returns (q, q) }

  pub ppsg_read_time-IsQueued : (e : Env) → Keeps W (IsQueued h t) (ppsg_read_time e)
  unfolding ppsg_read_time
  ppsg_read_time-IsQueued e = Triple-bind (readl-IsQueued e (ppsg 0x08)) λ utc1.
      Triple-bind (readl-IsQueued e (ppsg 0x04)) λ cnt.
        Triple-bind (readl-IsQueued e (ppsg 0x08)) λ utc2.
          Triple-bind
            (Triple-if (utc2 == utc1) (λ _. Keeps-pure cnt) (λ _. readl-IsQueued e (ppsg 0x04)))
            λ cnt'. Keeps-pure (cnt', utc2)

  pub when-IsQueued :
      (b : Bool) {m : Wrn → _} → Keeps W (IsQueued h t) m → Keeps W (IsQueued h t) (when b m)
  when-IsQueued true k = k
  when-IsQueued false k = Keeps-pure tt

-- The state that is read has what is known of the state, and a state that is stored has what is known
-- of the value.
pub get-Triple : {W : Type 0} (P : Wrn → Type 0) → Triple W P get (λ w s. P w × P s)
unfolding get
get-Triple P = record { at = λ w p. returns (p, p) }

pub put-Triple :
    {W : Type 0} {P : Wrn → Type 0} (Q : Wrn → Type 0) (w : Wrn) → Q w → Triple W P (put w) (λ _. Q)
put-Triple Q w q = record { at = λ s p. returns q }

-- What cannot be reached has every specification.
pub Triple-never :
    {W S A : Type 0} {P : S → Type 0} {Q : A → S → Type 0} {m : Program S A} → ⊥ → Triple W P m Q
Triple-never bad = absurd bad
