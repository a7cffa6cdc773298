-- ===== src/Nic/Xmit.antt =====
-- `wrn_start_xmit`: each result with what it does to the queue.
use mathlib.Core.Path.{subst}
use sbndaq_wr.Base.{
  ◌≤◌, ◌≡◌, ◌+◌, sym, refl, ap, Bool, true, false, has_bits, done, ℕ, ◌%◌, ◌<◌, ◌≢◌, Option, none,
  some, arith, pure, ◌>>◌, ltb, ◌==◌, ◌^◌, Bool-cases, inl, inr,
}
use sbndaq_wr.Base.Triples.{
  Triple, Ensures, returns, Triple-bind, Triple-pure, Triple-given, Triple-if,
}
use sbndaq_wr.Mmio.{Env, u32}
use sbndaq_wr.Nic.State.{Skb, Wrn, nr_desc, next_desc, mtu, tx1, get}
use sbndaq_wr.Nic.Transmit.{
  XmitReturn, sent, emsgsize, no_desc, tx_ready, alloc_tx_desc, tx_desc, next_id, save_skb,
  count_sent, start_xmit,
}
use sbndaq_wr.Nic.Queue.{IsQueued, get-Triple, put-Triple, next_desc_in}
use sbndaq_wr.Nic.Progress.{save_skb-IsQueued, tx_desc-IsQueued, count_sent-IsQueued}

-- Whether the card owns the descriptor at the head, as its first word says.
abbrev pub is_owned : Env → ℕ → Wrn → Bool
is_owned e h w = has_bits (u32 (e.answer w.history (tx1 h))) tx_ready

-- What each result means for a frame and the state before: too long, no descriptor, or sent, with the head one further.
abbrev pub IsTransmitted : Env → Skb → ℕ → ℕ → Wrn → XmitReturn → Wrn → Type 0
IsTransmitted e skb h t w XmitReturn.sent s =
    (skb.len ≤ mtu) × (is_owned e h w ≡ false) × IsQueued (next_desc h) t s
IsTransmitted e skb h t w XmitReturn.emsgsize s = (mtu < skb.len) × IsQueued h t s
IsTransmitted e skb h t w XmitReturn.no_desc s =
    (skb.len ≤ mtu) × (is_owned e h w ≡ true) × IsQueued h t s

-- The queue and the ownership after the allocation of a descriptor.
abbrev IsTried : Env → ℕ → ℕ → Wrn → Option ℕ → Wrn → Type 0
IsTried e h t w none s = (is_owned e h w ≡ true) × IsQueued h t s
IsTried e h t w (some d) s = (is_owned e h w ≡ false) × (d ≡ h) × IsQueued (next_desc h) t s

count_id-IsQueued :
    {h t : ℕ} (w : Wrn) (id : ℕ) → IsQueued h t w → IsQueued h t (record w { id = id })
count_id-IsQueued w id q = record {
  valid = record {
    head_in = q.valid.head_in;
    tail_in = q.valid.tail_in;
    rx_in = q.valid.rx_in;
    table = q.valid.table;
    untagged = q.valid.untagged;
  };
  head_is = q.head_is;
  tail_is = q.tail_is;
}

count_id-IsTried :
    (e : Env) (h t : ℕ) (w0 : Wrn) (o : Option ℕ) (w : Wrn) (id : ℕ)
    → IsTried e h t w0 o w
    → IsTried e h t w0 o (record w { id = id })
count_id-IsTried e h t w0 none w id q = (q.0, count_id-IsQueued w id q.1)
count_id-IsTried e h t w0 (some d) w id q = (q.0, q.1, count_id-IsQueued w id q.2)

-- The head is taken exactly if the card does not own it.
alloc_tx_desc-IsTried :
    {h t : ℕ} (e : Env) (w : Wrn) → IsQueued h t w → Ensures ⊥ (IsTried e h t w) (alloc_tx_desc e w)
unfolding alloc_tx_desc get
alloc_tx_desc-IsTried {h} e w q =
    elim (Bool-cases (has_bits (u32 (e.answer w.history (tx1 w.next_tx_head))) tx_ready)) [
      | inl busy ↦ rw busy (
          returns (
            subst (λ i. is_owned e i w ≡ true) q.head_is busy,
            record {
              valid = record {
                head_in = q.valid.head_in;
                tail_in = q.valid.tail_in;
                rx_in = q.valid.rx_in;
                table = q.valid.table;
                untagged = q.valid.untagged;
              };
              head_is = q.head_is;
              tail_is = q.tail_is;
            },
          ))
      | inr free ↦ rw free (
          returns (
            subst (λ i. is_owned e i w ≡ false) q.head_is free,
            q.head_is,
            record {
              valid = record {
                head_in = next_desc_in w.next_tx_head;
                tail_in = q.valid.tail_in;
                rx_in = q.valid.rx_in;
                table = q.valid.table;
                untagged = q.valid.untagged;
              };
              head_is = ap next_desc q.head_is;
              tail_is = q.tail_is;
            },
          ))
    ]

-- A frame that has a descriptor.
send-Triple :
    {h t : ℕ} (e : Env) (skb : Skb) (w : Wrn) (id : ℕ) (o : Option ℕ)
    → h < nr_desc
    → skb.len ≤ mtu
    → Triple ⊥
        (IsTried e h t w o)
        (elim o [
          | none ↦ pure no_desc
          | some d ↦
              save_skb e d skb id
              >> tx_desc e d skb id skb.hw_tstamp
              >> count_sent e skb.len
              >> pure sent
        ])
        (IsTransmitted e skb h t w)
send-Triple e skb w id none small short = Triple-pure no_desc (λ s q. (short, q.0, q.1))
send-Triple {h} {t} e skb w id (some d) small short = record {
  at = λ s (free, here, q).
      (Triple-bind
          (Triple-bind
            (Triple-bind (save_skb-IsQueued e d skb id (omega (arith, here, small)))
              λ _. tx_desc-IsQueued e d skb id skb.hw_tstamp (omega (arith, here, small)) short)
            λ _. count_sent-IsQueued e skb.len)
          λ _. Triple-pure sent (λ s' q'. (short, free, q'))).at
        s q;
}

too_long :
    {h t : ℕ} (e : Env) (skb : Skb) (w : Wrn)
    → mtu < skb.len
    → IsQueued h t w
    → IsTransmitted e skb h t w XmitReturn.emsgsize
        (record w { stats = record w.stats { tx_errors = w.stats.tx_errors + 1 } })
too_long e skb w long q = (
  long,
  record {
    valid = record {
      head_in = q.valid.head_in;
      tail_in = q.valid.tail_in;
      rx_in = q.valid.rx_in;
      table = q.valid.table;
      untagged = q.valid.untagged;
    };
    head_is = q.head_is;
    tail_is = q.tail_is;
  },
)

-- `wrn_start_xmit` always returns and never leaves an array or the packet memory, for a queue in a good state. A frame
-- longer than the MTU is refused as too long; any other is sent exactly if the card does not own the descriptor at the head,
-- as its first word says. The head moves on by one descriptor if the frame was sent, and stays otherwise. The tail stays.
pub start_xmit-Triple :
    {h t : ℕ} (e : Env) (skb : Skb) (w : Wrn)
    → h < nr_desc
    → IsQueued h t w
    → Ensures ⊥ (IsTransmitted e skb h t w) (start_xmit e skb w)
unfolding start_xmit
start_xmit-Triple {h} {t} e skb w small q =
    (Triple-if (ltb mtu skb.len)
        (λ long. record {
          at = λ w' (same, q').
              subst
                (λ x. Ensures ⊥ (IsTransmitted e skb h t w) (
                  done emsgsize
                    (record x { stats = record x.stats { tx_errors = x.stats.tx_errors + 1 } })))
                (sym same) (returns (too_long e skb w (ground arith) q));
        })
        (λ short.
          Triple-bind {P = λ w'. (w' ≡ w) × IsQueued h t w'}
            (record {
              at = λ w' (same, q').
                  subst (λ x. Ensures ⊥ (IsTried e h t w) (alloc_tx_desc e x)) (sym same)
                    (alloc_tx_desc-IsTried e w q);
            })
            λ o. Triple-bind (get-Triple (IsTried e h t w o)) λ w'. Triple-given λ q'.
              Triple-bind
                (put-Triple (IsTried e h t w o) (record w' { id = (next_id e w'.id).1 })
                  (count_id-IsTried e h t w o w' (next_id e w'.id).1 q'))
                λ _. send-Triple e skb w (next_id e w'.id).0 o small (ground arith))).at
      w (refl, q)

-- A frame never gets the number 0, which the card cannot use, and the counter stays 32 bits wide.
pub next_id_usable :
    (e : Env) (id : ℕ) → ((next_id e id).0 % 2 ^ 16 ≢ 0) × ((next_id e id).1 < 2 ^ 32)
unfolding next_id
next_id_usable e id = elim (Bool-cases (id % 2 ^ 16 == 0)) [
  | inl h ↦ rw h ((λ z. ground (arith, z, h)), omega arith)
  | inr h ↦ rw h ((λ z. ground (arith, z, h)), omega arith)
]
