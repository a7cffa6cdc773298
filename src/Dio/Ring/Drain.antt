-- ===== src/Dio/Ring/Drain.antt =====
-- Emptying the ring.
use sbndaq_wr.Base.{
  ℕ, zero, suc, ◌+◌, ◌≡◌, refl, ap, ◌∙◌, inl, inr, List, [], ◌∷◌, some, arith, take, set, true,
  drop, length, length-set, lt→ltb, ◌<◌, ◌≤◌, get_or, min, ◌==◌, Bool-cases, get_elem?-eq-get_or,
  false,
}
use sbndaq_wr.Mmio.{Timespec, zero_time}
use sbndaq_wr.Dio.Device.{Channel}
use sbndaq_wr.Dio.Ring.{drain, next_index}
use sbndaq_wr.Dio.Ring.Queue.{IsRing, used, window, contents, store_all}

-- What the loop makes of a ring: the channel after it, the count and the array.
pub record IsDrained (left : ℕ) (c c' : Channel) (n n' : ℕ) (t t' : List Timespec) : Type 0 where
  pub ring : IsRing c'
  pub count : n' ≡ n + min left (used c)
  pub stamps : t' ≡ store_all t n (take left (contents c))
  pub rest : contents c' ≡ drop left (contents c)
  pub others : c' ≡ record c { btail = c'.btail }

used-next :
    {c : Channel}
    → IsRing c
    → (c.bhead == c.btail) ≡ false
    → used c ≡ suc (used (record c { btail = next_index c.btail }))
unfolding next_index
used-next v e = ground arith

contents-cons :
    {c : Channel}
    → IsRing c
    → (c.bhead == c.btail) ≡ false
    → contents c
      ≡ get_or c.tsbuf c.btail zero_time ∷ contents (record c { btail = next_index c.btail })
unfolding next_index
contents-cons {c} v e = ap (window c.tsbuf c.btail) (used-next v e)

used-empty : {c : Channel} → IsRing c → (c.bhead == c.btail) ≡ true → used c ≡ 0
used-empty v e = ground arith

contents-empty : {c : Channel} → IsRing c → (c.bhead == c.btail) ≡ true → contents c ≡ []
contents-empty {c} v e = ap (window c.tsbuf c.btail) (used-empty v e)

next-IsRing : {c : Channel} → IsRing c → IsRing (record c { btail = next_index c.btail })
unfolding next_index
next-IsRing v = ground arith

-- One round with an empty ring, and one with a stamp in it.
drain-empty :
    (left : ℕ) {c : Channel} (n : ℕ) (t : List Timespec)
    → (c.bhead == c.btail) ≡ true
    → drain (suc left) c n t ≡ some (c, n, t)
unfolding drain
drain-empty left n t e = rw e

drain-next :
    (left : ℕ) {c : Channel} (n : ℕ) (t : List Timespec)
    → IsRing c
    → n < length t
    → (c.bhead == c.btail) ≡ false
    → drain (suc left) c n t
      ≡ drain left
          (record c { btail = next_index c.btail })
          (n + 1)
          (set t n (get_or c.tsbuf c.btail zero_time))
unfolding drain
drain-next left {c} n t v room e =
    rw (e, get_elem?-eq-get_or c.tsbuf c.btail zero_time (omega arith), lt→ltb n (length t) room)
      refl

IsDrained-next :
    (left : ℕ) {c c' : Channel} {n n' : ℕ} {t t' : List Timespec}
    → IsRing c
    → (c.bhead == c.btail) ≡ false
    → IsDrained left
        (record c { btail = next_index c.btail })
        c'
        (n + 1)
        n'
        (set t n (get_or c.tsbuf c.btail zero_time))
        t'
    → IsDrained (suc left) c c' n n' t t'
IsDrained-next left {c} {n} {t} v e d = record {
  ring = d.ring;
  count = omega (arith, used-next v e, d.count);
  stamps = rw (contents-cons v e) d.stamps;
  rest = rw (contents-cons v e) d.rest;
  others = d.others;
}

-- The loop of `stamp` moves the oldest stamps of the ring into `t`, in order, as many as there are
-- or as `left` allows, and leaves the others in the ring. The array has room for `left` more behind the `n` that it has.
pub drain_refines :
    (left : ℕ) {c : Channel} (n : ℕ) (t : List Timespec)
    → IsRing c
    → n + left ≤ length t
    → (c' : Channel) × (n' : ℕ) × (t' : List Timespec) × (drain left c n t ≡ some (c', n', t'))
      × IsDrained left c c' n n' t t'
drain_refines zero {c} n t v room = (
  c,
  n,
  t,
  unfold drain in refl,
  record { ring = v; count = omega arith; stamps = refl; rest = refl; others = refl },
)
drain_refines (suc left) {c} n t v room = elim (Bool-cases (c.bhead == c.btail)) [
  | inl empty ↦ (
    c,
    n,
    t,
    drain-empty left n t empty,
    record {
      ring = v;
      count = omega (arith, used-empty v empty);
      stamps = rw (contents-empty v empty);
      rest = rw (contents-empty v empty);
      others = refl;
    },
  )
  | inr more ↦
      let (c', n', t', runs, d) =
        drain_refines left {c = record c { btail = next_index c.btail }} (n + 1)
          (set t n (get_or c.tsbuf c.btail zero_time)) (next-IsRing v)
          (omega (arith, room, length-set t n (get_or c.tsbuf c.btail zero_time))) in
      (c', n', t', drain-next left n t v (omega arith) more ∙ runs, IsDrained-next left v more d)
]
