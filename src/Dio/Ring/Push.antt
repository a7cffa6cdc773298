-- ===== src/Dio/Ring/Push.antt =====
-- Filling the ring: a bounded queue that drops its oldest stamp.
use sbndaq_wr.Base.{
  ℕ, zero, suc, ◌+◌, ◌-◌, ◌%◌, ◌<◌, ◌≡◌, refl, sym, ap, ap₂, ◌∙◌, inl, inr, List, [], ◌∷◌, ◌++◌,
  some, arith, length, set, drop, get_or, get_or-set_self, length-set, length-append, ◌==◌,
  Bool-cases, true, false,
}
use sbndaq_wr.Mmio.{Timespec, zero_time}
use sbndaq_wr.Dio.Device.{Channel, buffer_len}
use sbndaq_wr.Dio.Ring.{publish, push, next_index}
use sbndaq_wr.Dio.Ring.Queue.{
  IsRing, used, window, contents, newest, length-window, window-set_outside, window-append,
}

-- The ring after a stamp.
abbrev pub pushed : Channel → Timespec → Channel
pushed c ts = record (publish c) { tsbuf = set c.tsbuf c.bhead ts }

pub push-eq-pushed : {c : Channel} (ts : Timespec) → IsRing c → push c ts ≡ some (pushed c ts)
unfolding push
push-eq-pushed ts v = ground arith

pub pushed-IsRing : {c : Channel} (ts : Timespec) → IsRing c → IsRing (pushed c ts)
unfolding publish next_index
pushed-IsRing {c} ts v = ground (arith, length-set c.tsbuf c.bhead ts)

-- What is pushed is the last entry of any window that ends at the head.
window-pushed :
    {c : Channel} (ts : Timespec) (i n : ℕ)
    → IsRing c
    → i < buffer_len
    → (i + n) % buffer_len ≡ c.bhead
    → n < buffer_len
    → window (set c.tsbuf c.bhead ts) i (suc n) ≡ window c.tsbuf i n ++ ts ∷ []
window-pushed {c} ts i n v hi e small =
    window-append (set c.tsbuf c.bhead ts) i n c.bhead hi (sym e)
    ∙ ap₂ (λ (l : List Timespec) (x : Timespec). l ++ x ∷ [])
        (window-set_outside c.tsbuf c.bhead ts i n hi v.head_in (omega arith))
        (get_or-set_self c.tsbuf c.bhead ts zero_time (omega arith))

drop-none : {A : Type 0} (n : ℕ) (xs : List A) → n ≡ 0 → drop n xs ≡ xs
drop-none zero xs e = refl
drop-none (suc n) xs e = absurd (omega arith)

drop-one : {A : Type 0} (n : ℕ) (x : A) (xs : List A) → n ≡ 1 → drop n (x ∷ xs) ≡ xs
drop-one zero x xs e = absurd (omega arith)
drop-one (suc n) x xs e = drop-none n xs (omega arith)

length-contents-append : (c : Channel) (ts : Timespec) → length (contents c ++ ts ∷ []) ≡ used c + 1
length-contents-append c ts =
    omega (arith, length-append (contents c) (ts ∷ []), length-window c.tsbuf c.btail (used c))

-- The tail and the number of stamps after a push.
pushed_full :
    {c : Channel} (ts : Timespec)
    → IsRing c
    → (next_index c.bhead == c.btail) ≡ true
    → ((pushed c ts).btail ≡ (c.btail + 1) % buffer_len)
      × (used (pushed c ts) ≡ suc 510)
      × (used c ≡ suc 510)
unfolding publish next_index
pushed_full ts v full = ground arith

pushed_room :
    {c : Channel} (ts : Timespec)
    → IsRing c
    → (next_index c.bhead == c.btail) ≡ false
    → ((pushed c ts).btail ≡ c.btail) × (used (pushed c ts) ≡ suc (used c)) × (used c < 511)
unfolding publish next_index
pushed_room ts v room = ground arith

contents-pushed_full :
    {c : Channel} (ts : Timespec)
    → IsRing c
    → (next_index c.bhead == c.btail) ≡ true
    → contents (pushed c ts) ≡ newest (buffer_len - 1) (contents c ++ ts ∷ [])
contents-pushed_full {c} ts v full =
    let (tail', used', used_before) = pushed_full ts v full in
    let i : ℕ = (c.btail + 1) % buffer_len in
    let before : contents c ≡ get_or c.tsbuf c.btail zero_time ∷ window c.tsbuf i 510 =
      ap (window c.tsbuf c.btail) used_before in
    ap₂ (window (set c.tsbuf c.bhead ts)) tail' used'
    ∙ window-pushed ts i 510 v (omega arith) (omega arith) (omega arith)
    ∙ sym (
        ap (λ (l : List Timespec). drop (length (contents c ++ ts ∷ []) - 511) (l ++ ts ∷ []))
          before
        ∙ drop-one (length (contents c ++ ts ∷ []) - 511) _ _
            (omega (arith, length-contents-append c ts)))

contents-pushed_room :
    {c : Channel} (ts : Timespec)
    → IsRing c
    → (next_index c.bhead == c.btail) ≡ false
    → contents (pushed c ts) ≡ newest (buffer_len - 1) (contents c ++ ts ∷ [])
contents-pushed_room {c} ts v room =
    let (tail', used', small) = pushed_room ts v room in
    ap₂ (window (set c.tsbuf c.bhead ts)) tail' used'
    ∙ window-pushed ts c.btail (used c) v v.tail_in (omega arith) (omega arith)
    ∙ sym (drop-none _ (contents c ++ ts ∷ []) (omega (arith, length-contents-append c ts)))

contents-pushed :
    {c : Channel} (ts : Timespec)
    → IsRing c
    → contents (pushed c ts) ≡ newest (buffer_len - 1) (contents c ++ ts ∷ [])
contents-pushed {c} ts v = elim (Bool-cases (next_index c.bhead == c.btail)) [
  | inl full ↦ contents-pushed_full ts v full
  | inr room ↦ contents-pushed_room ts v room
]

-- A ring takes every stamp: it then holds the stamps that it held and the new one behind them, less
-- the oldest one if that makes more than 511.
pub push_refines :
    {c : Channel} (ts : Timespec)
    → IsRing c
    → (c' : Channel) × (push c ts ≡ some c')
      × IsRing c'
      × (contents c' ≡ newest (buffer_len - 1) (contents c ++ ts ∷ []))
push_refines {c} ts v = (pushed c ts, push-eq-pushed ts v, pushed-IsRing ts v, contents-pushed ts v)
