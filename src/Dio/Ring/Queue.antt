-- ===== src/Dio/Ring/Queue.antt =====
-- The queue that a ring of time stamps stands for.
use sbndaq_wr.Base.{
  ℕ, zero, suc, ◌+◌, ◌-◌, ◌%◌, ◌<◌, ◌≤◌, ◌≡◌, refl, ap, ap₂, List, [], ◌∷◌, ◌++◌, arith, length,
  get_or, set, drop, get_or-set_ne, length-set, ◌∙◌,
}
use sbndaq_wr.Mmio.{Timespec, zero_time}
use sbndaq_wr.Dio.Device.{Channel, buffer_len}

-- The ring is as long as the code takes it to be, and both indices are in it.
pub record IsRing (c : Channel) : Type 0 where
  pub full_length : length c.tsbuf ≡ buffer_len
  pub head_in : c.bhead < buffer_len
  pub tail_in : c.btail < buffer_len

abbrev pub used : Channel → ℕ
used c = (c.bhead + buffer_len - c.btail) % buffer_len

-- `n` entries of a buffer from index `i` on, going round at its end.
abbrev pub window : List Timespec → ℕ → ℕ → List Timespec
window buf i zero = []
window buf i (suc n) = get_or buf i zero_time ∷ window buf ((i + 1) % buffer_len) n

-- The stamps in a ring, the oldest first.
abbrev pub contents : Channel → List Timespec
contents c = window c.tsbuf c.btail (used c)

-- The newest `k` entries of a list.
abbrev pub newest : ℕ → List Timespec → List Timespec
newest k xs = drop (length xs - k) xs

-- `xs` stored into `t` from index `n` on.
abbrev pub store_all : List Timespec → ℕ → List Timespec → List Timespec
store_all t n [] = t
store_all t n (x ∷ xs) = store_all (set t n x) (n + 1) xs

pub length-window : (buf : List Timespec) (i n : ℕ) → length (window buf i n) ≡ n
length-window buf i zero = refl
length-window buf i (suc n) = ap suc (length-window buf ((i + 1) % buffer_len) n)

-- A window that does not reach index `k` does not see a write there.
pub window-set_outside :
    (buf : List Timespec) (k : ℕ) (x : Timespec) (i n : ℕ)
    → i < buffer_len
    → k < buffer_len
    → n ≤ (k + buffer_len - i) % buffer_len
    → window (set buf k x) i n ≡ window buf i n
window-set_outside buf k x i zero hi hk fits = refl
window-set_outside buf k x i (suc n) hi hk fits =
    ap₂ ◌∷◌ (get_or-set_ne buf k i x zero_time (omega arith))
      (window-set_outside buf k x ((i + 1) % buffer_len) n (omega arith) hk (omega arith))

-- One more entry at the end of a window.
pub window-append :
    (buf : List Timespec) (i n j : ℕ)
    → i < buffer_len
    → j ≡ (i + n) % buffer_len
    → window buf i (suc n) ≡ window buf i n ++ get_or buf j zero_time ∷ []
window-append buf i zero j hi e = ap (λ k. get_or buf k zero_time ∷ []) (omega arith)
window-append buf i (suc n) j hi e =
    ap (λ (l : List Timespec). get_or buf i zero_time ∷ l)
      (window-append buf ((i + 1) % buffer_len) n j (omega arith) (omega arith))

pub length-store_all : (xs t : List Timespec) (n : ℕ) → length (store_all t n xs) ≡ length t
length-store_all [] t n = refl
length-store_all (x ∷ xs) t n = length-store_all xs (set t n x) (n + 1) ∙ length-set t n x
