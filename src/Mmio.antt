-- ===== src/Mmio.antt =====
-- What the drivers of wr-starting-kit/spec-sw/kernel take from the kernel and from the card:
-- register accesses, time arithmetic, and machine words. A word is its bit pattern, a number.
use sbndaq_wr.Base.{ℕ, ◌+◌, ◌-◌, ◌/◌, ◌%◌, ◌^◌, List, ltb, if◌then◌else◌, Bool, ◌&&◌}

-- A register: the block whose base address the driver keeps, and the offset in it.
pub data Addr : Type 0 where
  dio ppsg vic gpio nic databuf txtsu syscon gennum bar0 endpoint : ℕ → Addr

-- One access to the card. A value that is read is given by `Env.answer`.
pub data Access : Type 0 where
  read : Addr → Access
  write : Addr → ℕ → Access

-- The accesses so far, the latest first.
abbrev pub History : Type 0
History = List Access

-- `struct timespec64`: two 64-bit words in two's complement.
pub record Timespec : Type 0 where
  pub tv_sec : ℕ
  pub tv_nsec : ℕ

abbrev pub zero_time : Timespec
zero_time = record { tv_sec = 0; tv_nsec = 0 }

-- What is not in the repository: the card's answer to a read after a history of accesses, and the
-- kernel's `set_normalized_timespec64` and `timespec64_add`.
pub record Env : Type 0 where
  pub answer : History → Addr → ℕ
  pub set_normalized : ℕ → ℕ → Timespec
  pub timespec_add : Timespec → Timespec → Timespec

abbrev pub u32 : ℕ → ℕ
u32 n = n % 2 ^ 32

abbrev pub u64 : ℕ → ℕ
u64 n = n % 2 ^ 64

-- Addition and subtraction of 64-bit words.
abbrev pub add64 : ℕ → ℕ → ℕ
add64 a b = (a + b) % 2 ^ 64

abbrev pub sub64 : ℕ → ℕ → ℕ
sub64 a b = (a + 2 ^ 64 - b % 2 ^ 64) % 2 ^ 64

-- An `int` as a `long`.
abbrev pub sign_extend : ℕ → ℕ
sign_extend n = if ltb (n % 2 ^ 32) (2 ^ 31) then n % 2 ^ 32 else n % 2 ^ 32 + (2 ^ 64 - 2 ^ 32)

-- `/` on `long`, by a small positive divisor: it rounds towards zero.
abbrev pub div64 : ℕ → ℕ → ℕ
div64 a k = if ltb a (2 ^ 63) then a / k else (2 ^ 64 - (2 ^ 64 - a) / k) % 2 ^ 64

-- `0 < n` for an `int`.
abbrev pub is_positive32 : ℕ → Bool
is_positive32 n = ltb 0 n && ltb n (2 ^ 31)
