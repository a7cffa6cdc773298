-- ===== src/DioCmd/Times.antt =====
-- `parse_ts`: seconds and a fraction, of a string.
use sbndaq_wr.Base.{
  ℕ, zero, suc, ◌-◌, ◌*◌, [], ◌∷◌, Option, none, some, ltb, ◌==◌, length, if◌then◌else◌,
}
use sbndaq_wr.Mmio.{Timespec, u64}
use sbndaq_wr.DioCmd.State.{Text, Env, matched}

-- `crashed` stands for `strlen` of the pointer behind a null pointer.
pub data Parsed : Type 0 where
  parsed : Timespec → Parsed
  refused crashed : Parsed

-- `strchr(s, '.') + 1`.
unfoldable pub after_dot : Text → Option Text
after_dot [] = none
after_dot (c ∷ s) = if c == 46 then some s else after_dot s

-- The loop that scales the fraction to nanoseconds, with `rounds` digits missing.
unfoldable pub scale : ℕ → ℕ → ℕ
scale zero nano = nano
scale (suc rounds) nano = scale rounds (u64 (nano * 10))

-- The fraction `nano`, whose digits are those behind the dot of `s`.
unfoldable pub fraction_of : ℕ → ℕ → Text → Parsed
unfolding after_dot scale
fraction_of sec nano s = elim (after_dot s) [
  | none ↦ crashed
  | some digits ↦
      if ltb 9 (length digits)
      then refused
      else parsed (record { tv_sec = sec; tv_nsec = scale (9 - length digits) nano })
]

unfoldable pub parse_ts : Env → Text → Parsed
unfolding fraction_of
parse_ts e s =
    let first = e.scan_time s in
    let second = e.scan_fraction s in
    if matched first 1
    then parsed (record { tv_sec = first.value; tv_nsec = 0 })
    else if matched first 3
    then refused
    else if matched first 0
    then (if matched second 1 then fraction_of 0 second.fraction s else refused)
    else fraction_of (if matched first 2 then first.value else 0)
        (if matched first 2 then first.fraction else 0) s
