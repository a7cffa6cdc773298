-- ===== src/Dio/Stamp/Replies.antt =====
-- What a stamp command answers.
use sbndaq_wr.Base.{
  ℕ, ◌*◌, ◌%◌, ◌^◌, ◌<◌, ◌≤◌, ◌≡◌, ◌≢◌, ◌∙◌, refl, inl, inr, ◌⊎◌, List, none, some, Bool, true,
  false, arith, length, get_elem?, set, min, take, drop, ltb, ◌==◌, has_bits, bit_and, done, fault,
  ◌>>=◌, lt→ltb, holds_from, holds_from_lookup, dec_lt, get_elem?_out, checked,
}
use sbndaq_wr.Base.Bits.{bit_and-one}
use sbndaq_wr.Base.Triples.{bind-done, bind-fault}
use sbndaq_wr.Mmio.{Timespec, u32}
use sbndaq_wr.Dio.Device.{
  Channel, Driver, Cmd, ok, einval, eagain, f_mask, f_wait, n_stamp, channel_at, shl,
}
use sbndaq_wr.Dio.Ring.Queue.{IsRing, used, contents, store_all}
use sbndaq_wr.Dio.Stamp.{Wake, scan, pass, after_pass, sleep, cmd_stamp}
use sbndaq_wr.Dio.Stamp.Scan.{IsIdle, Hit, Miss, selected, scan-Scanned}
use sbndaq_wr.Dio.Invariant.{IsDriver}

-- The reply of a command that finds stamps on channel `i` with the ring `c`, and the driver after.
abbrev pub taken : Cmd → ℕ → Channel → Cmd
taken cmd i c = record cmd {
  channel = i;
  nstamp = min n_stamp (used c);
  t = store_all cmd.t 0 (take n_stamp (contents c));
}

-- The first test of the function is on the lowest bit alone.
first_test : (flags : ℕ) → flags % 2 ≡ 0 → (bit_and flags 1 == 1) ≡ false
first_test flags h = let e : bit_and flags 1 ≡ 0 = bit_and-one flags ∙ h in rw e refl

first_test_odd : (flags : ℕ) → flags % 2 ≡ 1 → (bit_and flags 1 == 1) ≡ true
first_test_odd flags h = let e : bit_and flags 1 ≡ 1 = bit_and-one flags ∙ h in rw e refl

-- A command whose flags are odd, that is with `WR_DIO_F_NOW`, is refused and changes nothing.
pub cmd_stamp_odd :
    (wakes : List Wake) (cmd : Cmd) (d : Driver)
    → cmd.flags % 2 ≡ 1
    → cmd_stamp wakes cmd d ≡ done (einval, cmd) d
unfolding cmd_stamp
cmd_stamp_odd wakes cmd d odd = rw (first_test_odd cmd.flags odd) refl

module _ (wakes : List Wake) (cmd : Cmd) {l : Bool} {d : Driver} (even : cmd.flags % 2 ≡ 0)
    (masked : has_bits cmd.flags f_mask ≡ true) (good : IsDriver l d) where
  cmd_stamp_pass :
      cmd_stamp wakes cmd d ≡ (scan 5 0 cmd.channel cmd.t >>= after_pass (sleep wakes) cmd) d
  unfolding cmd_stamp pass
  cmd_stamp_pass = rw (first_test cmd.flags even, masked) refl

  Hit-reply :
      {i : ℕ} (hit : Hit d cmd.channel 0 i cmd.t (scan 5 0 cmd.channel cmd.t d))
      → cmd_stamp wakes cmd d ≡ done (ok, taken cmd i hit.c) (record d { ch = set d.ch i hit.c' })
  unfolding after_pass
  Hit-reply hit =
      cmd_stamp_pass
      ∙ bind-done (scan 5 0 cmd.channel cmd.t) (after_pass (sleep wakes) cmd) hit.result
      ∙ rw (nonzero hit.stamps) refl
    where
      nonzero : {n : ℕ} → n ≢ 0 → (min n_stamp n == 0) ≡ false
      nonzero h = ground arith

  Miss-reply :
      has_bits cmd.flags f_wait ≡ false
      → Miss d cmd.channel 0 5 cmd.t (scan 5 0 cmd.channel cmd.t d)
      → cmd_stamp wakes cmd d ≡ done (eagain, record cmd { nstamp = 0 }) d
  unfolding after_pass
  Miss-reply no_wait miss =
      cmd_stamp_pass
      ∙ bind-done (scan 5 0 cmd.channel cmd.t) (after_pass (sleep wakes) cmd) miss.result
      ∙ rw no_wait refl

  -- In a good state, a command for a mask of channels that does not wait, whose flags are even, that is without
  -- `WR_DIO_F_NOW`, and whose array of times is whole, takes the oldest stamps, 16 at most, of the
  -- lowest selected channel that has any, and no other; without such a channel the answer is EAGAIN
  -- and nothing changes.
  pub cmd_stamp_masked :
      has_bits cmd.flags f_wait ≡ false
      → length cmd.t ≡ n_stamp
      → ((i : ℕ) × (i < 5)
          × (c : Channel) × (c' : Channel) × (get_elem? d.ch i ≡ some c)
          × (used c ≢ 0)
          × ((j : ℕ) → j < i → IsIdle d cmd.channel j)
          × IsRing c'
          × (contents c' ≡ drop n_stamp (contents c))
          × (cmd_stamp wakes cmd d ≡ done (ok, taken cmd i c) (record d { ch = set d.ch i c' })))
        ⊎ (((j : ℕ) → j < 5 → IsIdle d cmd.channel j)
            × (cmd_stamp wakes cmd d ≡ done (eagain, record cmd { nstamp = 0 }) d))
  cmd_stamp_masked no_wait full =
      elim (scan-Scanned 5 0 5 cmd.channel cmd.t (omega arith) (omega arith) full good) [
        | inl (i, small, hit) ↦ inl (
          i,
          small,
          hit.c,
          hit.c',
          hit.there,
          hit.stamps,
          λ j h. hit.idle_before j (omega arith) h,
          hit.ring,
          hit.rest,
          Hit-reply hit,
        )
        | inr miss ↦ inr (λ j h. miss.idle j (omega arith) h, Miss-reply no_wait miss)
      ]

own_bit_table : holds_from (λ ch. selected ch (u32 (1 * 2 ^ ch))) 0 32 ≡ true
unfolding holds_from
own_bit_table = refl

own_bit : (ch : ℕ) → ch < 32 → selected ch (u32 (1 * 2 ^ ch)) ≡ true
own_bit ch h =
    holds_from_lookup (λ ch. selected ch (u32 (1 * 2 ^ ch))) 0 32 (omega arith) (omega arith)
      own_bit_table

not_lt : (a b : ℕ) → ¬ (a < b) → ltb a b ≡ false
not_lt a b h = ground arith

shl-done : (v k : ℕ) (d : Driver) → k < 32 → shl v k d ≡ done (u32 (v * 2 ^ k)) d
shl-done v k d h = rw (lt→ltb k 32 h) refl

scan_missing :
    (ch mask : ℕ) (t : List Timespec) (d : Driver)
    → ch < 32
    → selected ch mask ≡ true
    → get_elem? d.ch ch ≡ none
    → scan 1 ch mask t d ≡ fault
unfolding scan
scan_missing ch mask t d h e missing =
    rw (lt→ltb ch 32 h, e, ◌>>=◌, channel_at, checked, missing) refl

pass_missing :
    (cmd : Cmd) (d : Driver)
    → has_bits cmd.flags f_mask ≡ false
    → length d.ch ≡ 5
    → 5 ≤ cmd.channel
    → pass cmd d ≡ fault
unfolding pass
pass_missing cmd d single five big = elim (dec_lt cmd.channel 32) [
  | yes small ↦ rw single (
      bind-done (shl 1 cmd.channel) (λ mask. scan 1 cmd.channel mask cmd.t)
        (shl-done 1 cmd.channel d small)
      ∙ scan_missing cmd.channel (u32 (1 * 2 ^ cmd.channel)) cmd.t d small
          (own_bit cmd.channel small) (get_elem?_out d.ch cmd.channel (omega arith)))
  | no wide ↦ rw (single, not_lt cmd.channel 32 wide) refl
]

-- A command for one channel that a device of five channels does not have is undefined, if its flags are even, that is
-- without `WR_DIO_F_NOW`: up to channel 31 it reads past the array of channels, and from 32 on the shift of the channel's
-- bit is undefined before that.
pub cmd_stamp_missing :
    (wakes : List Wake) (cmd : Cmd) (d : Driver)
    → cmd.flags % 2 ≡ 0
    → has_bits cmd.flags f_mask ≡ false
    → length d.ch ≡ 5
    → 5 ≤ cmd.channel
    → cmd_stamp wakes cmd d ≡ fault
unfolding cmd_stamp
cmd_stamp_missing wakes cmd d even single five big =
    rw (first_test cmd.flags even)
      (bind-fault (pass cmd) (after_pass (sleep wakes) cmd) (pass_missing cmd d single five big))
