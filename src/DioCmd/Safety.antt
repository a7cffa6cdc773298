-- ===== src/DioCmd/Safety.antt =====
-- The commands that the tool passes to the driver: a single channel that exists, or a mask.
use sbndaq_wr.Base.{
  ℕ, zero, suc, ◌+◌, ◌<◌, ◌≤◌, ◌≡◌, ◌∙◌, refl, ap, sym, get_elem?_in, List, [], ◌∷◌, Option, none,
  some, Bool, true, false, not, arith, pure, ◌>>=◌, ◌>>◌, ltb, ◌==◌, ◌&&◌, ◌||◌, has_bits,
  if◌then◌else◌, when, length,
}
use sbndaq_wr.Base.Triples.{
  Triple, Keeps, returns, blocks, Triple-bind, Triple-pure, Keeps-pure, Triple-post, Triple-given,
  Triple-if, Triple-checked,
}
use sbndaq_wr.Dio.Device.{Cmd, f_mask, f_wait}
use sbndaq_wr.DioCmd.State.{
  Text, Env, Line, stamp_line, Tool, Call, mezzanine_id, mezzanine_cmd, T, Ended, zero_returned,
  minus_one, exit_one, get_cmd, put_cmd, print, ioctl_cmd, same_text, arg, matched,
}
use sbndaq_wr.DioCmd.Commands.{
  stamp_loop, print_stamps, scan_channel, scan_stamp, set_flags, wait_text, eagain_number,
}

-- A command of the driver whose channel exists: by its number, or by a mask of five bits.
pub data IsAddressed (c : Cmd) : Type 0 where
  single : c.channel < 5 → IsAddressed c
  masked : has_bits c.flags f_mask ≡ true → c.channel < 32 → IsAddressed c

-- All commands so far were of that kind.
pub data AllAddressed : List Call → Type 0 where
  no_call : AllAddressed []
  id_call : {calls : List Call} → AllAddressed calls → AllAddressed (mezzanine_id ∷ calls)
  cmd_call :
      {c : Cmd} {calls : List Call}
      → IsAddressed c
      → AllAddressed calls
      → AllAddressed (mezzanine_cmd c ∷ calls)

-- `struct wr_dio_cmd` says which fields the driver replies in: `flags` is not one of them, and `nstamp`
-- is a number of valid stamps.
pub record IsKernel (e : Env) : Type 0 where
  pub keeps_flags : (calls : List Call) (c : Cmd) → (e.ioctl calls c).1.flags ≡ c.flags
  pub stamps_fit :
      (calls : List Call) (c : Cmd) → (e.ioctl calls c).1.nstamp ≤ length (e.ioctl calls c).1.t

-- The flags of the command, between two calls.
pub record IsRequesting (flags : ℕ) (s : Tool) : Type 0 where
  pub addressed : AllAddressed s.calls
  pub flags_are : s.cmd.flags ≡ flags

-- The channel of the next call as well.
pub record IsReady (flags ch : ℕ) (s : Tool) : Type 0 where
  pub requesting : IsRequesting flags s
  pub channel_is : s.cmd.channel ≡ ch

-- A channel that goes with these flags.
pub data IsChoice (flags ch : ℕ) : Type 0 where
  by_number : ch < 5 → IsChoice flags ch
  by_mask : has_bits flags f_mask ≡ true → ch < 32 → IsChoice flags ch

ready-IsAddressed :
    {flags ch : ℕ} {s : Tool} → IsChoice flags ch → IsReady flags ch s → IsAddressed s.cmd
ready-IsAddressed (by_number h) r = single (omega (arith, r.channel_is))
ready-IsAddressed (by_mask m h) r =
    masked (rw r.requesting.flags_are m) (omega (arith, r.channel_is))

module _ {W : Type 0} where
  get_cmd-Triple : (P : Tool → Type 0) → Triple W P get_cmd (λ c s. (s.cmd ≡ c) × P s)
  unfolding get_cmd
  get_cmd-Triple P = record { at = λ s p. returns (refl, p) }

  choose-Triple :
      (flags ch : ℕ) (c : Cmd)
      → Triple W
          (λ s. (s.cmd ≡ c) × IsRequesting flags s)
          (put_cmd (record c { channel = ch }))
          (λ _. IsReady flags ch)
  unfolding put_cmd
  choose-Triple flags ch c = record {
    at = λ s (same, r). returns (record {
      requesting = record {
        addressed = r.addressed;
        flags_are = ap (λ (x : Cmd). x.flags) (sym same) ∙ r.flags_are;
      };
      channel_is = refl;
    });
  }

  ioctl_cmd-Triple :
      (e : Env) (flags ch : ℕ)
      → IsKernel e
      → IsChoice flags ch
      → Triple W
          (IsReady flags ch)
          (ioctl_cmd e)
          (λ _ s. (s.cmd.nstamp ≤ length s.cmd.t) × IsRequesting flags s)
  unfolding ioctl_cmd
  ioctl_cmd-Triple e flags ch keeps choice = record {
    at = λ s r. returns (
      keeps.stamps_fit s.calls s.cmd,
      record {
        addressed = cmd_call (ready-IsAddressed choice r) r.requesting.addressed;
        flags_are = keeps.keeps_flags s.calls s.cmd ∙ r.requesting.flags_are;
      },
    );
  }

  print-IsRequesting : {flags : ℕ} (line : Line) → Keeps W (IsRequesting flags) (print line)
  unfolding print
  print-IsRequesting line = record {
    at = λ s r. returns (record { addressed = r.addressed; flags_are = r.flags_are });
  }

  print_stamps-IsRequesting :
      {flags : ℕ} (e : Env) (rounds i : ℕ) (c : Cmd)
      → i + rounds ≤ length c.t
      → Keeps W (IsRequesting flags) (print_stamps e rounds i c)
  unfolding print_stamps
  print_stamps-IsRequesting e zero i c fits = Keeps-pure tt
  print_stamps-IsRequesting e (suc rounds) i c fits =
      let (ts, there) = get_elem?_in c.t i (omega arith) in
      Triple-bind (Triple-checked ts there (λ s r. r)) λ x.
        Triple-bind (print-IsRequesting (stamp_line c.channel x))
          λ _. print_stamps-IsRequesting e rounds (i + 1) c (omega arith)

  set_flags-Triple :
      (e : Env) (old flags : ℕ)
      → Triple W (IsRequesting old) (set_flags e flags) (λ _. IsRequesting flags)
  unfolding set_flags get_cmd put_cmd
  set_flags-Triple e old flags = record {
    at = λ s r. returns (record { addressed = r.addressed; flags_are = refl });
  }

-- The reply to a call, with what is known of it.
reply-Triple :
    {W : Type 0} {flags : ℕ}
    → Triple W
        (λ s. (s.cmd.nstamp ≤ length s.cmd.t) × IsRequesting flags s)
        get_cmd
        (λ c s. (c.nstamp ≤ length c.t) × IsRequesting flags s)
unfolding get_cmd
reply-Triple = record { at = λ s r. returns r }

HasFlags : Tool → Type 0
HasFlags s = (flags : ℕ) × IsRequesting flags s

answered :
    (e : Env) (fuel flags ch : ℕ) (errno : Option ℕ)
    → Triple (Unit {0}) (IsRequesting flags) (stamp_loop e fuel ch) (λ _. HasFlags)
    → Triple
        (Unit {0})
        (λ s. (s.cmd.nstamp ≤ length s.cmd.t) × IsRequesting flags s)
        (elim errno [
          | some n ↦ pure (if n == eagain_number then zero_returned else minus_one)
          | none ↦ get_cmd >>= λ reply. print_stamps e reply.nstamp 0 reply >> stamp_loop e fuel ch
        ])
        (λ _. HasFlags)
unfolding HasFlags
answered e fuel flags ch (some n) rest = Triple-pure _ (λ s r. (flags, r.1))
answered e fuel flags ch none rest = Triple-bind reply-Triple λ c.
    Triple-given
      λ fits. Triple-bind (print_stamps-IsRequesting e c.nstamp 0 c (omega arith)) λ _. rest

stamp_loop-Triple :
    (e : Env) (fuel flags ch : ℕ)
    → IsKernel e
    → IsChoice flags ch
    → Triple (Unit {0}) (IsRequesting flags) (stamp_loop e fuel ch) (λ _. HasFlags)
unfolding stamp_loop HasFlags
stamp_loop-Triple e zero flags ch keeps choice = record { at = λ s r. blocks tt }
stamp_loop-Triple e (suc fuel) flags ch keeps choice =
    Triple-bind (get_cmd-Triple (IsRequesting flags)) λ c.
      Triple-bind (choose-Triple flags ch c) λ _.
        Triple-bind (ioctl_cmd-Triple e flags ch keeps choice)
          λ errno. answered e fuel flags ch errno (stamp_loop-Triple e fuel flags ch keeps choice)

HasFlags-AllAddressed :
    {W : Type 0} {P : Tool → Type 0} {m : T Ended}
    → Triple W P m (λ _. HasFlags)
    → Triple W P m (λ _ s. AllAddressed s.calls)
unfolding HasFlags
HasFlags-AllAddressed t = Triple-post (λ a s (flags, r). r.addressed) t

-- The last condition that `scan_stamp` tests, if it does not hold.
in_range :
    (found : Bool) (v : ℕ) → (not found || ltb 31 v || (not false && ltb 4 v)) ≡ false → v < 5
in_range found v h = ground (arith, h)

in_mask_range :
    (found : Bool) (v : ℕ) → (not found || ltb 31 v || (not true && ltb 4 v)) ≡ false → v < 32
in_mask_range found v h = ground (arith, h)

loop_as :
    (e : Env) (fuel v flags : ℕ) (found ismask : Bool)
    → IsKernel e
    → (not found || ltb 31 v || (not ismask && ltb 4 v)) ≡ false
    → Triple
        (Unit {0})
        (IsRequesting flags)
        (when ismask (set_flags e f_mask) >> stamp_loop e fuel v)
        (λ _ s. AllAddressed s.calls)
loop_as e fuel v flags found true keeps h = Triple-bind (set_flags-Triple e flags f_mask) λ _.
    HasFlags-AllAddressed
      (stamp_loop-Triple e fuel f_mask v keeps (by_mask refl (in_mask_range found v h)))
loop_as e fuel v flags found false keeps h = Triple-bind (Keeps-pure tt) λ _.
    HasFlags-AllAddressed (stamp_loop-Triple e fuel flags v keeps (by_number (in_range found v h)))

scan_channel-Triple :
    (e : Env) (fuel argc : ℕ) (argv : List Text) (ismask : Bool) (flags : ℕ)
    → IsKernel e
    → Triple
        (Unit {0})
        (IsRequesting flags)
        (scan_channel e fuel argc argv ismask)
        (λ _ s. AllAddressed s.calls)
unfolding scan_channel
scan_channel-Triple e fuel argc argv ismask flags keeps =
    let r = e.scan_int (arg argv 1) in
    Triple-if (argc == 1)
      (λ _. Triple-bind (set_flags-Triple e flags f_mask) λ _.
        HasFlags-AllAddressed
          (stamp_loop-Triple e fuel f_mask 0x1f keeps (by_mask refl (omega arith))))
      (λ _.
        Triple-if (argc == 2)
          (λ _.
            Triple-if (not (matched r 1) || ltb 31 r.value || (not ismask && ltb 4 r.value))
              (λ _. Triple-pure exit_one (λ s q. q.addressed))
              (λ h. loop_as e fuel r.value flags (matched r 1) ismask keeps h))
          (λ _. Triple-pure minus_one (λ s q. q.addressed)))

-- The commands "stamp" and "stampm", with any arguments, never read beyond the stamps of a reply, and each
-- command that they pass to the driver has a mask of five channels, or one channel that exists, if
-- the kernel replies in the fields that it should.
pub scan_stamp-Triple :
    (e : Env) (fuel : ℕ) (argv : List Text) (ismask : Bool) (flags : ℕ)
    → IsKernel e
    → Triple
        (Unit {0})
        (IsRequesting flags)
        (scan_stamp e fuel argv ismask)
        (λ _ s. AllAddressed s.calls)
unfolding scan_stamp
scan_stamp-Triple e fuel argv ismask flags keeps = Triple-bind (set_flags-Triple e flags 0) λ _.
    Triple-if (length argv == 3 && same_text (arg argv 2) wait_text)
      (λ _.
        Triple-bind (set_flags-Triple e 0 f_wait)
          λ _. scan_channel-Triple e fuel 2 argv ismask f_wait keeps)
      (λ _. scan_channel-Triple e fuel (length argv) argv ismask 0 keeps)
