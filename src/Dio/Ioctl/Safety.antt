-- ===== src/Dio/Ioctl/Safety.antt =====
-- The ioctl and the start of the device: no command for existing channels faults.
use sbndaq_wr.Base.{
  ℕ, ◌<◌, ◌≡◌, refl, ◌⊎◌, inl, inr, true, false, arith, has_bits, ◌==◌, Option, none, some, pure,
  length, List,
}
use sbndaq_wr.Base.Triples.{Triple, Ensures, Triple-bind, Triple-pure, Triple-if}
use sbndaq_wr.Mmio.{Env}
use sbndaq_wr.Dio.Device.{
  Driver, Cmd, Ret, einval, eagain, enomem, efault, enotsupp, enoioctlcmd, ok, f_mask, M,
}
use sbndaq_wr.Dio.Pulse.Safety.{IsCmd, Replies, cmd_pulse-Triple}
use sbndaq_wr.Dio.Stamp.{Wake}
use sbndaq_wr.Dio.Stamp.Safety.{AllWakes, IsTarget, cmd_stamp-Triple}
use sbndaq_wr.Dio.Inout.Safety.{cmd_inout-Triple}
use sbndaq_wr.Dio.Invariant.{IsChannel, IsDriver}
use sbndaq_wr.Dio.Ioctl.{
  Services, cmd_name_pulse, cmd_name_stamp, cmd_name_inout, cmd_name_dac, dispatch, copy_out,
  priv_mezzanine_id, priv_mezzanine_cmd, mezzanine_ioctl, fresh_channel, mezzanine_init,
}

-- Without the lock, whatever the answer.
abbrev pub Free : Ret × Option Cmd → Driver → Type 0
Free r d = IsDriver false d

reply : Ret × Cmd → M (Ret × Option Cmd)
reply r = pure (r.0, some r.1)

reply-Triple : (r : Ret × Cmd) → Triple (Unit {0}) (Replies r) (reply r) Free
unfolding reply
reply-Triple r = Triple-pure (r.0, some r.1) (λ d v. v.1)

-- The target of an input/output command is even allowed to be below 8.
wider : (cmd : Cmd) → IsTarget cmd → (has_bits cmd.flags f_mask ≡ true) ⊎ (cmd.channel < 8)
wider cmd (inl masked) = inl masked
wider cmd (inr small) = inr (omega arith)

dispatch-Triple :
    (e : Env) (wakes : List Wake) (cmd : Cmd)
    → AllWakes wakes
    → IsCmd cmd
    → IsTarget cmd
    → Triple (Unit {0}) (IsDriver false) (dispatch e wakes cmd) Free
unfolding dispatch reply
dispatch-Triple e wakes cmd a full target =
    Triple-if (cmd.command == cmd_name_pulse)
      (λ _. Triple-bind (cmd_pulse-Triple e cmd full) reply-Triple)
      λ _.
        Triple-if (cmd.command == cmd_name_stamp)
          (λ _. Triple-bind (cmd_stamp-Triple wakes cmd a full target) reply-Triple)
          λ _.
            Triple-if (cmd.command == cmd_name_inout)
              (λ _. Triple-bind (cmd_inout-Triple e cmd full (wider cmd target)) reply-Triple)
              λ _.
                Triple-if (cmd.command == cmd_name_dac)
                  (λ _. Triple-pure (enotsupp, none) (λ d v. v))
                  (λ _. Triple-pure (einval, none) (λ d v. v))

-- In a good state with the lock free, an ioctl whose command is for existing channels and has its whole array
-- of times faults nowhere, whatever stamps of existing channels arrive while it sleeps, and if it returns the
-- state is good and the lock free. Reads and stores outside of the arrays are faults.
pub mezzanine_ioctl-Triple :
    (e : Env) (k : Services) (wakes : List Wake) (request : ℕ) (cmd : Cmd)
    → AllWakes wakes
    → IsCmd cmd
    → IsTarget cmd
    → Triple (Unit {0}) (IsDriver false) (mezzanine_ioctl e k wakes request cmd) Free
unfolding mezzanine_ioctl
mezzanine_ioctl-Triple e k wakes request cmd a full target =
    Triple-if (request == priv_mezzanine_id) (λ _. Triple-pure (eagain, none) (λ d v. v))
      λ _.
        Triple-if (request == priv_mezzanine_cmd)
          (λ _.
            Triple-if k.allocated
              (λ _.
                Triple-if k.copied_in
                  (λ _.
                    Triple-bind (dispatch-Triple e wakes cmd a full target)
                      λ r. Triple-pure (copy_out k.copied_out r) (λ d v. v))
                  (λ _. Triple-pure (efault, none) (λ d v. v)))
              (λ _. Triple-pure (enomem, none) (λ d v. v)))
          (λ _. Triple-pure (enoioctlcmd, none) (λ d v. v))

pub fresh-IsChannel : IsChannel fresh_channel
fresh-IsChannel = record {
  ring = record { full_length = refl; head_in = omega arith; tail_in = omega arith };
  target_in = omega arith;
}

-- A device that starts with memory is in a good state with the lock free.
pub init-IsDriver :
    (d : Driver)
    → length d.pulse_offsets ≡ 5
    → Ensures ⊥ (λ r d'. (r ≡ ok) × IsDriver false d') (mezzanine_init true d)
unfolding mezzanine_init
init-IsDriver d h = Ensures.returns (
  refl,
  record {
    channels = refl;
    offsets = h;
    each = (
      fresh-IsChannel,
      (fresh-IsChannel, (fresh-IsChannel, (fresh-IsChannel, (fresh-IsChannel, tt)))),
    );
    lock = refl;
  },
)
