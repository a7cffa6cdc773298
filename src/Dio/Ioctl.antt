-- ===== src/Dio/Ioctl.antt =====
-- `wrn_mezzanine_ioctl` and the calls at the start and the end of a net device.
-- Whether `kmalloc`, `copy_from_user` and `copy_to_user` succeed is an argument.
pub mod Safety
pub mod Reach
use sbndaq_wr.Base.{
  ℕ, ◌+◌, List, [], ◌∷◌, Bool, true, false, replicate, Program, pure, ◌>>=◌, ◌>>◌, done, fault,
  waiting, ◌==◌, if◌then◌else◌, ◌^◌, ◌-◌, Option, none, some,
}
use sbndaq_wr.Mmio.{Env, Timespec, zero_time}
use sbndaq_wr.Dio.Device.{
  Channel, Driver, Cmd, Ret, ok, einval, eagain, enomem, efault, enotsupp, enoioctlcmd, buffer_len,
  M, eic_ier, eic_idr, writel,
}
use sbndaq_wr.Dio.Pulse.{cmd_pulse}
use sbndaq_wr.Dio.Stamp.{Wake, cmd_stamp}
use sbndaq_wr.Dio.Inout.{cmd_inout}
use sbndaq_wr.Dio.Irq.{irq_mask}

abbrev pub cmd_name_pulse : ℕ
cmd_name_pulse = 0

abbrev pub cmd_name_stamp : ℕ
cmd_name_stamp = 1

abbrev pub cmd_name_dac : ℕ
cmd_name_dac = 2

abbrev pub cmd_name_inout : ℕ
cmd_name_inout = 3

-- `SIOCDEVPRIVATE + 14` and `+ 15`.
abbrev pub priv_mezzanine_id : ℕ
priv_mezzanine_id = 0x89f0 + 14

abbrev pub priv_mezzanine_cmd : ℕ
priv_mezzanine_cmd = 0x89f0 + 15

-- What the kernel's allocator and user-memory copies do in one call.
pub record Services : Type 0 where
  pub allocated : Bool
  pub copied_in : Bool
  pub copied_out : Bool

-- The command's effect and whether the reply is copied: three commands reach the copy.
unfoldable pub dispatch : Env → List Wake → Cmd → M (Ret × Option Cmd)
dispatch e wakes cmd =
    let reply = λ (r : Ret × Cmd). pure {S = Driver} {A = Ret × Option Cmd} (r.0, some r.1) in
    if cmd.command == cmd_name_pulse
    then (cmd_pulse e cmd >>= reply)
    else if cmd.command == cmd_name_stamp
    then (cmd_stamp wakes cmd >>= reply)
    else if cmd.command == cmd_name_inout
    then (cmd_inout e cmd >>= reply)
    else if cmd.command == cmd_name_dac
    then pure (enotsupp, none)
    else pure (einval, none)

-- The copy to the user: its failure hides the command's own result.
unfoldable pub copy_out : Bool → Ret × Option Cmd → Ret × Option Cmd
copy_out copied (ret, none) = (ret, none)
copy_out true (ret, some cmd) = (ret, some cmd)
copy_out false (ret, some cmd) = (efault, none)

-- `wrn_mezzanine_ioctl`: what it returns, and what the user finds in the buffer (`none`: as it was).
unfoldable pub mezzanine_ioctl : Env → Services → List Wake → ℕ → Cmd → M (Ret × Option Cmd)
unfolding dispatch copy_out
mezzanine_ioctl e k wakes request cmd =
    if request == priv_mezzanine_id
    then pure (eagain, none)
    else if request == priv_mezzanine_cmd
    then (if k.allocated
        then (if k.copied_in
            then (dispatch e wakes cmd >>= λ r. pure (copy_out k.copied_out r))
            else pure (efault, none))
        else pure (enomem, none))
    else pure (enoioctlcmd, none)

-- A channel as `kzalloc` leaves it.
abbrev pub fresh_channel : Channel
fresh_channel = record {
  tsbuf = replicate buffer_len zero_time;
  bhead = 0;
  btail = 0;
  prevts = zero_time;
  delay = zero_time;
  count = 0;
  target_channel = 0;
}

-- `wrn_mezzanine_init`: without memory it changes nothing.
unfoldable pub mezzanine_init : Bool → M Ret
mezzanine_init allocated d =
    if allocated
    then (writel irq_mask eic_ier >> pure ok)
        (record d { ch = replicate 5 fresh_channel; hw_lock = false })
    else done enomem d

-- `wrn_mezzanine_exit`: the interrupts are disabled and the channels freed.
unfoldable pub mezzanine_exit : M (Unit {0})
mezzanine_exit d = (writel (2 ^ 32 - 1) eic_idr) (record d { ch = [] })
