-- ===== src/Ruler/Agent.antt =====
-- tools/wr-dio-agent.c, with the driver that its commands go to.
use sbndaq_wr.Base.{
  ℕ, ◌+◌, List, [], ◌∷◌, Bool, true, false, not, pure, waiting, ◌>>=◌, ◌==◌, if◌then◌else◌,
}
use sbndaq_wr.Mmio.{Env}
use sbndaq_wr.Dio.Device.{Cmd, Ret, ok, M}
use sbndaq_wr.Dio.Stamp.{Wake}
use sbndaq_wr.Dio.Ioctl.{Services, priv_mezzanine_cmd, mezzanine_ioctl}

-- `RULER_PROTO`.
abbrev pub ruler_proto : ℕ
ruler_proto = 0x5752

-- What `recv` stores: the length of what came, and of the frame its type and its command. With it goes what
-- the kernel does in the call that the frame leads to.
pub record Frame : Type 0 where
  pub len : ℕ
  pub ether_type : ℕ
  pub cmd : Cmd
  pub services : Services
  pub wakes : List Wake

-- `sizeof(f)`: the header, the padding, and the command.
abbrev pub frame_size : ℕ
frame_size = 14 + 2 + 272

-- `return -1` of `main`.
pub data AgentEnd : Type 0 where
  agent_failed : AgentEnd

abbrev pub is_ok : Ret → Bool
is_ok ok = true
is_ok r = false

module _ (e : Env) where
  -- One round of the loop: whether it goes on.
  unfoldable pub agent_step : Frame → M Bool
  agent_step f =
      if not (f.len == frame_size)
      then pure true
      else if not (f.ether_type == ruler_proto)
      then pure true
      else (mezzanine_ioctl e f.services f.wakes priv_mezzanine_cmd f.cmd >>= λ r. pure (is_ok r.0))

  -- `main`, for the frames that come.
  unfoldable pub agent_main : List Frame → M AgentEnd
  unfolding agent_step
  agent_main [] = λ d. waiting
  agent_main (f ∷ frames) = do
    on ← agent_step f
    if on then agent_main frames else pure agent_failed
