-- ===== src/Pps/Tests.antt =====
-- Tests and a concrete case of the result on tools/wr-dio-pps.c.
use sbndaq_wr.Base.{◌-◌, ◌^◌, ◌≡◌, refl, List, [], ◌∷◌, some, none, true, false, replicate}
use sbndaq_wr.Base.Triples.{Ensures}
use sbndaq_wr.Mmio
use sbndaq_wr.Mmio.{zero_time}
use sbndaq_wr.Dio.Device.{Driver, Channel}
use sbndaq_wr.Dio.Invariant.{IsDriver}
use sbndaq_wr.Dio.Ioctl.{Services, fresh_channel}
use sbndaq_wr.Dio.Ioctl.Safety.{fresh-IsChannel}
use sbndaq_wr.Dio.Pulse.{armed, count_down, loop_value}
use sbndaq_wr.DioCmd.State.{Text, Env}
use sbndaq_wr.Pps.{pps_channel, pps_cmd, pps_main}
use sbndaq_wr.Pps.Safety.{IsAsked, IsEnded, pps_main-Triple}

-- Any number is read as 3, and every interface is the card's.
abbrev libc : Env
libc = record {
  scan_time = λ s. record { fields = some 2; value = 1; fraction = 5 };
  scan_fraction = λ s. record { fields = some 1; value = 0; fraction = 5 };
  scan_short = λ s. record { fields = some 1; value = 1; fraction = 0 };
  scan_int = λ s. record { fields = some 1; value = 3; fraction = 0 };
  atoi = λ s. 1;
  ioctl = λ calls c. (none, c);
  socket_opens = true;
}

abbrev card : Mmio.Env
card = record { answer = λ h a. 0; set_normalized = λ s n. zero_time; timespec_add = λ a b. a }

abbrev services : Services
services = record { allocated = true; copied_in = true; copied_out = true }

abbrev driver : Driver
driver = record {
  ch = replicate 5 fresh_channel;
  hw_lock = false;
  pulse_offsets = replicate 5 0;
  t_ini = 0;
  t_end = 0;
  rate_avg = 0;
  history = [];
}

driver-IsDriver : IsDriver false driver
driver-IsDriver = record {
  channels = refl;
  offsets = refl;
  each = (
    fresh-IsChannel,
    (fresh-IsChannel, (fresh-IsChannel, (fresh-IsChannel, (fresh-IsChannel, tt)))),
  );
  lock = refl;
}

-- "3".
abbrev arguments : List Text
arguments = (51 ∷ []) ∷ []

pps_main-Triple_example :
    Ensures ⊥
      (IsEnded (IsAsked libc (λ s. true) arguments))
      (pps_main libc (λ s. true) card services arguments driver)
pps_main-Triple_example =
    (pps_main-Triple libc (λ s. true) card services arguments).at driver driver-IsDriver

asked : pps_channel libc (51 ∷ []) ≡ some 3
asked = refl

-- The count of a channel that the command arms does not go down: the pulses have no end.
abbrev beating : Channel
beating = armed 3 (loop_value (pps_cmd 3)) zero_time zero_time fresh_channel

beats_on : (count_down beating).count ≡ 2 ^ 32 - 2
beats_on = refl
