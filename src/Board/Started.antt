-- ===== src/Board/Started.antt =====
-- The first interrupt after the probing of the network card: the probing leaves what the handlers need.
use mathlib.Core.Path.{subst}
use sbndaq_wr.Base.{
  ℕ, ◌≤◌, ◌≡◌, refl, sym, ap, length, Option, none, some, Bool, true, false, arith, replicate,
  Outcome, done, fault, waiting, pure, ◌>>=◌,
}
use sbndaq_wr.Base.Triples.{Ensures, returns, blocks, Triple, Triple-bind, Triple-pure}
use sbndaq_wr.Mmio.{Env, History}
use sbndaq_wr.Dio.Invariant.{IsDriver}
use sbndaq_wr.Dio.Irq.{IrqReturn}
use sbndaq_wr.Dio.Irq.Safety.{ClockMoves, Moves}
use sbndaq_wr.Nic.Completion.{HasHead}
use sbndaq_wr.Nic.Endpoint.{Registered}
use sbndaq_wr.Nic.Probe.{Pdev, D, region, ProbeReturn, ready, enomem, enodev, other, wrn_probe}
use sbndaq_wr.Nic.Probe.Views.{Net, Mezzanine, net, mezzanine, View, Shows}
use sbndaq_wr.Nic.Probe.Steps.{left_by, wrn_probe-Shows}
use sbndaq_wr.Nic.Probe.Ready.{IsBlank, blank-Shows, IsQueued-Shows, IsDriver-Shows}
use sbndaq_wr.Nic.Queue.{IsUntagged}
use sbndaq_wr.Nic.State.{nr_desc}
use sbndaq_wr.Board.{B, Board, wrn_handler}
use sbndaq_wr.Board.Safety.{IsDone, wrn_handler-Triple}

-- The board of a platform device that is there, with the accesses so far that are not its own.
abbrev board : History → Pdev → Board
board h p = record {
  registered = true;
  txtsu_regs = p.shortcuts;
  wrn = p.wrn;
  dio = p.dio;
  history = h;
}

unfoldable pub on_board : {A : Type 0} → History → B A → D A
on_board h m p = elim (m (board h p)) [
  | done a b ↦ done a (record p { wrn = b.wrn; dio = b.dio })
  | fault ↦ fault
  | waiting ↦ waiting
]

-- The interrupt, if the probing has succeeded.
abbrev interrupt_if : History → B IrqReturn → ProbeReturn → D (Option IrqReturn)
interrupt_if h m ready = on_board h m >>= λ ret. pure (some ret)
interrupt_if h m enomem = pure none
interrupt_if h m enodev = pure none
interrupt_if h m other = pure none

abbrev pub Handled : Option IrqReturn → Pdev → Type 0
Handled none p = Unit
Handled (some ret) p = HasHead 0 p.wrn × IsDriver false p.dio

board-Ensures :
    {A : Type 0} (p : Pdev) (o : Outcome Board A)
    → Ensures (Unit {0}) (λ _. IsDone 0) o
    → Ensures
        (Unit {0})
        (λ (a : A) (p : Pdev). HasHead 0 p.wrn × IsDriver false p.dio)
        (elim o [
          | done a b ↦ done a (record p { wrn = b.wrn; dio = b.dio })
          | fault ↦ fault
          | waiting ↦ waiting
        ])
board-Ensures p (done a b) (returns i) = returns (i.good.wrn, i.good.dio)
board-Ensures p fault h = elim h [ ]
board-Ensures p waiting (blocks w) = blocks w

module _ (e : Env) (h : History) (fuel_nic fuel_dio : ℕ) (eeprom : Bool) (started ended : ℕ) where
  -- The probing with everything there but perhaps an endpoint or its registration, and then an interrupt if it succeeded.
  unfoldable pub probe_and_interrupt : Registered → D (Option IrqReturn)
  unfolding on_board
  probe_and_interrupt r =
      wrn_probe e (replicate 4 (region true)) true r true
      >>= interrupt_if h (wrn_handler e fuel_nic fuel_dio eeprom started ended)

  interrupted :
      (n : ℕ) (q : Net) (m : Mezzanine)
      → nr_desc ≤ fuel_nic
      → length q.descs ≡ nr_desc
      → IsUntagged q.descs
      → length m.offsets ≡ 5
      → Moves started m.begun m.last
      → Triple
          (Unit {0})
          (Shows (left_by ready true n q m))
          (on_board h (wrn_handler e fuel_nic fuel_dio eeprom started ended))
          (λ _ p. HasHead 0 p.wrn × IsDriver false p.dio)
  unfolding on_board
  interrupted n q m enough table untagged offsets clock = record {
    at = λ p i. board-Ensures p (wrn_handler e fuel_nic fuel_dio eeprom started ended (board h p)) (
        (wrn_handler-Triple e 0 fuel_nic fuel_dio eeprom started ended (omega arith) enough).at
          (board h p)
          (record {
            good = record {
              wrn = (0, IsQueued-Shows p q table untagged (ap (λ (x : View). x.queue) i.is));
              dio = IsDriver-Shows p m true offsets (ap (λ (x : View). x.dio) i.is) refl;
            };
            clock = subst (λ (x : View). Moves started x.dio.begun x.dio.last) (sym i.is) clock;
          }));
  }

  handled :
      (n : ℕ) (q : Net) (m : Mezzanine) (r : ProbeReturn)
      → nr_desc ≤ fuel_nic
      → length q.descs ≡ nr_desc
      → IsUntagged q.descs
      → length m.offsets ≡ 5
      → Moves started m.begun m.last
      → Triple
          (Unit {0})
          (Shows (left_by r true n q m))
          (interrupt_if h (wrn_handler e fuel_nic fuel_dio eeprom started ended) r)
          Handled
  handled n q m ready enough table untagged offsets clock =
      Triple-bind (interrupted n q m enough table untagged offsets clock)
        λ ret. Triple-pure (some ret) (λ p i. i)
  handled n q m enomem enough table untagged offsets clock = Triple-pure none (λ p i. tt)
  handled n q m enodev enough table untagged offsets clock = Triple-pure none (λ p i. tt)
  handled n q m other enough table untagged offsets clock = Triple-pure none (λ p i. tt)

  -- If the probing of a card with everything there succeeds, an interrupt of the card that follows it faults
  -- nowhere, whatever its vector is, for at least eight rounds for the sent frames, a clock that has moved since the
  -- last one of the mezzanine, and a load of that one that is not the least `int` over -1. If it returns, the queue of frames to send has its head at descriptor 0
  -- still, and the mezzanine driver is in a good state with its lock free.
  pub probe_and_interrupt-Triple :
      (r : Registered) (n : ℕ) (p : Pdev)
      → nr_desc ≤ fuel_nic
      → IsBlank n p
      → ClockMoves started p.dio
      → Ensures (Unit {0}) Handled (probe_and_interrupt r p)
  unfolding probe_and_interrupt
  probe_and_interrupt-Triple r n p enough i clock =
      (Triple-bind (wrn_probe-Shows n (net p.wrn) (mezzanine p.dio) e r true) λ ret.
          handled n (net p.wrn) (mezzanine p.dio) ret enough i.table i.untagged i.offsets clock).at
        p (blank-Shows i)
