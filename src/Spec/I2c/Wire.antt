-- ===== src/Spec/I2c/Wire.antt =====
-- What the writes to the two lines mean on an I2C bus, independently of the code that makes them.
use sbndaq_wr.Base.{
  ℕ, ◌+◌, ◌*◌, ◌≡◌, List, [], ◌∷◌, Bool, true, false, not, ◌&&◌, ◌==◌, has_bits, length,
  if◌then◌else◌,
}
use sbndaq_wr.Mmio.{syscon, read, write, History, Env, u32}
use sbndaq_wr.Spec.I2c.{fmc_sda, fmc_scl}

-- A change of the data line while the clock is high is a start or a stop. A clock pulse without one is
-- a bit, as this side drives the line. A sample is what a read finds on the line.
pub data Event : Type 0 where
  start_seen stop_seen : Event
  bit_seen sample : Bool → Event

-- The lines as they are driven, whether a clock pulse is open, and the events, the latest first.
pub record Lines : Type 0 where
  pub sda : Bool
  pub scl : Bool
  pub pulse : Bool
  pub events : List Event

abbrev pub idle : List Event → Lines
idle events = record { sda = true; scl = true; pulse = false; events = events }

abbrev pub busy : List Event → Lines
busy events = record { sda = false; scl = false; pulse = false; events = events }

abbrev pub differs : Bool → Bool → Bool
differs true b = if b then false else true
differs false b = b

abbrev pub drive_sda : Bool → Lines → Lines
drive_sda new l =
    if l.scl && differs l.sda new
    then record l {
      sda = new;
      pulse = false;
      events = (if new then stop_seen else start_seen) ∷ l.events;
    }
    else record l { sda = new }

abbrev pub drive_scl : Bool → Lines → Lines
drive_scl true l = if l.scl then l else record l { scl = true; pulse = true }
drive_scl false l =
    if l.scl && l.pulse
    then record l { scl = false; pulse = false; events = bit_seen l.sda ∷ l.events }
    else record l { scl = false }

-- A write to the set register or to the clear register, of the lines whose bits are set.
abbrev pub drive : Bool → ℕ → Lines → Lines
drive new v l =
    let l' = if has_bits v fmc_sda then drive_sda new l else l in
    if has_bits v fmc_scl then drive_scl new l' else l'

-- The lines after the accesses so far.
unfoldable pub observe : Env → History → Lines
observe e [] = idle []
observe e (write (syscon reg) v ∷ h) =
    let l = observe e h in
    if reg == 4 then drive true v l else if reg == 8 then drive false v l else l
observe e (read (syscon reg) ∷ h) =
    let l = observe e h in
    if reg == 4
    then record l { events = sample (has_bits (u32 (e.answer h (syscon reg))) fmc_sda) ∷ l.events }
    else l
observe e (a ∷ h) = observe e h

-- The number that eight bits make, the first one on top.
abbrev pub value : List Bool → ℕ → ℕ
value [] acc = acc
value (b ∷ bits) acc = value bits (acc * 2 + (if b then 1 else 0))

-- The events of bits that are sent, and of bits that are received while the line is left high.
abbrev pub sent_bits : List Bool → List Event → List Event
sent_bits [] events = events
sent_bits (b ∷ bits) events = sent_bits bits (bit_seen b ∷ events)

abbrev pub received_bits : List Bool → List Event → List Event
received_bits [] events = events
received_bits (b ∷ bits) events = received_bits bits (bit_seen true ∷ sample b ∷ events)

-- What a transaction does, the latest first: a byte with its acknowledge bit low or not.
pub data Action : Type 0 where
  begin end : Action
  send : ℕ → Bool → Action
  receive : ℕ → Bool → Action

-- The events that make a list of actions.
pub data IsTrace : List Action → List Event → Type 0 where
  nothing : IsTrace [] []
  began :
      {actions : List Action} {events : List Event}
      → IsTrace actions events
      → IsTrace (begin ∷ actions) (start_seen ∷ events)
  ended :
      {actions : List Action} {events : List Event}
      → IsTrace actions events
      → IsTrace (end ∷ actions) (stop_seen ∷ events)
  sent :
      {actions : List Action} {events : List Event} (byte : ℕ) (bits : List Bool) (line : Bool)
      → length bits ≡ 8
      → value bits 0 ≡ byte
      → IsTrace actions events
      → IsTrace
          (send byte (not line) ∷ actions)
          (bit_seen true ∷ sample line ∷ sent_bits bits events)
  received :
      {actions : List Action} {events : List Event} (byte : ℕ) (bits : List Bool) (ack : Bool)
      → length bits ≡ 8
      → value bits 0 ≡ byte
      → IsTrace actions events
      → IsTrace
          (receive byte ack ∷ actions)
          (bit_seen (if ack then false else true) ∷ received_bits bits events)
