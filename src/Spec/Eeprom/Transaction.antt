-- ===== src/Spec/Eeprom/Transaction.antt =====
-- The accesses of spec-i2c.c to the EEPROM, as transactions on the bus.
use sbndaq_wr.Base.{
  ℕ, zero, suc, ◌+◌, ◌*◌, ◌<◌, ◌≡◌, refl, ap, List, [], ◌∷◌, Option, none, some, Bool, true, false,
  not, arith, length, ◌==◌,
}
use sbndaq_wr.Base.Triples.{Triple, blocks, Triple-bind, Triple-pure, Triple-given, Triple-split}
use sbndaq_wr.Mmio.{Env}
use sbndaq_wr.Spec.I2c.{Fmc}
use sbndaq_wr.Spec.I2c.Wire.{Action, begin, end, send, receive}
use sbndaq_wr.Spec.I2c.Bytes.{
  IsIdle, IsBusy, mi2c_start-Triple, mi2c_stop-Triple, mi2c_put_byte-Triple, mi2c_get_byte-Triple,
}
use sbndaq_wr.Spec.Eeprom.{read_bytes, read_from, wait_ready, write_byte, high_byte, low_byte}

-- Bytes that are received: the last one is not acknowledged.
abbrev pub receive_all : List ℕ → List Action → List Action
receive_all [] actions = actions
receive_all (b ∷ bytes) actions = receive_all bytes (receive b (not (length bytes == 0)) ∷ actions)

-- The address of the device for a write, and the place in its memory.
abbrev pub address : ℕ → ℕ → Bool → Bool → List Action → List Action
address addr offset high low actions =
    send (low_byte offset) low
    ∷ send (high_byte offset) high
    ∷ send (addr * 2) true
    ∷ begin
    ∷ actions

-- Nobody answered.
abbrev pub unanswered : ℕ → List Action → List Action
unanswered addr actions = end ∷ send (addr * 2) false ∷ begin ∷ actions

-- A read transaction with its result.
abbrev pub IsReadFrom : Env → ℕ → ℕ → ℕ → List Action → Option (List ℕ) → Fmc → Type 0
IsReadFrom e addr offset size actions none f = IsIdle e (unanswered addr actions) f
IsReadFrom e addr offset size actions (some bytes) f =
    (length bytes ≡ size)
    × (high : Bool) × (low : Bool) × (again : Bool) × IsIdle e
        (end
          ∷ receive_all bytes
              (send (addr * 2 + 1) again ∷ begin ∷ end ∷ address addr offset high low actions))
        f

-- What a loop of reads received.
abbrev HasReceived : Env → ℕ → List Action → List ℕ → Fmc → Type 0
HasReceived e size actions bytes f = (length bytes ≡ size) × IsBusy e (receive_all bytes actions) f

same_ack : (b : ℕ) (size n : ℕ) → n ≡ size → (n == 0) ≡ (size == 0)
same_ack b size n h = ap (λ (x : ℕ). x == 0) h

module _ {W : Type 0} (e : Env) where
  read_bytes-Triple :
      (size : ℕ) (actions : List Action)
      → Triple W (IsBusy e actions) (read_bytes e size) (HasReceived e size actions)
  unfolding read_bytes
  read_bytes-Triple zero actions = Triple-pure [] (λ f b. (refl, b))
  read_bytes-Triple (suc size) actions =
      Triple-bind (mi2c_get_byte-Triple e (not (size == 0)) actions) λ c.
        Triple-bind (read_bytes-Triple size (receive c (not (size == 0)) ∷ actions))
          λ rest. Triple-pure (c ∷ rest) (λ f (n, b). (ap suc n, rw n b))

  -- A read of the EEPROM is one transaction that sets the place and one that receives the bytes, the
  -- last of them not acknowledged; if the device does not answer, it is its address alone.
  pub read_from-Triple :
      (addr offset size : ℕ) (actions : List Action)
      → addr < 128
      → Triple W
          (IsIdle e actions)
          (read_from e addr offset size)
          (IsReadFrom e addr offset size actions)
  unfolding read_from
  read_from-Triple addr offset size actions small = Triple-bind (mi2c_start-Triple e actions) λ _.
      Triple-bind (mi2c_put_byte-Triple e (addr * 2) (begin ∷ actions) (omega arith)) λ found.
        Triple-split (λ b. IsBusy e (send (addr * 2) b ∷ begin ∷ actions)) found
          (Triple-bind
            (mi2c_put_byte-Triple e (high_byte offset) (send (addr * 2) true ∷ begin ∷ actions)
              (omega arith))
            λ high.
              Triple-bind
                (mi2c_put_byte-Triple e (low_byte offset)
                  (send (high_byte offset) high ∷ send (addr * 2) true ∷ begin ∷ actions)
                  (omega arith))
                λ low.
                  let placed = address addr offset high low actions in
                  Triple-bind (mi2c_stop-Triple e placed) λ _.
                    Triple-bind (mi2c_start-Triple e (end ∷ placed)) λ _.
                      Triple-bind
                        (mi2c_put_byte-Triple e (addr * 2 + 1) (begin ∷ end ∷ placed) (omega arith))
                        λ again.
                          let asked = send (addr * 2 + 1) again ∷ begin ∷ end ∷ placed in
                          Triple-bind (read_bytes-Triple size asked) λ bytes. Triple-given λ n.
                            Triple-bind (mi2c_stop-Triple e (receive_all bytes asked))
                              λ _. Triple-pure (some bytes) (λ f b. (n, high, low, again, b)))
          (Triple-bind (mi2c_stop-Triple e (send (addr * 2) false ∷ begin ∷ actions))
            λ _. Triple-pure none (λ f b. b))

-- The polls after a write: the device is asked until it answers.
pub data IsPolled (addr : ℕ) (base : List Action) : List Action → Type 0 where
  unpolled : IsPolled addr base base
  refused_poll :
      {actions : List Action}
      → IsPolled addr base actions
      → IsPolled addr base (unanswered addr actions)

-- A write transaction for one byte, with its result.
abbrev pub IsWritten : Env → ℕ → ℕ → ℕ → List Action → Bool → Fmc → Type 0
IsWritten e addr offset byte actions false f = IsIdle e (unanswered addr actions) f
IsWritten e addr offset byte actions true f =
    (high : Bool) × (low : Bool) × (stored : Bool) × (polls : List Action) × IsPolled addr
      (end ∷ send byte stored ∷ address addr offset high low actions) polls
    × IsIdle e (end ∷ send (addr * 2) true ∷ begin ∷ polls) f

IsReady : Env → ℕ → List Action → Fmc → Type 0
IsReady e addr base f =
    (polls : List Action) × IsPolled addr base polls
    × IsIdle e (end ∷ send (addr * 2) true ∷ begin ∷ polls) f

module _ (e : Env) where
  wait_ready-Triple :
      (fuel addr : ℕ) (base polls : List Action)
      → addr < 128
      → IsPolled addr base polls
      → Triple (Unit {0}) (IsIdle e polls) (wait_ready e fuel addr) (λ _. IsReady e addr base)
  unfolding wait_ready IsReady
  wait_ready-Triple zero addr base polls small p = record { at = λ f h. blocks tt }
  wait_ready-Triple (suc fuel) addr base polls small p =
      Triple-bind (mi2c_start-Triple e polls) λ _.
        Triple-bind (mi2c_put_byte-Triple e (addr * 2) (begin ∷ polls) (omega arith)) λ ready.
          Triple-bind (mi2c_stop-Triple e (send (addr * 2) ready ∷ begin ∷ polls)) λ _.
            Triple-split (λ b. IsIdle e (end ∷ send (addr * 2) b ∷ begin ∷ polls)) ready
              (Triple-pure tt (λ f h. (polls, p, h)))
              (wait_ready-Triple fuel addr base (unanswered addr polls) small (refused_poll p))

  -- A byte is written by one transaction that sends the place and the byte, and then the device is asked
  -- until it answers; if it does not answer to the write, that is its address alone.
  pub write_byte-Triple :
      (fuel addr offset byte : ℕ) (actions : List Action)
      → addr < 128
      → byte < 256
      → Triple
          (Unit {0})
          (IsIdle e actions)
          (write_byte e fuel addr offset byte)
          (IsWritten e addr offset byte actions)
  unfolding write_byte IsReady
  write_byte-Triple fuel addr offset byte actions small fits =
      Triple-bind (mi2c_start-Triple e actions) λ _.
        Triple-bind (mi2c_put_byte-Triple e (addr * 2) (begin ∷ actions) (omega arith)) λ found.
          Triple-split (λ b. IsBusy e (send (addr * 2) b ∷ begin ∷ actions)) found
            (Triple-bind
              (mi2c_put_byte-Triple e (high_byte offset) (send (addr * 2) true ∷ begin ∷ actions)
                (omega arith))
              λ high.
                Triple-bind
                  (mi2c_put_byte-Triple e (low_byte offset)
                    (send (high_byte offset) high ∷ send (addr * 2) true ∷ begin ∷ actions)
                    (omega arith))
                  λ low.
                    Triple-bind
                      (mi2c_put_byte-Triple e byte (address addr offset high low actions) fits)
                      λ stored.
                        let base = end ∷ send byte stored ∷ address addr offset high low actions in
                        Triple-bind
                          (mi2c_stop-Triple e
                            (send byte stored ∷ address addr offset high low actions))
                          λ _.
                            Triple-bind (wait_ready-Triple fuel addr base base small unpolled) λ _.
                              Triple-pure true
                                (λ f (polls, p, h). (high, low, stored, polls, p, h)))
            (Triple-bind (mi2c_stop-Triple e (send (addr * 2) false ∷ begin ∷ actions))
              λ _. Triple-pure false (λ f h. h))
