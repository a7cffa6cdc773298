-- ===== src/Spec/I2c/Bytes.antt =====
-- The functions of spec-i2c.c against the bus: each makes the events of one action.
use mathlib.Core.Path.{subst}
use sbndaq_wr.Base.{
  ℕ, zero, suc, ◌+◌, ◌*◌, ◌%◌, ◌^◌, ◌<◌, ◌≤◌, ◌≡◌, ◌∙◌, refl, sym, ap, List, [], ◌∷◌, Bool, true,
  false, not, arith, length, has_bits, if◌then◌else◌, bit_or, holds_from, holds_from_lookup, ◌==◌,
  ==_iff,
}
use sbndaq_wr.Base.Triples.{Triple, returns, Triple-bind, Triple-pure, Triple-post}
use sbndaq_wr.Base.Bits.{bit_or-one}
use sbndaq_wr.Mmio.{Env, u32}
use sbndaq_wr.Spec.I2c.{
  Fmc, F, set_sda, set_scl, mi2c_start, mi2c_stop, put_bits, get_sda, mi2c_put_byte, get_bits,
  mi2c_get_byte, fmc_sda, gpsr,
}
use sbndaq_wr.Spec.I2c.Wire.{
  Event, start_seen, stop_seen, bit_seen, sample, Lines, idle, busy, drive_sda, drive_scl, observe,
  value, sent_bits, received_bits, Action, begin, end, send, receive, IsTrace, began, ended, sent,
  received,
}

-- The lines are like this.
abbrev pub HasLines : Env → Lines → Fmc → Type 0
HasLines e l f = observe e f.history ≡ l

-- The bus between transactions, and within one, after these actions.
abbrev pub IsIdle : Env → List Action → Fmc → Type 0
IsIdle e actions f = (events : List Event) × HasLines e (idle events) f × IsTrace actions events

abbrev pub IsBusy : Env → List Action → Fmc → Type 0
IsBusy e actions f = (events : List Event) × HasLines e (busy events) f × IsTrace actions events

module _ {W : Type 0} (e : Env) where
  set_sda-Triple :
      (b : Bool) (l : Lines) → Triple W (HasLines e l) (set_sda b) (λ _. HasLines e (drive_sda b l))
  unfolding set_sda observe
  set_sda-Triple true l = record { at = λ f h. returns (ap (drive_sda true) h) }
  set_sda-Triple false l = record { at = λ f h. returns (ap (drive_sda false) h) }

  set_scl-Triple :
      (b : Bool) (l : Lines) → Triple W (HasLines e l) (set_scl b) (λ _. HasLines e (drive_scl b l))
  unfolding set_scl observe
  set_scl-Triple true l = record { at = λ f h. returns (ap (drive_scl true) h) }
  set_scl-Triple false l = record { at = λ f h. returns (ap (drive_scl false) h) }

  get_sda-Triple :
      (l : Lines)
      → Triple W
          (HasLines e l)
          (get_sda e)
          (λ b. HasLines e (record l { events = sample b ∷ l.events }))
  unfolding get_sda observe
  get_sda-Triple l = record {
    at = λ f h. returns (
        ap
          (λ (x : Lines). record x {
            events = sample (has_bits (u32 (e.answer f.history gpsr)) fmc_sda) ∷ x.events;
          })
          h);
  }

-- With the clock low, and either level of the data line.
abbrev low : Bool → List Event → Lines
low s events = record { sda = s; scl = false; pulse = false; events = events }

abbrev IsLow : Env → List Event → Fmc → Type 0
IsLow e events f = (s : Bool) × HasLines e (low s events) f

-- The bits that the loop of `mi2c_put_byte` sends.
abbrev wire_bits : ℕ → ℕ → List Bool
wire_bits zero byte = []
wire_bits (suc rounds) byte = has_bits byte 0x80 ∷ wire_bits rounds (byte * 2)

-- They make the byte.
wire_table : holds_from (λ byte. value (wire_bits 8 byte) 0 == byte) 0 256 ≡ true
unfolding holds_from
wire_table = refl

value-wire_bits : (byte : ℕ) → byte < 256 → value (wire_bits 8 byte) 0 ≡ byte
value-wire_bits byte small = (==_iff (value (wire_bits 8 byte) 0) byte).0 (
    holds_from_lookup (λ byte. value (wire_bits 8 byte) 0 == byte) 0 256 (omega arith) (omega arith)
      wire_table)

module _ {W : Type 0} (e : Env) where
  put_bits-Triple :
      (rounds byte : ℕ) (s : Bool) (events : List Event)
      → Triple W
          (HasLines e (low s events))
          (put_bits rounds byte)
          (λ _. IsLow e (sent_bits (wire_bits rounds byte) events))
  unfolding put_bits
  put_bits-Triple zero byte s events = Triple-pure tt (λ f h. (s, h))
  put_bits-Triple (suc rounds) byte s events =
      Triple-bind (set_sda-Triple e (has_bits byte 0x80) (low s events)) λ _.
        Triple-bind (set_scl-Triple e true (low (has_bits byte 0x80) events)) λ _.
          Triple-bind
            (set_scl-Triple e false
              (record { sda = has_bits byte 0x80; scl = true; pulse = true; events = events }))
            λ _.
              put_bits-Triple rounds (byte * 2) (has_bits byte 0x80)
                (bit_seen (has_bits byte 0x80) ∷ events)

  -- From any level of the data line.
  from_low :
      {A : Type 0} {m : F A} {Q : A → Fmc → Type 0} (events : List Event)
      → ((s : Bool) → Triple W (HasLines e (low s events)) m Q)
      → Triple W (IsLow e events) m Q
  from_low events k = record { at = λ f p. (k p.0).at f p.1 }

  from_trace :
      {A : Type 0} {m : F A} {Q : A → Fmc → Type 0} (line : List Event → Lines)
      {actions : List Action}
      → ((events : List Event) → IsTrace actions events → Triple W (HasLines e (line events)) m Q)
      → Triple W
          (λ f. (events : List Event) × HasLines e (line events) f × IsTrace actions events)
          m
          Q
  from_trace line k = record { at = λ f p. (k p.0 p.2).at f p.1 }

  -- A start, from an idle bus.
  pub mi2c_start-Triple :
      (actions : List Action)
      → Triple W (IsIdle e actions) mi2c_start (λ _. IsBusy e (begin ∷ actions))
  unfolding mi2c_start
  mi2c_start-Triple actions = from_trace idle λ events t.
      Triple-bind (set_sda-Triple e false (idle events)) λ _.
        Triple-post (λ _ f h. (start_seen ∷ events, h, began t))
          (set_scl-Triple e false
            (record { sda = false; scl = true; pulse = false; events = start_seen ∷ events }))

  -- A stop, which leaves the bus idle.
  pub mi2c_stop-Triple :
      (actions : List Action)
      → Triple W (IsBusy e actions) mi2c_stop (λ _. IsIdle e (end ∷ actions))
  unfolding mi2c_stop
  mi2c_stop-Triple actions = from_trace busy λ events t.
      Triple-bind
        (Triple-bind (set_sda-Triple e false (busy events))
          λ _. set_scl-Triple e true (low false events))
        λ _.
          Triple-post (λ _ f h. (stop_seen ∷ events, h, ended t))
            (set_sda-Triple e true
              (record { sda = false; scl = true; pulse = true; events = events }))

  -- Within a transaction, a byte is sent by eight clock pulses with its bits, the top one first, and a
  -- ninth with the line left high; the result is whether the line was low when it was read in that one.
  pub mi2c_put_byte-Triple :
      (byte : ℕ) (actions : List Action)
      → byte < 256
      → Triple W
          (IsBusy e actions)
          (mi2c_put_byte e byte)
          (λ ack. IsBusy e (send byte ack ∷ actions))
  unfolding mi2c_put_byte
  mi2c_put_byte-Triple byte actions small = from_trace busy λ events t.
      Triple-bind (put_bits-Triple 8 byte false events) λ _.
        let out = sent_bits (wire_bits 8 byte) events in
        from_low out λ s. Triple-bind (set_sda-Triple e true (low s out)) λ _.
          Triple-bind (set_scl-Triple e true (low true out)) λ _.
            Triple-bind
              (get_sda-Triple e (record { sda = true; scl = true; pulse = true; events = out }))
              λ line.
                Triple-bind
                  (set_scl-Triple e false
                    (record { sda = true; scl = true; pulse = true; events = sample line ∷ out }))
                  λ _.
                    Triple-bind
                      (set_sda-Triple e false (low true (bit_seen true ∷ sample line ∷ out)))
                      λ _. Triple-pure (not line) (λ f h. (
                        bit_seen true ∷ sample line ∷ out,
                        h,
                        sent byte (wire_bits 8 byte) line refl (value-wire_bits byte small) t,
                      ))

-- What the loop of `mi2c_get_byte` has read.
abbrev HasRead : Env → ℕ → ℕ → List Event → ℕ → Fmc → Type 0
HasRead e rounds acc events read_value f =
    (bits : List Bool) × (length bits ≡ rounds)
    × (value bits acc ≡ read_value)
    × HasLines e (low true (received_bits bits events)) f

shifted :
    (sda : Bool) (acc : ℕ)
    → (if sda then bit_or (acc * 2) 1 else acc * 2) ≡ acc * 2 + (if sda then 1 else 0)
shifted true acc = bit_or-one (acc * 2) (omega arith)
shifted false acc = omega arith

module _ {W : Type 0} (e : Env) where
  get_bits-Triple :
      (rounds acc : ℕ) (events : List Event)
      → Triple W
          (HasLines e (low true events))
          (get_bits e rounds acc)
          (HasRead e rounds acc events)
  unfolding get_bits
  get_bits-Triple zero acc events = Triple-pure acc (λ f h. ([], refl, refl, h))
  get_bits-Triple (suc rounds) acc events =
      Triple-bind (set_scl-Triple e true (low true events)) λ _.
        Triple-bind
          (get_sda-Triple e (record { sda = true; scl = true; pulse = true; events = events }))
          λ b.
            Triple-bind
              (set_scl-Triple e false
                (record { sda = true; scl = true; pulse = true; events = sample b ∷ events }))
              λ _.
                Triple-post
                  (λ r f (bits, n, v, h).
                    (b ∷ bits, ap suc n, ap (value bits) (sym (shifted b acc)) ∙ v, h))
                  (get_bits-Triple rounds (if b then bit_or (acc * 2) 1 else acc * 2)
                    (bit_seen true ∷ sample b ∷ events))

-- Doubling, and the bound that it gives for a number of so many bits.
doubled : ℕ → ℕ → ℕ
doubled zero x = x
doubled (suc n) x = doubled n (x * 2)

doubled_mono : (n x y : ℕ) → x ≤ y → doubled n x ≤ doubled n y
unfolding doubled
doubled_mono zero x y h = h
doubled_mono (suc n) x y h = doubled_mono n (x * 2) (y * 2) (omega arith)

bit_below : (b : Bool) (acc : ℕ) → acc * 2 + (if b then 1 else 0) + 1 ≤ (acc + 1) * 2
bit_below true acc = omega arith
bit_below false acc = omega arith

value_below : (bits : List Bool) (acc : ℕ) → value bits acc + 1 ≤ doubled (length bits) (acc + 1)
unfolding doubled
value_below [] acc = omega arith
value_below (b ∷ bits) acc = omega (
  arith,
  value_below bits (acc * 2 + (if b then 1 else 0)),
  doubled_mono (length bits) (acc * 2 + (if b then 1 else 0) + 1) ((acc + 1) * 2) (bit_below b acc),
)

byte_below : (bits : List Bool) → length bits ≡ 8 → value bits 0 < 256
unfolding doubled
byte_below bits e =
    let h : value bits 0 + 1 ≤ doubled 8 1 =
      subst (λ n. value bits 0 + 1 ≤ doubled n 1) e (value_below bits 0) in
    omega arith

read_small :
    (bits : List Bool) {r : ℕ} → length bits ≡ 8 → value bits 0 ≡ r → value bits 0 ≡ r % 2 ^ 8
read_small bits n v = omega (arith, byte_below bits n, v)

module _ {W : Type 0} (e : Env) where
  from_read :
      {A : Type 0} {m : F A} {Q : A → Fmc → Type 0} {events : List Event} (r : ℕ)
      → ((bits : List Bool)
          → length bits ≡ 8
          → value bits 0 ≡ r
          → Triple W (HasLines e (low true (received_bits bits events))) m Q)
      → Triple W (HasRead e 8 0 events r) m Q
  from_read r k = record { at = λ f (bits, n, v, h). (k bits n v).at f h }

  -- Within a transaction, a byte is received by eight clock pulses with the line left high and one read in
  -- each, which give its bits, the top one first; a ninth pulse has the acknowledge bit that was asked for.
  pub mi2c_get_byte-Triple :
      (ack : Bool) (actions : List Action)
      → Triple W
          (IsBusy e actions)
          (mi2c_get_byte e ack)
          (λ byte. IsBusy e (receive byte ack ∷ actions))
  unfolding mi2c_get_byte
  mi2c_get_byte-Triple ack actions = from_trace e busy λ events t.
      Triple-bind (set_scl-Triple e false (busy events)) λ _.
        Triple-bind (set_sda-Triple e true (busy events)) λ _.
          Triple-bind (get_bits-Triple e 8 0 events) λ r. from_read r λ bits n v.
            let out = received_bits bits events in
            let nack = if ack then false else true in
            Triple-bind (set_sda-Triple e nack (low true out)) λ _.
              Triple-bind (set_scl-Triple e true (low nack out)) λ _.
                Triple-bind
                  (set_scl-Triple e false
                    (record { sda = nack; scl = true; pulse = true; events = out }))
                  λ _. Triple-bind (set_sda-Triple e false (low nack (bit_seen nack ∷ out))) λ _.
                    Triple-pure (r % 2 ^ 8) (λ f h. (
                      bit_seen nack ∷ out,
                      h,
                      received (r % 2 ^ 8) bits ack n (read_small bits n v) t,
                    ))
