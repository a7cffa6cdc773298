-- ===== src/Board.antt =====
-- The interrupts of the whole card: `wrn_handler`, `wrn_vic_init` and `wrn_vic_exit` of wr-nic-eth.c, with `spec_irq_ack` of
-- spec-fmc.c.
pub mod Safety
pub mod Started
mod Tests
use sbndaq_wr.Base.{
  ℕ, ◌+◌, ◌*◌, ◌/◌, ◌^◌, List, ◌∷◌, Bool, true, false, Program, Outcome, done, fault, waiting, pure,
  ◌>>=◌, ◌>>◌, ◌==◌, if◌then◌else◌,
}
use sbndaq_wr.Mmio.{Addr, vic, gennum, read, write, History, Env, u32}
use sbndaq_wr.Dio.Device.{Driver, M}
use sbndaq_wr.Dio.Irq
use sbndaq_wr.Dio.Irq.{IrqReturn, irq_handled}
use sbndaq_wr.Nic.State.{Wrn, N}
use sbndaq_wr.Nic.Interrupt
use sbndaq_wr.Nic.Stamps.{tstamp_interrupt}

-- The two drivers, whether the platform device and `txtsu_regs` are there, and all accesses to the
-- card: each driver goes on with the history of the board.
pub record Board : Type 0 where
  pub registered : Bool
  pub txtsu_regs : Bool
  pub wrn : Wrn
  pub dio : Driver
  pub history : History

abbrev pub B : Type 0 → Type 0
B A = Program Board A

-- `WRN_VIC_ID_TXTSU`, `WRN_VIC_ID_NIC` and `WRN_VIC_ID_DIO`, and their masks.
abbrev pub vic_id_txtsu : ℕ
vic_id_txtsu = 0

abbrev pub vic_id_nic : ℕ
vic_id_nic = 1

abbrev pub vic_id_dio : ℕ
vic_id_dio = 2

abbrev all_mask : ℕ
all_mask = 2 ^ vic_id_nic + 2 ^ vic_id_txtsu + 2 ^ vic_id_dio

-- The registers of `struct VIC_WB`, and `GNGPIO_INT_STATUS`.
abbrev ctl_reg : Addr
ctl_reg = vic 0x00

abbrev ier_reg : Addr
ier_reg = vic 0x08

abbrev idr_reg : Addr
idr_reg = vic 0x0c

abbrev pub var_reg : Addr
var_reg = vic 0x14

abbrev pub eoir_reg : Addr
eoir_reg = vic 0x1c

abbrev ivt_ram : ℕ → Addr
ivt_ram i = vic (0x80 + 4 * i)

abbrev pub int_status : Addr
int_status = gennum 0xa20

-- `VIC_CTL_ENABLE`, `VIC_CTL_POL`, `VIC_CTL_EMU_EDGE` and `VIC_CTL_EMU_LEN_W(4000 / 16)`.
abbrev ctl_pol : ℕ
ctl_pol = 2 ^ 1

abbrev ctl_value : ℕ
ctl_value = 2 ^ 0 + ctl_pol + 2 ^ 2 + 4000 / 16 * 2 ^ 3

abbrev pub board_readl : Env → Addr → B ℕ
board_readl e a b = done (u32 (e.answer b.history a)) (record b { history = read a ∷ b.history })

abbrev pub board_writel : ℕ → Addr → B (Unit {0})
board_writel v a b = done tt (record b { history = write a (u32 v) ∷ b.history })

-- A function of one of the two drivers.
unfoldable pub on_wrn : {A : Type 0} → N A → B A
on_wrn m b = elim (m (record b.wrn { history = b.history })) [
  | done a w ↦ done a (record b { wrn = w; history = w.history })
  | fault ↦ fault
  | waiting ↦ waiting
]

unfoldable pub on_dio : {A : Type 0} → M A → B A
on_dio m b = elim (m (record b.dio { history = b.history })) [
  | done a d ↦ done a (record b { dio = d; history = d.history })
  | fault ↦ fault
  | waiting ↦ waiting
]

unfoldable pub has_txtsu : B Bool
has_txtsu b = done b.txtsu_regs b

unfoldable pub is_registered : B Bool
is_registered b = done b.registered b

module _ (e : Env) where
  -- `spec_irq_ack`.
  unfoldable pub irq_ack : B (Unit {0})
  irq_ack = board_readl e int_status >>= λ _. pure tt

  -- The handler that a vector stands for, with the fuel of each, and for the mezzanine its EEPROM and the clock.
  unfoldable pub handle : ℕ → ℕ → Bool → ℕ → ℕ → ℕ → B IrqReturn
  unfolding on_wrn on_dio has_txtsu
  handle fuel_nic fuel_dio eeprom started ended vector =
      if vector == vic_id_nic
      then (on_wrn (Interrupt.interrupt e fuel_nic) >> pure irq_handled)
      else if vector == vic_id_txtsu
      then (has_txtsu >>= λ mapped. on_wrn (tstamp_interrupt e mapped))
      else if vector == vic_id_dio
      then on_dio (Irq.interrupt e fuel_dio eeprom started ended)
      else pure irq_handled

  -- `wrn_handler`.
  unfoldable pub wrn_handler : ℕ → ℕ → Bool → ℕ → ℕ → B IrqReturn
  unfolding handle irq_ack is_registered
  wrn_handler fuel_nic fuel_dio eeprom started ended = do
    there ← is_registered
    if there
        then (do
          vector ← board_readl e var_reg
          ret ← handle fuel_nic fuel_dio eeprom started ended vector
          irq_ack
          board_writel 0 eoir_reg
          pure ret)
        else (irq_ack >> pure irq_handled)

-- `wrn_vic_init` and `wrn_vic_exit`.
unfoldable pub vic_init : B (Unit {0})
vic_init = do
  board_writel vic_id_txtsu (ivt_ram vic_id_txtsu)
  board_writel vic_id_nic (ivt_ram vic_id_nic)
  board_writel vic_id_dio (ivt_ram vic_id_dio)
  board_writel ctl_value ctl_reg
  board_writel all_mask ier_reg

unfoldable pub vic_exit : B (Unit {0})
vic_exit = do board_writel 0xff idr_reg; board_writel ctl_pol ctl_reg
