-- ===== src/Dio/Device.antt =====
-- The state of wr-nic-dio.c and the command of wr-dio.h: constants, channels, register map.
use sbndaq_wr.Base.{
  none, some, fault, ℕ, ◌*◌, ◌^◌, List, [], ◌∷◌, Bool, true, false, get_elem?, set, Program,
  Outcome, done, pure, stop, checked, ltb, if◌then◌else◌,
}
use sbndaq_wr.Mmio.{Addr, read, write, History, Timespec, Env, u32, dio}

abbrev pub buffer_len : ℕ
buffer_len = 512

abbrev pub n_stamp : ℕ
n_stamp = 16

-- `struct regmap`: the registers of one channel.
pub record Regmap : Type 0 where
  pub trig_l : Addr
  pub trig_h : Addr
  pub cycle : Addr
  pub pulse : Addr
  pub fifo_tai_l : Addr
  pub fifo_tai_h : Addr
  pub fifo_cycle : Addr
  pub fifo_status : Addr

-- The table `regmap`, with the offsets of `struct DIO_WB`.
abbrev pub regmap : List Regmap
regmap =
    record {
      trig_l = dio 0x00;
      trig_h = dio 0x04;
      cycle = dio 0x08;
      pulse = dio 0x48;
      fifo_tai_l = dio 0x70;
      fifo_tai_h = dio 0x74;
      fifo_cycle = dio 0x78;
      fifo_status = dio 0x7c;
    }
    ∷ record {
      trig_l = dio 0x0c;
      trig_h = dio 0x10;
      cycle = dio 0x14;
      pulse = dio 0x4c;
      fifo_tai_l = dio 0x80;
      fifo_tai_h = dio 0x84;
      fifo_cycle = dio 0x88;
      fifo_status = dio 0x8c;
    }
    ∷ record {
      trig_l = dio 0x18;
      trig_h = dio 0x1c;
      cycle = dio 0x20;
      pulse = dio 0x50;
      fifo_tai_l = dio 0x90;
      fifo_tai_h = dio 0x94;
      fifo_cycle = dio 0x98;
      fifo_status = dio 0x9c;
    }
    ∷ record {
      trig_l = dio 0x24;
      trig_h = dio 0x28;
      cycle = dio 0x2c;
      pulse = dio 0x54;
      fifo_tai_l = dio 0xa0;
      fifo_tai_h = dio 0xa4;
      fifo_cycle = dio 0xa8;
      fifo_status = dio 0xac;
    }
    ∷ record {
      trig_l = dio 0x30;
      trig_h = dio 0x34;
      cycle = dio 0x38;
      pulse = dio 0x58;
      fifo_tai_l = dio 0xb0;
      fifo_tai_h = dio 0xb4;
      fifo_cycle = dio 0xb8;
      fifo_status = dio 0xbc;
    }
    ∷ []

-- `struct dio_channel`. `count` and `target_channel` are `int`s, the wait queue has no data.
pub record Channel : Type 0 where
  pub tsbuf : List Timespec
  pub bhead : ℕ
  pub btail : ℕ
  pub prevts : Timespec
  pub delay : Timespec
  pub count : ℕ
  pub target_channel : ℕ

-- `struct dio_device`, the statics of the file, and the accesses to the card. `hw_lock` says
-- whether the spinlock is held.
pub record Driver : Type 0 where
  pub ch : List Channel
  pub hw_lock : Bool
  pub pulse_offsets : List ℕ
  pub t_ini : ℕ
  pub t_end : ℕ
  pub rate_avg : ℕ
  pub history : History

-- `struct wr_dio_cmd`.
pub record Cmd : Type 0 where
  pub command : ℕ
  pub channel : ℕ
  pub value : ℕ
  pub flags : ℕ
  pub nstamp : ℕ
  pub t : List Timespec

-- What the handlers return: zero or a negative `errno`.
pub data Ret : Type 0 where
  ok einval eagain enomem efault enotsupp enoioctlcmd erestartsys : Ret

abbrev pub f_now : ℕ
f_now = 0x01

abbrev pub f_rel : ℕ
f_rel = 0x02

abbrev pub f_mask : ℕ
f_mask = 0x04

abbrev pub f_loop : ℕ
f_loop = 0x08

abbrev pub f_wait : ℕ
f_wait = 0x10

abbrev pub f_get : ℕ
f_get = 0x20

abbrev pub f_pulsoff : ℕ
f_pulsoff = 0x40

abbrev pub inout_dio : ℕ
inout_dio = 2 ^ 0

abbrev pub inout_value : ℕ
inout_value = 2 ^ 8

abbrev pub inout_output : ℕ
inout_output = 2 ^ 16

abbrev pub inout_term : ℕ
inout_term = 2 ^ 24

abbrev pub iomode : Addr
iomode = dio 0x3c

abbrev pub r_latch : Addr
r_latch = dio 0x40

abbrev pub pulse_now : Addr
pulse_now = dio 0x5c

abbrev pub eic_idr : Addr
eic_idr = dio 0x60

abbrev pub eic_ier : Addr
eic_ier = dio 0x64

abbrev pub eic_isr : Addr
eic_isr = dio 0x6c

abbrev pub M : Type 0 → Type 0
M A = Program Driver A

-- `readl` and `writel` move 32 bits.
abbrev pub readl : Env → Addr → M ℕ
readl e a d = done (u32 (e.answer d.history a)) (record d { history = read a ∷ d.history })

abbrev pub writel : ℕ → Addr → M (Unit {0})
writel v a d = done tt (record d { history = write a (u32 v) ∷ d.history })

-- `v << k` on 32 bits; a shift by 32 or more is undefined.
abbrev pub shl : ℕ → ℕ → M ℕ
shl v k = if ltb k 32 then pure (u32 (v * 2 ^ k)) else stop

-- A spinlock that is held is never given back to the one who waits for it here.
abbrev pub spin_lock : M (Unit {0})
spin_lock d = if d.hw_lock then Outcome.waiting else done tt (record d { hw_lock = true })

abbrev pub spin_unlock : M (Unit {0})
spin_unlock d = done tt (record d { hw_lock = false })

abbrev pub channel_at : ℕ → M Channel
channel_at i d = checked (get_elem? d.ch i) d

abbrev pub store_channel : ℕ → Channel → M (Unit {0})
store_channel i c d = elim (get_elem? d.ch i) [
  | none ↦ fault
  | some old ↦ done tt (record d { ch = set d.ch i c })
]
