-- ===== src/Nic/State.antt =====
-- The state of the network card driver, of wr-nic.h and nic-hardware.h, and its register accesses.
use sbndaq_wr.Base.{
  ℕ, ◌+◌, ◌-◌, ◌*◌, ◌/◌, ◌%◌, ◌^◌, List, ◌∷◌, Option, Bool, Program, done, pure, ◌>>=◌, ltb, ◌==◌,
  if◌then◌else◌,
}
use sbndaq_wr.Mmio.{Addr, read, write, History, Timespec, Env, u32, nic, ppsg}

abbrev pub nr_desc : ℕ
nr_desc = 8

abbrev pub mtu : ℕ
mtu = 1540

abbrev pub ddata_offset : ℕ
ddata_offset = 2

-- `struct sk_buff`, as far as the driver looks at it: which one it is, the memory from two bytes
-- before its data on, the length, and the two flags of its time stamp.
pub record Skb : Type 0 where
  pub name : ℕ
  pub memory : ℕ → ℕ
  pub len : ℕ
  pub hw_tstamp : Bool
  pub in_progress : Bool

-- `struct wrn_desc_pending`.
pub record Pending : Type 0 where
  pub skb : Option Skb
  pub valid : ℕ
  pub frame_id : ℕ
  pub cycles : ℕ

-- `struct net_device_stats` of the endpoint, as far as the driver counts.
pub record Stats : Type 0 where
  pub tx_errors : ℕ
  pub tx_packets : ℕ
  pub tx_bytes : ℕ
  pub rx_packets : ℕ
  pub rx_bytes : ℕ
  pub rx_errors : ℕ

-- A frame that was handed to the network stack, with its time stamp if it has one.
pub record Frame : Type 0 where
  pub words : List ℕ
  pub len : ℕ
  pub hwtstamp : Option Timespec

-- `struct wrn_dev` with its one endpoint, and what the driver gave to the kernel: buffers that were
-- freed, time stamps of sent frames, received frames, and whether the receive tasklet is due.
pub record Wrn : Type 0 where
  pub next_tx_head : ℕ
  pub next_tx_tail : ℕ
  pub next_rx : ℕ
  pub skb_desc : List Pending
  pub id : ℕ
  pub stats : Stats
  pub freed : List ℕ
  pub stamped : List (ℕ × Timespec)
  pub received : List Frame
  pub tasklet : Bool
  pub history : History

abbrev pub N : Type 0 → Type 0
N A = Program Wrn A

abbrev pub readl : Env → Addr → N ℕ
readl e a w = done (u32 (e.answer w.history a)) (record w { history = read a ∷ w.history })

abbrev pub writel : ℕ → Addr → N (Unit {0})
writel v a w = done tt (record w { history = write a (u32 v) ∷ w.history })

unfoldable pub get : N Wrn
get w = done w w

abbrev pub put : Wrn → N (Unit {0})
put w _ = done tt w

-- The words of `struct NIC_WB` that the driver uses, and of the descriptors in it.
abbrev pub status_reg : Addr
status_reg = nic 0x04

abbrev pub eic_idr : Addr
eic_idr = nic 0x20

abbrev pub eic_ier : Addr
eic_ier = nic 0x24

abbrev pub eic_isr : Addr
eic_isr = nic 0x2c

abbrev pub tx1 : ℕ → Addr
tx1 desc = nic (0x80 + 16 * desc)

abbrev pub tx2 : ℕ → Addr
tx2 desc = nic (0x84 + 16 * desc)

abbrev pub tx3 : ℕ → Addr
tx3 desc = nic (0x88 + 16 * desc)

abbrev pub rx1 : ℕ → Addr
rx1 desc = nic (0x100 + 16 * desc)

abbrev pub rx2 : ℕ → Addr
rx2 desc = nic (0x104 + 16 * desc)

abbrev pub rx3 : ℕ → Addr
rx3 desc = nic (0x108 + 16 * desc)

-- `__wrn_next_desc`.
unfoldable pub next_desc : ℕ → ℕ
next_desc i = (i + 1) % nr_desc

-- The length of the packet memory: two buffers of 2 kB for each descriptor.
abbrev pub mem_bytes : ℕ
mem_bytes = 0x8000

-- `enum wrn_ddir` and `__wrn_desc_offset`: 2 kB for each descriptor, those to receive behind.
pub data Ddir : Type 0 where
  ddir_rx ddir_tx : Ddir

unfoldable pub desc_offset : Ddir → ℕ → ℕ
desc_offset Ddir.ddir_rx nr = 0x800 * (nr + nr_desc)
desc_offset Ddir.ddir_tx nr = 0x800 * nr

-- The number of rounds of the copy loops: one for each four bytes, begun ones included.
abbrev pub copy_rounds : ℕ → ℕ
copy_rounds size = (size + 3) / 4

-- `wrn_ppsg_read_time`: the nanosecond counter and the second, read again if a second passed.
unfoldable pub ppsg_read_time : Env → N (ℕ × ℕ)
ppsg_read_time e = do
  utc1 ← readl e (ppsg 0x08)
  cnt ← readl e (ppsg 0x04)
  utc2 ← readl e (ppsg 0x08)
  cnt' ← if utc2 == utc1 then pure cnt else readl e (ppsg 0x04)
  pure (cnt', utc2)

abbrev pub nsec_per_tick : ℕ
nsec_per_tick = 8

-- A tick of the current second, or of the last one if the counter has not reached it.
unfoldable pub stamp_time : ℕ → ℕ → ℕ → Timespec
stamp_time counter utc ticks =
    let second = if ltb counter ticks then u32 (utc + 2 ^ 32 - 1) else utc in
    record { tv_sec = second % 2 ^ 31; tv_nsec = ticks * nsec_per_tick }
