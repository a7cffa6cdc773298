-- ===== src/Dio/Ring.antt =====
-- The ring of time stamps of a channel: its updates in `wrn_dio_interrupt`, which fills it, and in
-- `wrn_dio_cmd_stamp`, which empties it.
pub mod Queue
pub mod Push
pub mod Drain
use sbndaq_wr.Base.{
  ℕ, zero, suc, ◌+◌, ◌%◌, List, [], ◌∷◌, Option, none, some, length, get_elem?, set, ltb, ◌==◌,
  if◌then◌else◌,
}
use sbndaq_wr.Mmio.{Timespec}
use sbndaq_wr.Dio.Device.{Channel, buffer_len}

unfoldable pub next_index : ℕ → ℕ
next_index i = (i + 1) % buffer_len

-- The head moves first, and drops the oldest stamp of a full ring.
unfoldable pub publish : Channel → Channel
unfolding next_index
publish c =
    let head = next_index c.bhead in
    record c { bhead = head; btail = if head == c.btail then next_index c.btail else c.btail }

-- The stamp is stored afterwards, at the old head `h`.
unfoldable pub fill : ℕ → Timespec → Channel → Option Channel
fill h ts c = if ltb h (length c.tsbuf) then some (record c { tsbuf = set c.tsbuf h ts }) else none

-- Both steps, with nothing between them.
unfoldable pub push : Channel → Timespec → Option Channel
unfolding publish fill
push c ts = fill c.bhead ts (publish c)

-- The `while` loop of `wrn_dio_cmd_stamp` with `left` free entries in `t`, of which `n` are used.
unfoldable pub drain : ℕ → Channel → ℕ → List Timespec → Option (Channel × ℕ × List Timespec)
unfolding next_index
drain zero c n t = some (c, n, t)
drain (suc left) c n t =
    if c.bhead == c.btail then some (c, n, t) else elim (get_elem? c.tsbuf c.btail) [
      | none ↦ none
      | some ts ↦
          let rest = drain left (record c { btail = next_index c.btail }) (n + 1) (set t n ts) in
          if ltb n (length t) then rest else none
    ]
