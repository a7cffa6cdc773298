-- ===== src/Core/Fmc.antt =====
-- wr-nic-core.c and wr-nic-gpio.c: the start of the driver for a mezzanine, with the program of the card's processor, and its end.
pub mod Steps
pub mod Held
pub mod Unready
use sbndaq_wr.Base.{
  ℕ, zero, suc, ◌+◌, ◌*◌, ◌/◌, ◌^◌, List, [], ◌∷◌, Option, none, some, Bool, true, false, not,
  Outcome, done, pure, ◌>>=◌, ◌>>◌, stop, checked, when, get_or, ◌||◌, ◌&&◌, ◌==◌, has_bits, ltb,
  if◌then◌else◌,
}
use sbndaq_wr.Mmio.{bar0, write, Env, u32}
use sbndaq_wr.Carrier.{C, SpecDev}
use sbndaq_wr.Carrier.Device.{window_readl}
use sbndaq_wr.Core.{Card, K, Services, on_spec, eth_init, eth_exit}

-- `fmc_writel`.
unfoldable pub window_writel : ℕ → ℕ → C (Unit {0})
window_writel v off s =
    if get_or s.remap 0 false
    then done tt
        (record s { fmc = record s.fmc { history = write (bar0 off) (u32 v) ∷ s.fmc.history } })
    else stop s

-- `__cpu_to_be32(*p)` on a little-endian host, and the rest of the buffer.
abbrev pub be32 : List ℕ → Option (ℕ × List ℕ)
be32 (b0 ∷ b1 ∷ b2 ∷ b3 ∷ rest) = some (b0 * 2 ^ 24 + b1 * 2 ^ 16 + b2 * 2 ^ 8 + b3, rest)
be32 (b0 ∷ b1 ∷ b2 ∷ []) = none
be32 (b0 ∷ b1 ∷ []) = none
be32 (b0 ∷ []) = none
be32 [] = none

-- The loop of `wrn_load_wrc`, with the words that are left.
unfoldable pub write_words : ℕ → List ℕ → ℕ → C (Unit {0})
unfolding window_writel
write_words zero p addr = pure tt
write_words (suc rounds) p addr = do
  w ← checked (be32 p)
  window_writel w.0 addr
  write_words rounds w.1 (addr + 4)

-- `wrn_load_wrc` for the file that there is: whether it returns 0.
unfoldable pub load_wrc : Option (List ℕ × ℕ) → ℕ → ℕ → C Bool
unfolding write_words
load_wrc none ram ramsize = pure false
load_wrc (some (bytes, size)) ram ramsize =
    if ltb ramsize size then pure false else (write_words ((size + 3) / 4) bytes ram >> pure true)

-- The name of the processor's program: the default one, "1", or another file.
pub data WrcName : Type 0 where
  default_wrc one_wrc : WrcName
  own_wrc : ℕ → WrcName

abbrev pub is_default_wrc : WrcName → Bool
is_default_wrc default_wrc = true
is_default_wrc one_wrc = false
is_default_wrc (own_wrc n) = false

-- The file that is loaded: `none` is the default one.
abbrev pub wrc_file : WrcName → Option ℕ
wrc_file default_wrc = none
wrc_file one_wrc = none
wrc_file (own_wrc n) = some n

-- What `fmc_reprogram` of the bus says.
pub data BusReturn : Type 0 where
  bus_ok bus_esrch bus_error : BusReturn

-- What `wrn_fmc_probe` depends on: whether the card is valid for the driver, the memory for the driver data, the call of
-- `fmc_reprogram`, the RAM with its size and the SYSCON in the tree of SDB, the parameter `wrc` and the files, how often the
-- processor's reset is polled before its time is over, whether it is over after that, and for the pins the memory of the chip
-- and the result of `gpiochip_add`.
pub record Setup : Type 0 where
  pub valid : Bool
  pub driver_memory : Bool
  pub reprogram : C BusReturn
  pub ram : Option (ℕ × ℕ)
  pub syscon : Option ℕ
  pub wrc : WrcName
  pub wrc_files : Option ℕ → Option (List ℕ × ℕ)
  pub polls : ℕ
  pub late : Bool
  pub chip_memory : Bool
  pub chip_added : Bool

-- What `wrn_fmc_probe` returns.
pub data FmcReturn : Type 0 where
  fmc_ok fmc_enodev fmc_enomem fmc_other : FmcReturn

unfoldable pub set_drvdata : K (Unit {0})
set_drvdata c = done tt (record c { drvdata = true; chip = false })

unfoldable pub set_chip : Bool → K (Unit {0})
set_chip b c = done tt (record c { chip = b })

-- `kfree` of memory that the kernel frees with the device.
unfoldable pub free_managed : K (Unit {0})
free_managed c = done tt (record c { double_frees = c.double_frees + 1 })

unfoldable pub get_card : K Card
get_card c = done c c

-- `wrn_gpio_init`: whether it returns 0; and `wrn_gpio_exit`, which has null pointers without the driver data or the chip.
unfoldable pub gpio_init : Setup → K Bool
unfolding get_card set_chip free_managed
gpio_init t = do
  c ← get_card
  if not t.chip_memory
      then pure false
      else if not t.chip_added
      then (free_managed >> pure false)
      else if not c.drvdata
      then stop
      else (set_chip true >> pure true)

unfoldable pub gpio_exit : K (Unit {0})
unfolding get_card set_chip
gpio_exit = do c ← get_card; if c.drvdata && c.chip then set_chip false else stop

-- `wrn_fmc_remove`.
unfoldable pub fmc_remove : K (Unit {0})
unfolding gpio_exit
fmc_remove = eth_exit >> gpio_exit

abbrev pub wrc_magic : ℕ
wrc_magic = 0x98000000

abbrev pub reset_done : ℕ
reset_done = 2 ^ 28

module _ (e : Env) (k : Services) (t : Setup) where
  -- The loop that waits for the reset: whether it ends because the time is over.
  unfoldable pub wait_reset : ℕ → ℕ → C Bool
  unfolding window_readl
  wait_reset zero syscon = do v ← window_readl e syscon; pure (not (has_bits v reset_done))
  wait_reset (suc polls) syscon = do
    v ← window_readl e syscon
    if has_bits v reset_done then pure false else wait_reset polls syscon

  -- The load of the processor's program: whether it was loaded, and whether the probe goes on. A reset that takes too long
  -- does not count as an error.
  unfoldable pub reload : ℕ → ℕ → ℕ → C (Bool × Bool)
  unfolding window_readl window_writel wait_reset load_wrc
  reload ram ramsize syscon = do
    window_writel 0x1deadbee syscon
    over ← wait_reset t.polls syscon
    if over || t.late then (window_writel 0x0deadbee syscon >> pure (true, false)) else (do
      loaded ← load_wrc (t.wrc_files (wrc_file t.wrc)) ram ramsize
      window_writel 0x0deadbee syscon
      if not loaded then pure (false, false) else (window_readl e ram >>= λ _. pure (true, true)))

  -- Whether the program has to be loaded.
  unfoldable pub needs_wrc : Option (ℕ × ℕ) → C Bool
  unfolding window_readl
  needs_wrc none = pure (not (is_default_wrc t.wrc))
  needs_wrc (some (ram, ramsize)) = do
    v ← window_readl e ram
    pure (not (v == wrc_magic) || not (is_default_wrc t.wrc))

  -- What the probe does about the program: its result so far is 0 or not, and it goes on or not.
  unfoldable pub load_if : Bool → Option (ℕ × ℕ) → Option ℕ → C (Bool × Bool)
  unfolding reload
  load_if false ram syscon = pure (true, true)
  load_if true (some (ram, ramsize)) (some syscon) = reload ram ramsize syscon
  load_if true (some ram) none = pure (true, false)
  load_if true none syscon = pure (true, false)

  -- The end of `wrn_fmc_probe`: the pins and the network part.
  unfoldable pub start_parts : K FmcReturn
  unfolding gpio_init gpio_exit
  start_parts = do
    chip ← gpio_init t
    if not chip
        then pure fmc_other
        else (do ok ← eth_init e k; if ok then pure fmc_ok else (gpio_exit >> pure fmc_other))

  unfoldable pub after_reload : Bool × Bool → K FmcReturn
  unfolding start_parts
  after_reload (good, true) = start_parts
  after_reload (good, false) = pure (if good then fmc_ok else fmc_other)

  unfoldable pub after_reprogram : BusReturn → K FmcReturn
  unfolding needs_wrc load_if after_reload on_spec
  after_reprogram bus_esrch = pure fmc_enodev
  after_reprogram bus_error = pure fmc_other
  after_reprogram bus_ok = do
    need ← on_spec (needs_wrc t.ram)
    r ← on_spec (load_if need t.ram t.syscon)
    after_reload r

  -- `wrn_fmc_probe`.
  unfoldable pub fmc_probe : K FmcReturn
  unfolding set_drvdata on_spec after_reprogram
  fmc_probe =
      if not t.valid
      then pure fmc_enodev
      else if not t.driver_memory
      then pure fmc_enomem
      else (do set_drvdata; r ← on_spec t.reprogram; after_reprogram r)
