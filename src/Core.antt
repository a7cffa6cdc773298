-- ===== src/Core.antt =====
-- The driver of the mezzanine as a whole: the start and the end of its network part in wr-nic-eth.c and of its pins in
-- wr-nic-gpio.c, on the carrier and the platform device of the network card.
pub mod Fmc
pub mod Views
pub mod Stop
pub mod Start
mod Tests
use sbndaq_wr.Base.{
  ℕ, ◌+◌, ◌-◌, List, [], ◌∷◌, Option, none, some, Bool, true, false, not, replicate, Program,
  Outcome, done, fault, waiting, pure, ◌>>=◌, ◌>>◌, stop, when, ◌&&◌, if◌then◌else◌,
}
use sbndaq_wr.Mmio.{Env}
use sbndaq_wr.Board.{B, Board, vic_init, vic_exit}
use sbndaq_wr.Carrier.{C, SpecDev, irq_request, irq_free}
use sbndaq_wr.Carrier.Gpio.{Pin, virtual, dir_in, gpio_config}
use sbndaq_wr.Nic.Endpoint.{Registered}
use sbndaq_wr.Nic.State.{Pending}
use sbndaq_wr.Nic.Probe.{
  Pdev, D, Resource, region, ProbeReturn, ready, enomem, enodev, other, wrn_probe, wrn_remove,
}

-- The card, the driver of its platform device, whether `mezzanine_data` and `vic_base` are set, whether the platform device
-- is bound to its driver, whether the driver data and the GPIO chip are there, how many blocks of `kmalloc` are held, and how
-- often memory was freed that the kernel frees itself.
pub record Card : Type 0 where
  pub spec : SpecDev
  pub pdev : Pdev
  pub mezzanine_data : Bool
  pub vic_base : Bool
  pub bound : Bool
  pub drvdata : Bool
  pub chip : Bool
  pub held : ℕ
  pub double_frees : ℕ

abbrev pub K : Type 0 → Type 0
K A = Program Card A

unfoldable pub on_spec : {A : Type 0} → C A → K A
on_spec m c = elim (m c.spec) [
  | done a s ↦ done a (record c { spec = s })
  | fault ↦ fault
  | waiting ↦ waiting
]

unfoldable pub on_pdev : {A : Type 0} → D A → K A
on_pdev m c = elim (m c.pdev) [
  | done a p ↦ done a (record c { pdev = p })
  | fault ↦ fault
  | waiting ↦ waiting
]

-- What the interrupts of the board see of the card, and what they leave.
abbrev pub board_of : Card → Board
board_of c = record {
  registered = c.mezzanine_data;
  txtsu_regs = c.pdev.shortcuts;
  wrn = c.pdev.wrn;
  dio = c.pdev.dio;
  history = c.spec.fmc.history;
}

abbrev with_board : Card → Board → Card
with_board c b = record c {
  pdev = record c.pdev { wrn = b.wrn; dio = b.dio };
  spec = record c.spec { fmc = record c.spec.fmc { history = b.history } };
}

-- Through a null pointer without the platform device, or without the VIC.
unfoldable pub on_vic : {A : Type 0} → B A → K A
on_vic m c =
    if c.mezzanine_data && c.vic_base
    then elim (m (board_of c)) [
      | done a b ↦ done a (with_board c b)
      | fault ↦ fault
      | waiting ↦ waiting
    ]
    else stop c

-- What the kernel does for the network part: the carrier's `use_msi` and `request_irq`, the four blocks of memory, for each of
-- the four cores whether it is not in the tree of SDB, or whether `ioremap` can map it, whether the VIC and WR-DIO are in the tree, and
-- whether the platform driver is registered, with what its probe is told.
pub record Services : Type 0 where
  pub use_msi : Bool
  pub requested : Bool
  pub memory : List Bool
  pub cores : List (Option Bool)
  pub vic : Bool
  pub wrdio : Bool
  pub driver : Bool
  pub netdev : Bool
  pub registered : Registered
  pub mezzanine : Bool

abbrev pub count_true : List Bool → ℕ
count_true [] = 0
count_true (true ∷ bs) = 1 + count_true bs
count_true (false ∷ bs) = count_true bs

abbrev pub all_true : List Bool → Bool
all_true [] = true
all_true (b ∷ bs) = b && all_true bs

unfoldable pub hold : ℕ → K (Unit {0})
hold n c = done tt (record c { held = c.held + n })

unfoldable pub give_back : ℕ → K (Unit {0})
give_back n c = done tt (record c { held = c.held - n })

unfoldable pub set_mezzanine : Bool → Bool → K (Unit {0})
set_mezzanine there vic c = done tt (record c { mezzanine_data = there; vic_base = vic })

unfoldable pub set_bound : Bool → K (Unit {0})
set_bound b c = done tt (record c { bound = b })

-- The loop over `wrn_cores`: the resources, if all are found. A resource does not start at 0.
unfoldable pub resources_of : List (Option Bool) → Option (List Resource)
resources_of [] = some []
resources_of (none ∷ cores) = none
resources_of (some b ∷ cores) = elim (resources_of cores) [
  | none ↦ none
  | some rs ↦ some (region b ∷ rs)
]

-- `kzalloc` of `struct wrn_dev`, and `wrdio_base` of the new platform data: it stays null if WR-DIO is
-- not in the tree of SDB. Nothing reads it before the device is registered.
abbrev pub idle : Pending
idle = record { skb = none; valid = 0; frame_id = 0; cycles = 0 }

unfoldable pub new_wrn : Bool → K (Unit {0})
new_wrn wrdio c = done tt (record c {
  pdev = record c.pdev {
    wrn = record c.pdev.wrn {
      next_tx_head = 0;
      next_tx_tail = 0;
      next_rx = 0;
      skb_desc = replicate 8 idle;
      id = 0;
      tasklet = false;
    };
    wrdio = wrdio;
    bases = replicate 4 false;
    shortcuts = false;
    dev = false;
  };
})

abbrev pub is_ready : ProbeReturn → Bool
is_ready ready = true
is_ready enomem = false
is_ready enodev = false
is_ready other = false

-- `wrn_gpio_cfg`; `_gpio` is left out: it is 0 or what `gpio` is mapped to.
abbrev pub wrn_gpio_cfg : List Pin
wrn_gpio_cfg = record { owner = virtual; gpio = 0x1001; raw = 0; mode = dir_in; irqmode = 0x1 } ∷ []

-- `platform_device_unregister`.
unfoldable pub unregister_platform : Bool → K (Unit {0})
unfolding on_pdev set_bound
unregister_platform bound = when bound (on_pdev wrn_remove) >> set_bound false

unfoldable pub is_bound : K Bool
is_bound c = done c.bound c

-- `wrn_eth_exit`.
unfoldable pub eth_exit : K (Unit {0})
unfolding on_vic on_spec is_bound unregister_platform give_back set_mezzanine
eth_exit = do
  on_vic vic_exit
  bound ← is_bound
  unregister_platform bound
  give_back 4
  set_mezzanine false false
  on_spec irq_free

module _ (e : Env) (k : Services) where
  -- `platform_device_register`, whose result the driver ignores.
  unfoldable pub register_platform : List Resource → K (Unit {0})
  unfolding on_pdev set_bound new_wrn
  register_platform resources = when k.driver (
      on_pdev (wrn_probe e resources k.netdev k.registered k.mezzanine) >>= λ r.
      set_bound (is_ready r))

  -- `out_mem`.
  unfoldable pub out_mem : K Bool
  unfolding give_back on_spec
  out_mem = do give_back (count_true k.memory); on_spec irq_free; pure false

  -- The rest of `wrn_eth_init` with the resources.
  unfoldable pub start_platform : Option (List Resource) → K Bool
  unfolding set_mezzanine register_platform on_vic out_mem
  start_platform none = out_mem
  start_platform (some resources) = do
    set_mezzanine true k.vic
    register_platform resources
    on_vic vic_init
    pure true

  -- `wrn_eth_init`: whether it returns 0, not an error.
  unfoldable pub eth_init : K Bool
  unfolding on_spec hold new_wrn start_platform resources_of
  eth_init = do
    requested ← on_spec (irq_request e k.use_msi k.requested)
    if not requested then pure false else (do
      _ ← on_spec (gpio_config e wrn_gpio_cfg)
      hold (count_true k.memory)
      if not (all_true k.memory)
          then out_mem
          else (do new_wrn k.wrdio; start_platform (resources_of k.cores)))
