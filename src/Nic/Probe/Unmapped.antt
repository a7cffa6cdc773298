-- ===== src/Nic/Probe/Unmapped.antt =====
-- What happens to the probing when a block cannot be mapped.
use sbndaq_wr.Base.{
  ℕ, ◌+◌, ◌≡◌, refl, ap, List, [], ◌∷◌, Bool, true, false, not, Outcome, fault, pure, ◌>>=◌, ◌>>◌,
  when, get_or, if◌then◌else◌,
}
use sbndaq_wr.Base.Triples.{
  returns, Triple, Keeps, Triple-bind, Triple-pure, bind-fault, if_known, Triple-fault,
}
use sbndaq_wr.Mmio.{Env}
use sbndaq_wr.Nic.State.{N, writel}
use sbndaq_wr.Nic.Endpoint.{Registered}
use sbndaq_wr.Nic.Probe.{
  Pdev, Resource, no_region, region, get_pdev, set_base, unmap_bases, is_usable, on_nic,
  map_resources, remove_netdev, wrn_remove, ProbeReturn, enomem, give_up, wrn_probe, fb_nic, cr_reg,
}

-- Whether each region that there is can be mapped.
abbrev pub all_map : List Resource → Bool
all_map [] = true
all_map (no_region ∷ rs) = all_map rs
all_map (region b ∷ rs) = if b then all_map rs else false

abbrev Null : Pdev → Type 0
Null p = p.shortcuts ≡ false

set_base-Null : (i : ℕ) → Keeps ⊥ Null (set_base i)
unfolding set_base
set_base-Null i = record { at = λ p h. returns h }

map_resources-refused :
    (i : ℕ) (rs : List Resource)
    → all_map rs ≡ false
    → Triple ⊥ Null (map_resources i rs) (λ ok p. (ok ≡ false) × Null p)
unfolding map_resources
map_resources-refused i [] h = absurd (cc)
map_resources-refused i (no_region ∷ rs) h = map_resources-refused (i + 1) rs h
map_resources-refused i (region true ∷ rs) h =
    Triple-bind (set_base-Null i) λ _. map_resources-refused (i + 1) rs h
map_resources-refused i (region false ∷ rs) h = Triple-pure false (λ p null. (refl, null))

if_fault :
    {S A : Type 0} (b : Bool) (o : Outcome S A) → b ≡ false → (if b then o else fault) ≡ fault
if_fault true o h = absurd (cc)
if_fault false o h = refl

on_nic-Null : {A : Type 0} (block : ℕ) (m : N A) (p : Pdev) → Null p → on_nic block m p ≡ fault
unfolding on_nic
on_nic-Null block m p h =
    if_fault (is_usable block p) _ (ap (λ x. if x then get_or p.bases block false else false) h)

wrn_remove-Null : (p : Pdev) → Null p → wrn_remove p ≡ fault
unfolding wrn_remove
wrn_remove-Null p h =
    bind-fault (on_nic fb_nic (writel 0 cr_reg))
      (λ _. get_pdev >>= λ x. when x.dev remove_netdev >> unmap_bases) {s = p}
      (on_nic-Null fb_nic (writel 0 cr_reg) p h)

-- The clean-up goes through the null pointer.
give_up-Null : (r : ProbeReturn) (p : Pdev) → Null p → give_up r p ≡ fault
unfolding give_up
give_up-Null r p h = bind-fault wrn_remove (λ _. pure r) {s = p} (wrn_remove-Null p h)

-- If a region cannot be mapped and the pointer to the registers is still null, as after its allocation, the probing faults
-- instead of returning `-ENOMEM`.
pub wrn_probe_unmapped :
    (e : Env) (rs : List Resource) (a : Bool) (r : Registered) (b : Bool) (p : Pdev)
    → all_map rs ≡ false
    → p.shortcuts ≡ false
    → wrn_probe e rs a r b p ≡ fault
unfolding wrn_probe
wrn_probe_unmapped e rs a r b p h null =
    Triple-fault _ (map_resources-refused 0 rs h) null λ ok p' i.
      if_known {b = not ok} {c = true} (give_up enomem) _ p' (ap not i.0)
        (give_up-Null enomem p' i.1)
