-- ===== src/Nic/Stamps/Match.antt =====
-- Which frame a time stamp belongs to, and what the stamp interrupt does with it.
use mathlib.Core.Path.{subst}
use sbndaq_wr.Base.{
  ℕ, zero, suc, ◌+◌, ◌^◌, ◌<◌, ◌≡◌, ◌≢◌, refl, sym, ap, List, [], ◌∷◌, Option, none, some, Bool,
  true, false, arith, ◌==◌, get_elem?, if◌then◌else◌, ◌∙◌,
}
use sbndaq_wr.Mmio.{Env}
use sbndaq_wr.Nic.State.{Skb, Pending, stamp_time}
use sbndaq_wr.Nic.Stamps.{find_frame}

-- The entry at a place holds a frame with the number.
pub record IsFrame (ps : List Pending) (frame_id place : ℕ) (skb : Skb) (p : Pending) : Type 0 where
  pub entry : get_elem? ps place ≡ some p
  pub holds : p.skb ≡ some skb
  pub number : p.frame_id ≡ frame_id

-- What a search from place `i` on found.
pub IsFound : Env → List Pending → ℕ → ℕ → Option (ℕ × Skb × Pending) → Type 0
IsFound e ps i frame_id none =
    (k : ℕ) (skb : Skb) (p : Pending)
    → get_elem? ps k ≡ some p
    → p.skb ≡ some skb
    → p.frame_id ≢ frame_id
IsFound e ps i frame_id (some (j, skb, p)) = (k : ℕ) × (j ≡ i + k) × IsFrame ps frame_id k skb p

none_some : {A B : Type 0} {a : A} → none ≡ some a → B
none_some e = absurd (cc)

some_inj : {A : Type 0} {a b : A} → some a ≡ some b → a ≡ b
some_inj e = cc

IsFound-later :
    (e : Env) (q : Pending) (ps : List Pending) (i frame_id : ℕ) (o : Option (ℕ × Skb × Pending))
    → ((skb : Skb) → q.skb ≡ some skb → q.frame_id ≢ frame_id)
    → IsFound e ps (i + 1) frame_id o
    → IsFound e (q ∷ ps) i frame_id o
unfolding IsFound
IsFound-later e q ps i frame_id none first found = absent
  where
    absent :
        (k : ℕ) (skb : Skb) (p : Pending)
        → get_elem? (q ∷ ps) k ≡ some p
        → p.skb ≡ some skb
        → p.frame_id ≢ frame_id
    absent zero skb p at holds =
        let same : q ≡ p = some_inj at in
        rw (sym same) (first skb (ap (λ (x : Pending). x.skb) same ∙ holds))
    absent (suc k) skb p at holds = found k skb p at holds
IsFound-later e q ps i frame_id (some (j, skb, p)) first (k, place, f) =
    (suc k, omega arith, record { entry = f.entry; holds = f.holds; number = f.number })

IsFound-same :
    (e : Env) (q : Pending) (ps : List Pending) (i frame_id : ℕ) (skb : Skb)
    (later : Option (ℕ × Skb × Pending)) (b : Bool)
    → q.skb ≡ some skb
    → (q.frame_id == frame_id) ≡ b
    → IsFound e ps (i + 1) frame_id later
    → IsFound e (q ∷ ps) i frame_id (if b then some (i, skb, q) else later)
unfolding IsFound
IsFound-same e q ps i frame_id skb later true holds same found =
    (0, omega arith, record { entry = refl; holds = holds; number = ground (arith, same) })
IsFound-same e q ps i frame_id skb later false holds other found =
    IsFound-later e q ps i frame_id later (λ _ _ number. ground (arith, other, number)) found

IsFound-step :
    (e : Env) (q : Pending) (ps : List Pending) (i frame_id : ℕ) (o : Option Skb)
    (later : Option (ℕ × Skb × Pending))
    → q.skb ≡ o
    → IsFound e ps (i + 1) frame_id later
    → IsFound e (q ∷ ps) i frame_id (elim o [
      | none ↦ later
      | some skb ↦ if q.frame_id == frame_id then some (i, skb, q) else later
    ])
IsFound-step e q ps i frame_id none later empty found =
    IsFound-later e q ps i frame_id later (λ skb holds. none_some (sym empty ∙ holds)) found
IsFound-step e q ps i frame_id (some skb) later holds found =
    IsFound-same e q ps i frame_id skb later (q.frame_id == frame_id) holds refl found

-- The search for the frame of a time stamp finds one that is pending with that number, at the place
-- that it gives, or there is no such frame.
pub find_frame_sound :
    (e : Env) (ps : List Pending) (i frame_id : ℕ)
    → IsFound e ps i frame_id (find_frame e ps i frame_id)
unfolding find_frame IsFound
find_frame_sound e [] i frame_id = λ k skb p at holds. none_some at
find_frame_sound e (q ∷ ps) i frame_id =
    IsFound-step e q ps i frame_id q.skb (find_frame e ps (i + 1) frame_id) refl
      (find_frame_sound e ps (i + 1) frame_id)

-- A time stamp is within the second that it counts in, and its seconds fit in 31 bits, for a tick count
-- of less than a second.
pub stamp_time_bounds :
    (counter utc ticks : ℕ)
    → ticks < 125_000_000
    → ((stamp_time counter utc ticks).tv_nsec < 1_000_000_000)
      × ((stamp_time counter utc ticks).tv_sec < 2 ^ 31)
unfolding stamp_time
stamp_time_bounds counter utc ticks small = (omega arith, omega arith)

-- What is found stands in the table.
pub find_frame-entry :
    (e : Env) (ps : List Pending) (i frame_id j : ℕ) (skb : Skb) (p : Pending)
    → find_frame e ps i frame_id ≡ some (j, skb, p)
    → (k : ℕ) × (j ≡ i + k) × (get_elem? ps k ≡ some p)
unfolding IsFound
find_frame-entry e ps i frame_id j skb p found =
    let (k, place, f) = subst (IsFound e ps i frame_id) found (find_frame_sound e ps i frame_id) in
    (k, place, f.entry)
