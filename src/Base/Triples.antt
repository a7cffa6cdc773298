-- ===== src/Base/Triples.antt =====
-- Specifications of programs: a program from a state with `P` does not fault, and returns with `Q`.
use mathlib.Core.Bool.{Bool, true, false}
use mathlib.Core.Option.{Option, some}
use mathlib.Core.Path.{◌≡◌, refl, sym, subst, ap}
use sbndaq_wr.Base.Programs.{Outcome, done, fault, waiting, Program, pure, ◌>>=◌, checked, when}
use sbndaq_wr.Base.Tests.{if◌then◌else◌}

-- `W` says whether the program may end in `waiting`: `⊥` for one that has to return.
pub data Ensures (W : Type 0) {S A : Type 0} (Q : A → S → Type 0) : Outcome S A → Type 0 where
  returns : {a : A} {s : S} → Q a s → Ensures W Q (done a s)
  blocks : W → Ensures W Q waiting

pub record Triple (W : Type 0) {S A : Type 0} (P : S → Type 0) (m : Program S A)
    (Q : A → S → Type 0) : Type 0 where
  pub at : (s : S) → P s → Ensures W Q (m s)

-- A program that keeps an invariant.
abbrev pub Keeps : (W : Type 0) {S A : Type 0} → (S → Type 0) → Program S A → Type 0
Keeps W P m = Triple W P m (λ _. P)

module _ {W : Type 0} {S A B : Type 0} where
  Ensures-bind :
      {R : A → S → Type 0} {Q : B → S → Type 0} (f : A → Program S B) {o : Outcome S A}
      → Ensures W R o
      → ((a : A) (s : S) → R a s → Ensures W Q (f a s))
      → Ensures W Q (elim o [ done a s' ↦ f a s' | fault ↦ fault | waiting ↦ waiting ])
  Ensures-bind f (returns r) k = k _ _ r
  Ensures-bind f (blocks w) k = blocks w

  pub Triple-bind :
      {P : S → Type 0} {R : A → S → Type 0} {Q : B → S → Type 0} {m : Program S A}
      {f : A → Program S B}
      → Triple W P m R
      → ((a : A) → Triple W (R a) (f a) Q)
      → Triple W P (m >>= f) Q
  Triple-bind {f} tm tf = record {
    at = λ s p. Ensures-bind f (tm.at s p) (λ a s' r. (tf a).at s' r);
  }

module _ {W : Type 0} {S A : Type 0} where
  pub Triple-pure :
      {P : S → Type 0} {Q : A → S → Type 0} (a : A)
      → ((s : S) → P s → Q a s)
      → Triple W P (pure a) Q
  Triple-pure a h = record { at = λ s p. returns (h s p) }

  pub Keeps-pure : {P : S → Type 0} (a : A) → Keeps W P (pure a)
  Keeps-pure a = Triple-pure a (λ s p. p)

  pub Triple-pre :
      {P P' : S → Type 0} {Q : A → S → Type 0} {m : Program S A}
      → ((s : S) → P s → P' s)
      → Triple W P' m Q
      → Triple W P m Q
  Triple-pre h t = record { at = λ s p. t.at s (h s p) }

  -- What holds of no state in particular is a hypothesis of the rest.
  pub Triple-given :
      {F : Type 0} {P : S → Type 0} {Q : A → S → Type 0} {m : Program S A}
      → (F → Triple W P m Q)
      → Triple W (λ s. F × P s) m Q
  Triple-given k = record { at = λ s p. (k p.0).at s p.1 }

  pub Ensures-weaken :
      {Q Q' : A → S → Type 0} {o : Outcome S A}
      → ((a : A) (s : S) → Q a s → Q' a s)
      → Ensures W Q o
      → Ensures W Q' o
  Ensures-weaken h (returns q) = returns (h _ _ q)
  Ensures-weaken h (blocks w) = blocks w

  pub Triple-post :
      {P : S → Type 0} {Q Q' : A → S → Type 0} {m : Program S A}
      → ((a : A) (s : S) → Q a s → Q' a s)
      → Triple W P m Q
      → Triple W P m Q'
  Triple-post h t = record { at = λ s p. Ensures-weaken h (t.at s p) }

  pub Triple-if :
      {P : S → Type 0} {Q : A → S → Type 0} (b : Bool) {m n : Program S A}
      → (b ≡ true → Triple W P m Q)
      → (b ≡ false → Triple W P n Q)
      → Triple W P (if b then m else n) Q
  Triple-if true tm tn = tm refl
  Triple-if false tm tn = tn refl

  -- A test of a value that the state is known by.
  pub Triple-split :
      (P : Bool → S → Type 0) {Q : A → S → Type 0} {m n : Program S A} (b : Bool)
      → Triple W (P true) m Q
      → Triple W (P false) n Q
      → Triple W (P b) (if b then m else n) Q
  Triple-split P true tm tn = tm
  Triple-split P false tm tn = tn

  pub Triple-checked :
      {P : S → Type 0} {Q : A → S → Type 0} {o : Option A} (a : A)
      → o ≡ some a
      → ((s : S) → P s → Q a s)
      → Triple W P (checked o) Q
  Triple-checked a e h = rw e (record { at = λ s p. returns (h s p) })

-- A step that is taken or left out.
pub Triple-when :
    {W S : Type 0} {P Q : S → Type 0} (b : Bool) {m : Program S (Unit {0})}
    → (b ≡ true → Triple W P m (λ _. Q))
    → (b ≡ false → (s : S) → P s → Q s)
    → Triple W P (when b m) (λ _. Q)
Triple-when true tm skip = tm refl
Triple-when false tm skip = Triple-pure tt (skip refl)

-- A checked value, with what is known of it.
pub checked-Triple :
    {W S A : Type 0} {P : S → Type 0} (F : A → Type 0) (o : Option A) (a : A)
    → o ≡ some a
    → F a
    → Triple W P (checked o) (λ x s. F x × P s)
checked-Triple F o a e f = Triple-checked a e (λ s p. (f, p))

-- What may make a program wait.
pub Ensures-waits :
    {W W' S A : Type 0} {Q : A → S → Type 0} {o : Outcome S A}
    → (W → W')
    → Ensures W Q o
    → Ensures W' Q o
Ensures-waits k (returns q) = returns q
Ensures-waits k (blocks w) = blocks (k w)

Ensures-weak :
    {W S A : Type 0} {Q : A → S → Type 0} {o : Outcome S A} → Ensures ⊥ Q o → Ensures W Q o
Ensures-weak (returns q) = returns q
Ensures-weak (blocks w) = absurd w

-- A program that always returns.
pub Triple-weak :
    {W S A : Type 0} {P : S → Type 0} {Q : A → S → Type 0} {m : Program S A}
    → Triple ⊥ P m Q
    → Triple W P m Q
Triple-weak t = record { at = λ s p. Ensures-weak (t.at s p) }

-- What is left of a specification once the outcome is known.
abbrev pub Meets : {S A : Type 0} → (A → S → Type 0) → Outcome S A → Type 0
Meets Q (done a s) = Q a s
Meets Q fault = ⊥
Meets Q waiting = Unit

pub Ensures-Meets :
    {W S A : Type 0} {Q : A → S → Type 0} {o : Outcome S A} → Ensures W Q o → Meets Q o
Ensures-Meets (returns q) = q
Ensures-Meets (blocks w) = tt

-- The state after a program that is known to have returned.
pub Triple-done :
    {W S A : Type 0} {P : S → Type 0} {Q : A → S → Type 0} {m : Program S A} {s s' : S} {a : A}
    → Triple W P m Q
    → P s
    → m s ≡ done a s'
    → Q a s'
Triple-done {Q} {s} t p e = subst (Meets Q) e (Ensures-Meets (t.at s p))

pub Triple-no_fault :
    {W S A : Type 0} {P : S → Type 0} {Q : A → S → Type 0} {m : Program S A} {s : S}
    → Triple W P m Q
    → P s
    → ¬ (m s ≡ fault)
Triple-no_fault {Q} {s} t p e = subst (Meets Q) e (Ensures-Meets (t.at s p))

-- A program whose first step is known to return.
pub bind-done :
    {S A B : Type 0} (m : Program S A) (f : A → Program S B) {s s' : S} {a : A}
    → m s ≡ done a s'
    → (m >>= f) s ≡ f a s'
bind-done m f e = ap (λ o. elim o [ done a s' ↦ f a s' | fault ↦ fault | waiting ↦ waiting ]) e

pub checked-done :
    {S A : Type 0} {o : Option A} {a : A} (s : S) → o ≡ some a → checked o s ≡ done a s
checked-done s e = ap (λ o. checked o s) e

pub if_apply :
    {S A : Type 0} (b : Bool) (m n : Program S A) (s : S)
    → (if b then m else n) s ≡ (if b then m s else n s)
if_apply true m n s = refl
if_apply false m n s = refl

-- Two ways to the same outcome.
pub if_both :
    {S A : Type 0} (b : Bool) (m n : Program S A) (s : S) {o : Outcome S A}
    → m s ≡ o
    → n s ≡ o
    → (if b then m else n) s ≡ o
if_both true m n s em en = em
if_both false m n s em en = en

-- A test whose result is known.
pub if_known :
    {S A : Type 0} {b c : Bool} (m n : Program S A) (s : S) {o : Outcome S A}
    → b ≡ c
    → (if c then m else n) s ≡ o
    → (if b then m else n) s ≡ o
if_known m n s {o = o} e h = subst (λ c. (if c then m else n) s ≡ o) (sym e) h

pub bind-fault :
    {S A B : Type 0} (m : Program S A) (f : A → Program S B) {s : S}
    → m s ≡ fault
    → (m >>= f) s ≡ fault
bind-fault m f e = ap (λ o. elim o [ done a s' ↦ f a s' | fault ↦ fault | waiting ↦ waiting ]) e

after-fault :
    {S A B : Type 0} {Q : A → S → Type 0} (f : A → Program S B) {o : Outcome S A}
    → Ensures ⊥ Q o
    → ((a : A) (s : S) → Q a s → f a s ≡ fault)
    → elim o [ done a s ↦ f a s | fault ↦ fault | waiting ↦ waiting ] ≡ fault
after-fault f (returns q) k = k _ _ q
after-fault f (blocks w) k = absurd w

-- What follows a program that always returns, and faults.
pub Triple-fault :
    {S A B : Type 0} {P : S → Type 0} {Q : A → S → Type 0} {m : Program S A} (f : A → Program S B)
    {s : S}
    → Triple ⊥ P m Q
    → P s
    → ((a : A) (s' : S) → Q a s' → f a s' ≡ fault)
    → (m >>= f) s ≡ fault
Triple-fault f {s} t p k = after-fault f (t.at s p) k
