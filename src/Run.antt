-- ===== src/Run.antt =====
-- The outcome of a C function: it returns, it ends the process through `error(1, ...)`, or it
-- touches memory outside of an object. `stuck` is a loop whose fuel is used up.
use crypti.Base.{◌≡◌, refl, ◌≢◌, Bool, true, false}

pub data Run {ℓ} (A : Type ℓ) : Type ℓ where
  ok : A → Run A
  die : Run A
  fault : Run A
  stuck : Run A

infixl 5 ◌>>=◌ ◌>>◌
abbrev pub ◌>>=◌ {ℓ κ} : {A : Type ℓ} {B : Type κ} → Run A → (A → Run B) → Run B
ok a >>= f = f a
die >>= f = die
fault >>= f = fault
stuck >>= f = stuck

abbrev pub ◌>>◌ {ℓ} : {B : Type ℓ} → Run (Unit {0}) → Run B → Run B
m >> k = m >>= λ _. k

-- `error(1, ...)` unless the test holds.
abbrev pub guard : Bool → Run (Unit {0})
guard true = ok tt
guard false = die

-- No access outside of an object and no endless loop, and `P` of what is returned, if the process
-- does not end.
abbrev pub Ensures {ℓ} : {A : Type ℓ} → Run A → (A → Type 0) → Type 0
Ensures (ok a) P = P a
Ensures die P = Unit
Ensures fault P = ⊥
Ensures stuck P = ⊥

-- A value is returned, and `P` holds of it.
abbrev pub Returns {ℓ} : {A : Type ℓ} → Run A → (A → Type 0) → Type 0
Returns (ok a) P = P a
Returns die P = ⊥
Returns fault P = ⊥
Returns stuck P = ⊥

module _ {ℓ κ} {A : Type ℓ} {B : Type κ} (P : A → Type 0) (Q : B → Type 0) where
  pub Ensures-bind :
      (m : Run A) (f : A → Run B)
      → Ensures m P
      → ((a : A) → P a → Ensures (f a) Q)
      → Ensures (m >>= f) Q
  Ensures-bind (ok a) f h k = k a h
  Ensures-bind die f h k = tt
  Ensures-bind fault f h k = h
  Ensures-bind stuck f h k = h

  pub Returns-bind :
      (m : Run A) (f : A → Run B)
      → Returns m P
      → ((a : A) → P a → Returns (f a) Q)
      → Returns (m >>= f) Q
  Returns-bind (ok a) f h k = k a h
  Returns-bind die f h k = absurd h
  Returns-bind fault f h k = absurd h
  Returns-bind stuck f h k = absurd h

module _ {ℓ} {A : Type ℓ} (P Q : A → Type 0) where
  pub Ensures-map : (m : Run A) → Ensures m P → ((a : A) → P a → Q a) → Ensures m Q
  Ensures-map (ok a) h k = k a h
  Ensures-map die h k = tt
  Ensures-map fault h k = h
  Ensures-map stuck h k = h

  pub Returns-map : (m : Run A) → Returns m P → ((a : A) → P a → Q a) → Returns m Q
  Returns-map (ok a) h k = k a h
  Returns-map die h k = h
  Returns-map fault h k = h
  Returns-map stuck h k = h

module _ {ℓ} {A : Type ℓ} (P : A → Type 0) where
  pub Returns-Ensures : (m : Run A) → Returns m P → Ensures m P
  Returns-Ensures (ok a) h = h
  Returns-Ensures die h = tt
  Returns-Ensures fault h = absurd h
  Returns-Ensures stuck h = absurd h

  -- What is safe and does not end the process returns.
  pub Ensures-Returns : (m : Run A) → Ensures m P → m ≢ die → Returns m P
  Ensures-Returns (ok a) h n = h
  Ensures-Returns die h n = absurd (n refl)
  Ensures-Returns fault h n = h
  Ensures-Returns stuck h n = h

pub guard_lem : (t : Bool) → Ensures (guard t) (λ _. t ≡ true)
guard_lem true = refl
guard_lem false = tt

pub bind-ne-die {ℓ κ} :
    {A : Type ℓ} {B : Type κ} (P : A → Type 0) (m : Run A) (f : A → Run B)
    → Ensures m P
    → m ≢ die
    → ((a : A) → P a → f a ≢ die)
    → (m >>= f) ≢ die
bind-ne-die P (ok a) f h n k = k a h
bind-ne-die P die f h n k = absurd (n refl)
bind-ne-die P fault f h n k = cc
bind-ne-die P stuck f h n k = cc

pub Returns-ne {ℓ} : {A : Type ℓ} (P : A → Type 0) (m : Run A) → Returns m P → m ≢ die
Returns-ne P (ok a) h = cc
Returns-ne P die h = absurd h
Returns-ne P fault h = cc
Returns-ne P stuck h = cc

-- What stands behind a test may suppose that it holds.
pub guarded {ℓ} :
    {A : Type ℓ} (t : Bool) (k : Run A) (P : A → Type 0)
    → (t ≡ true → Ensures k P)
    → Ensures (guard t >> k) P
guarded true k P h = h refl
guarded false k P h = tt
