-- ===== src/Driver/Laws/Triples.antt =====
-- What holds of the driver and the bus when an operation returns.
use ether_house.Base.{◌≡◌, refl, Bool, true, false, if◌then◌else◌}
use ether_house.Driver.{Driver, Outcome, returns, waits, D, ◌>>=◌, ◌>>◌, done, when}

-- A run that returned has Q, one that still waits has W: `Unit` where only the returns count, `⊥`
-- where the operation has to return.
module _ (W : Type 0) where
  abbrev pub Settles {ℓ} : {A : Type ℓ} → (A → Driver → Type 0) → Outcome A → Type 0
  Settles Q (returns a d) = Q a d
  Settles Q (waits d) = W

  pub bind-Settles {ℓ κ} :
      {A : Type ℓ} {B : Type κ} (P : Driver → Type 0) (Q : A → Driver → Type 0)
      (R : B → Driver → Type 0) (m : D A) (f : A → D B)
      → ((d : Driver) → P d → Settles Q (m d))
      → ((a : A) (d : Driver) → Q a d → Settles R (f a d))
      → (d : Driver) → P d
      → Settles R ((m >>= f) d)
  bind-Settles {A} {B} P Q R m f h h' d p = next (m d) (h d p)
    where
      next :
          (o : Outcome A)
          → Settles Q o
          → Settles {A = B} R (elim o [ returns a d' ↦ f a d' | waits d' ↦ waits d' ])
      next (returns a d') q = h' a d' q
      next (waits d') q = q

  pub weaken {ℓ} :
      {A : Type ℓ} (Q R : A → Driver → Type 0) (o : Outcome A)
      → Settles Q o
      → ((a : A) (d : Driver) → Q a d → R a d)
      → Settles R o
  weaken Q R (returns a d) q h = h a d q
  weaken Q R (waits d) q h = q

abbrev pub After {ℓ} : {A : Type ℓ} → (A → Driver → Type 0) → Outcome A → Type 0
After = Settles Unit

-- From each driver with P, the operation only returns in one with Q.
abbrev pub Leads {ℓ} : {A : Type ℓ} → (Driver → Type 0) → (A → Driver → Type 0) → D A → Type 0
Leads P Q m = (d : Driver) → P d → After Q (m d)

pub bind-Leads {ℓ κ} :
    {A : Type ℓ} {B : Type κ} (P : Driver → Type 0) (Q : A → Driver → Type 0)
    (R : B → Driver → Type 0) (m : D A) (f : A → D B)
    → Leads P Q m
    → ((a : A) → Leads (Q a) R (f a))
    → Leads P R (m >>= f)
bind-Leads = bind-Settles Unit

-- It returns, in a driver with Q.
abbrev pub Gives {ℓ} : {A : Type ℓ} → (Driver → Type 0) → (A → Driver → Type 0) → D A → Type 0
Gives P Q m = (d : Driver) → P d → Settles ⊥ Q (m d)

pub bind-Gives {ℓ κ} :
    {A : Type ℓ} {B : Type κ} (P : Driver → Type 0) (Q : A → Driver → Type 0)
    (R : B → Driver → Type 0) (m : D A) (f : A → D B)
    → Gives P Q m
    → ((a : A) → Gives (Q a) R (f a))
    → Gives P R (m >>= f)
bind-Gives = bind-Settles ⊥

pub returned {ℓ} :
    {A : Type ℓ} (Q : A → Driver → Type 0) (o : Outcome A)
    → Settles ⊥ Q o
    → (a : A) × (d : Driver) × (o ≡ returns a d) × Q a d
returned Q (returns a d) q = (a, d, refl, q)
returned Q (waits d) q = absurd q

pub both {ℓ} :
    {A : Type ℓ} (Q R : A → Driver → Type 0) (o : Outcome A)
    → Settles ⊥ Q o
    → After R o
    → Settles ⊥ (λ a d. Q a d × R a d) o
both Q R (returns a d) q r = (q, r)
both Q R (waits d) q r = q

-- What an operation keeps.
module _ (P : Driver → Type 0) where
  abbrev pub Keeps {ℓ} : {A : Type ℓ} → D A → Type 0
  Keeps m = Leads P (λ _. P) m

  pub bind-Keeps {ℓ κ} :
      {A : Type ℓ} {B : Type κ} (m : D A) (f : A → D B)
      → Keeps m
      → ((a : A) → Keeps (f a))
      → Keeps (m >>= f)
  bind-Keeps m f h h' = bind-Leads P (λ _. P) (λ _. P) m f h h'

  pub then-Keeps {ℓ} :
      {B : Type ℓ} (m : D (Unit {0})) (k : D B) → Keeps m → Keeps k → Keeps (m >> k)
  then-Keeps m k h h' = bind-Keeps m (λ _. k) h (λ _. h')

  pub either-Keeps {ℓ} :
      {A : Type ℓ} (t : Bool) (m m' : D A) → Keeps m → Keeps m' → Keeps (if t then m else m')
  either-Keeps true m m' h h' = h
  either-Keeps false m m' h h' = h'

  pub when-Keeps : (t : Bool) (m : D (Unit {0})) → Keeps m → Keeps (when t m)
  when-Keeps t m h = either-Keeps t m done h (λ d p. p)
