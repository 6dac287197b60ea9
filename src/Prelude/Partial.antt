-- ===== src/Prelude/Partial.antt =====
-- Computations that may panic: `none` is a run-time panic of the Go code.
use mathlib.Core.Path.{◌≡◌, refl}
use mathlib.Core.Bool.{Bool, true, false}
use mathlib.Core.Option.{Option, none, some}
use job_scheduler_tooling.Prelude.Tests.{if◌then◌else◌}

infixl 5 ◌>>=◌
abbrev pub ◌>>=◌ {ℓ κ} : {A : Type ℓ} {B : Type κ} → Option A → (A → Option B) → Option B
none >>= f = none
some a >>= f = f a

-- The computation does not panic, and its value satisfies `P`.
pub data Yields {ℓ κ} {A : Type ℓ} (P : A → Type κ) : Option A → Type (ℓ ⊔ κ) where
  yields : {a : A} → P a → Yields P (some a)

module _ {ℓ κ} {A : Type ℓ} {P : A → Type κ} where
  pub Yields-then {ℓ' κ'} :
      {B : Type ℓ'} {Q : B → Type κ'} {m : Option A} {f : A → Option B}
      → Yields P m
      → ((a : A) → P a → Yields Q (f a))
      → Yields Q (m >>= f)
  Yields-then (yields p) k = k _ p

  pub Yields-weaken {κ'} :
      {Q : A → Type κ'} {m : Option A} → Yields P m → ((a : A) → P a → Q a) → Yields Q m
  Yields-weaken (yields p) k = yields (k _ p)

  pub Yields-branch :
      {m n : Option A} (b : Bool)
      → (b ≡ true → Yields P m)
      → (b ≡ false → Yields P n)
      → Yields P (if b then m else n)
  Yields-branch true k l = k refl
  Yields-branch false k l = l refl

  pub Yields-value : {m : Option A} → Yields P m → (a : A) × (m ≡ some a) × P a
  Yields-value (yields p) = (_, refl, p)

-- The computation may panic, but its value satisfies `P`.
abbrev pub IfSome {ℓ κ} : {A : Type ℓ} → (A → Type κ) → Option A → Type κ
IfSome P none = Unit
IfSome P (some a) = P a

pub IfSome-then {ℓ κ ν} :
    {A : Type ℓ} {B : Type κ} (P : B → Type ν) (m : Option A) (f : A → Option B)
    → ((a : A) → IfSome P (f a))
    → IfSome P (m >>= f)
IfSome-then P none f h = tt
IfSome-then P (some a) f h = h a

pub IfSome-map {ℓ κ ν ι} :
    {A : Type ℓ} {B : Type κ} (P : A → Type ν) (Q : B → Type ι) (m : Option A) (f : A → B)
    → IfSome P m
    → ((a : A) → P a → Q (f a))
    → IfSome Q (m >>= λ a. some (f a))
IfSome-map P Q none f p h = tt
IfSome-map P Q (some a) f p h = h a p

pub Yields-IfSome {ℓ κ ν} :
    {A : Type ℓ} {P : A → Type κ} (Q : A → Type ν) {m : Option A}
    → Yields P m
    → IfSome Q m
    → Yields (λ a. P a × Q a) m
Yields-IfSome Q (yields p) q = yields (p, q)

pub IfSome-chain {ℓ κ ν ι} :
    {A : Type ℓ} {B : Type κ} (P : A → Type ν) (Q : B → Type ι) (m : Option A) (f : A → Option B)
    → IfSome P m
    → ((a : A) → P a → IfSome Q (f a))
    → IfSome Q (m >>= f)
IfSome-chain P Q none f p h = tt
IfSome-chain P Q (some a) f p h = h a p
