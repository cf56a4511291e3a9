-- ===== src/Base/Outcome.antt =====
-- What a C++ call ends in: a value, an exception that the code throws, or undefined behaviour
-- (an access outside an allocation, through a null pointer or into freed memory).
use mathlib.Core.Path.{◌≡◌, refl, sym, ap, ◌∙◌}
use mathlib.Core.Bool.{Bool, true, false}
use mathlib.Core.Logic.{◌⊎◌, inl, inr}

pub data Outcome {ℓ} (A : Type ℓ) : Type ℓ where
  ok : A → Outcome A
  thrown : Outcome A
  fault : Outcome A

infixl 5 ◌>>=◌ ◌>>◌
abbrev pub ◌>>=◌ {ℓ κ} : {A : Type ℓ} {B : Type κ} → Outcome A → (A → Outcome B) → Outcome B
ok a >>= f = f a
thrown >>= f = thrown
fault >>= f = fault

abbrev pub ◌>>◌ {κ} : {B : Type κ} → Outcome (Unit {0}) → Outcome B → Outcome B
first >> then_do = first >>= λ done. then_do

-- What the language requires at this point; its violation is undefined behaviour.
abbrev pub require : Bool → Outcome (Unit {0})
require true = ok tt
require false = fault

-- `if (bad) throw ...`
abbrev pub throw_if : Bool → Outcome (Unit {0})
throw_if true = thrown
throw_if false = ok tt

module _ {ℓ} {A : Type ℓ} where
  -- the value of an outcome, or `d`
  abbrev pub value_or : A → Outcome A → A
  value_or d (ok a) = a
  value_or d thrown = d
  value_or d fault = d

  pub ok-injective : {a b : A} → ok a ≡ ok b → a ≡ b
  ok-injective {a} e = ap (value_or a) e

  -- Two results of one call are the same.
  pub ok_unique : (m : Outcome A) {a b : A} → m ≡ ok a → m ≡ ok b → a ≡ b
  ok_unique m p q = ok-injective (sym p ∙ q)

pub bind_cong {ℓ κ} :
    {A : Type ℓ} {B : Type κ} (m n : Outcome A) (f g : A → Outcome B)
    → m ≡ n
    → ((a : A) → f a ≡ g a)
    → (m >>= f) ≡ (n >>= g)
bind_cong {A} m n f g e h = ap (λ k. k >>= f) e ∙ pointwise n
  where
    pointwise : (k : Outcome A) → (k >>= f) ≡ (k >>= g)
    pointwise (ok a) = h a
    pointwise thrown = refl
    pointwise fault = refl

pub bind_assoc {ℓ κ μ} :
    {A : Type ℓ} {B : Type κ} {C : Type μ} (m : Outcome A) (f : A → Outcome B) (g : B → Outcome C)
    → ((m >>= f) >>= g) ≡ (m >>= λ a. f a >>= g)
bind_assoc (ok a) f g = refl
bind_assoc thrown f g = refl
bind_assoc fault f g = refl

-- A chain that gives a value has one from its first part.
pub bind_ok {ℓ κ} :
    {A : Type ℓ} {B : Type κ} (m : Outcome A) (f : A → Outcome B) {b : B}
    → (m >>= f) ≡ ok b
    → (a : A) × (m ≡ ok a) × (f a ≡ ok b)
bind_ok (ok a) f h = (a, refl, h)
bind_ok thrown f h = cc
bind_ok fault f h = cc

pub Outcome-cases {ℓ} :
    {A : Type ℓ} (m : Outcome A) → (((a : A) × (m ≡ ok a))) ⊎ ((m ≡ thrown) ⊎ (m ≡ fault))
Outcome-cases (ok a) = inl (a, refl)
Outcome-cases thrown = inr (inl refl)
Outcome-cases fault = inr (inr refl)

-- What a chain shows that gets past a guard.
pub require_ok {κ} :
    {B : Type κ} (c : Bool) (m : Outcome B) {b : B}
    → (require c >> m) ≡ ok b
    → (c ≡ true) × (m ≡ ok b)
require_ok true m h = (refl, h)
require_ok false m h = cc

pub throw_if_ok {κ} :
    {B : Type κ} (c : Bool) (m : Outcome B) {b : B}
    → (throw_if c >> m) ≡ ok b
    → (c ≡ false) × (m ≡ ok b)
throw_if_ok true m h = cc
throw_if_ok false m h = (refl, h)
