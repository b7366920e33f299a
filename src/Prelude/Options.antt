-- ===== src/Prelude/Options.antt =====
-- The `?` operator and `and_then` on options, as the operator of do blocks.
use mathlib.Core.Path.{◌≡◌, refl}
use mathlib.Core.Bool.{Bool, true, false}
use mathlib.Core.Option.{Option, none, some}
use girasolbot.Prelude.Lists.{is_some}

infixl 5 ◌>>=◌
abbrev pub ◌>>=◌ {ℓ κ} : {A : Type ℓ} {B : Type κ} → Option A → (A → Option B) → Option B
none >>= f = none
some a >>= f = f a

abbrev pub unwrap_or {ℓ} : {A : Type ℓ} → Option A → A → A
unwrap_or none d = d
unwrap_or (some a) d = a

infixl 4 ◌or_else◌
abbrev pub ◌or_else◌ {ℓ} : {A : Type ℓ} → Option A → Option A → Option A
none or_else b = b
some a or_else b = some a

-- `o.filter(p)`
abbrev pub filter {ℓ} : {A : Type ℓ} → (A → Bool) → Option A → Option A
filter p none = none
filter p (some a) = elim (p a) [ true ↦ some a | false ↦ none ]

-- A computation that returns something, taken apart at its first step.
pub bind-some {ℓ κ} :
    {A : Type ℓ} {B : Type κ} (o : Option A) (f : A → Option B) (b : B)
    → (o >>= f) ≡ some b
    → (a : A) × (o ≡ some a) × (f a ≡ some b)
bind-some none f b h = cc
bind-some (some a) f b h = (a, refl, h)

pub is_some-value {ℓ} : {A : Type ℓ} (o : Option A) → is_some o ≡ true → (a : A) × (o ≡ some a)
is_some-value none h = cc
is_some-value (some a) h = (a, refl)

pub or_else-none {ℓ} : {A : Type ℓ} (o : Option A) → (o or_else none) ≡ o
or_else-none none = refl
or_else-none (some a) = refl
