-- ===== src/Base/Anyhow.antt =====
-- `anyhow::Result`: a value, or the text of an error that ends the command or the start.
use Prim.Native.String.{String}
use mathlib.Core.Path.{◌≡◌, refl}
use mathlib.Core.Option.{Option, none, some}

pub data Anyhow {ℓ} (A : Type ℓ) : Type ℓ where
  value : A → Anyhow A
  bail : String → Anyhow A

infixl 5 ◌>>=◌ ◌>>◌
abbrev pub ◌>>=◌ {ℓ κ} : {A : Type ℓ} {B : Type κ} → Anyhow A → (A → Anyhow B) → Anyhow B
value a >>= f = f a
bail e >>= f = bail e

abbrev pub ◌>>◌ {ℓ κ} : {A : Type ℓ} {B : Type κ} → Anyhow A → Anyhow B → Anyhow B
m >> k = m >>= λ _. k

-- The value alone.
abbrev pub accepted {ℓ} : {A : Type ℓ} → Anyhow A → Option A
accepted (value a) = some a
accepted (bail e) = none

pub bind-eq-value {ℓ κ} :
    {A : Type ℓ} {B : Type κ} (m : Anyhow A) (f : A → Anyhow B) (b : B)
    → (m >>= f) ≡ value b
    → (a : A) × (m ≡ value a) × (f a ≡ value b)
bind-eq-value (value a) f b e = (a, refl, e)
bind-eq-value (bail m) f b e = absurd (cc)

abbrev pub OnValue {ℓ κ} : {A : Type ℓ} → (A → Type κ) → Anyhow A → Type κ
OnValue P (value a) = P a
OnValue P (bail e) = Unit

-- A step, then the rest: what the rest gives after each value that the step can have.
pub bind-OnValue {ℓ κ μ ν} :
    {A : Type ℓ} {B : Type κ} (Q : A → Type ν) (P : B → Type μ) (m : Anyhow A) (f : A → Anyhow B)
    → OnValue Q m
    → ((a : A) → Q a → OnValue P (f a))
    → OnValue P (m >>= f)
bind-OnValue Q P (value a) f q k = k a q
bind-OnValue Q P (bail e) f q k = tt
