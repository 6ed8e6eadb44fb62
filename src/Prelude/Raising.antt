-- ===== src/Prelude/Raising.antt =====
-- What a Python call does: it returns, or it raises.
use mathlib.Core.List.{List}
use mathlib.Core.Option.{Option, none, some}
use mathlib.Core.Path.{◌≡◌, refl}
use mathlib.Core.Logic.{◌⊎◌, inl, inr}
use Prim.Native.Nat.{ℕ}
use legallens.Prelude.Tests.{Eq}
use legallens.Prelude.Lists.{get_elem?}
use legallens.Prelude.Dict.{Dict, lookup}

pub data Error : Type 0 where
  key_error index_error value_error type_error : Error
  no_workers_available : Error
  -- with its message
  agent_loop_error : List ℕ → Error
  -- whatever a library or a service raises, with its message
  other : List ℕ → Error

pub data Outcome {ℓ} (A : Type ℓ) : Type ℓ where
  ok : A → Outcome A
  raise : Error → Outcome A

infixl 5 ◌>>=◌ ◌>>◌
abbrev pub ◌>>=◌ {ℓ κ} : {A : Type ℓ} {B : Type κ} → Outcome A → (A → Outcome B) → Outcome B
ok a >>= f = f a
raise e >>= f = raise e

abbrev pub ◌>>◌ {ℓ κ} : {A : Type ℓ} {B : Type κ} → Outcome A → Outcome B → Outcome B
m >> k = m >>= λ _. k

abbrev pub or_raise {ℓ} : {A : Type ℓ} → Error → Option A → Outcome A
or_raise e none = raise e
or_raise e (some a) = ok a

pub Outcome-cases {ℓ} :
    {A : Type ℓ} (o : Outcome A) → ((a : A) × (o ≡ ok a)) ⊎ ((e : Error) × (o ≡ raise e))
Outcome-cases (ok a) = inl (a, refl)
Outcome-cases (raise e) = inr (e, refl)

-- Inversion of a successful bind.
pub bind_inv {ℓ κ} :
    {A : Type ℓ} {B : Type κ} (m : Outcome A) (f : A → Outcome B) (b : B)
    → (m >>= f) ≡ ok b
    → (a : A) × (m ≡ ok a) × (f a ≡ ok b)
bind_inv (ok a) f b h = (a, refl, h)
bind_inv (raise e) f b h = cc

-- `xs[i]`
abbrev pub get_at {ℓ} : {A : Type ℓ} → List A → ℕ → Outcome A
get_at xs i = or_raise index_error (get_elem? xs i)

-- `d[k]`
abbrev pub get_item {ℓ κ} : {K : Type ℓ} {V : Type κ} ⦃e : Eq K⦄ → K → Dict K V → Outcome V
get_item k d = or_raise key_error (lookup k d)
