-- ===== src/Prelude/Dict.antt =====
-- Python's `dict`, in insertion order. Other modules go by the laws, and only tests unfold it.
use legallens.Prelude.Tests.{Eq, ◌==◌, contains, if◌then◌else◌, is_some, Bool-cases}
use mathlib.Core.Logic.{inl, inr}
use mathlib.Core.Path.{◌≡◌, refl}
use mathlib.Core.Bool.{Bool, true}
use mathlib.Core.Option.{Option, none, some}
use mathlib.Core.List.{List, [], ◌∷◌}
use native.Mathlib.Omega.{arith}

abbrev pub Dict {ℓ κ} : Type ℓ → Type κ → Type (ℓ ⊔ κ)
Dict K V = List (K × V)

abbrev pub keys {ℓ κ} : {K : Type ℓ} {V : Type κ} → Dict K V → List K
keys [] = []
keys ((k, _) ∷ d) = k ∷ keys d

abbrev pub values {ℓ κ} : {K : Type ℓ} {V : Type κ} → Dict K V → List V
values [] = []
values ((_, v) ∷ d) = v ∷ values d

module _ {ℓ κ} {K : Type ℓ} {V : Type κ} ⦃e : Eq K⦄ where
  -- `d.get(k)`
  unfoldable pub lookup : K → Dict K V → Option V
  lookup k [] = none
  lookup k ((j, v) ∷ d) = if k == j then some v else lookup k d

  -- `d[k] = v` keeps the place of a key that is there.
  unfoldable pub insert : K → V → Dict K V → Dict K V
  insert k v [] = (k, v) ∷ []
  insert k v ((j, w) ∷ d) = if k == j then (j, v) ∷ d else (j, w) ∷ insert k v d

  -- `d.pop(k, None)`
  unfoldable pub erase : K → Dict K V → Dict K V
  erase k [] = []
  erase k ((j, w) ∷ d) = let rest = erase k d in if k == j then rest else (j, w) ∷ rest

  pub lookup-nil : (k : K) → lookup k [] ≡ none
  unfolding lookup
  lookup-nil k = refl

  pub lookup-cons :
      (k j : K) (v : V) (d : Dict K V)
      → lookup k ((j, v) ∷ d) ≡ (if k == j then some v else lookup k d)
  unfolding lookup
  lookup-cons k j v d = refl

  pub lookup-insert :
      (k j : K) (v : V) (d : Dict K V)
      → lookup k (insert j v d) ≡ (if k == j then some v else lookup k d)
  unfolding insert lookup
  lookup-insert k j v [] = refl
  lookup-insert k j v (_ ∷ d) = ground (arith, lookup-insert k j v d)

  pub lookup-erase :
      (k j : K) (d : Dict K V) → lookup k (erase j d) ≡ (if k == j then none else lookup k d)
  unfolding erase lookup
  lookup-erase k j [] = ground arith
  lookup-erase k j (_ ∷ d) = ground (arith, lookup-erase k j d)

  -- `k in d`
  abbrev pub has : Dict K V → K → Bool
  has d k = is_some (lookup k d)

  pub contains-keys : (d : Dict K V) (k : K) → contains (keys d) k ≡ has d k
  unfolding lookup
  contains-keys [] k = refl
  contains-keys (_ ∷ d) k = ground (arith, contains-keys d k)

  -- A real dict has each key once.
  abbrev pub NodupKeys : Dict K V → Type κ
  NodupKeys [] = Unit
  NodupKeys ((k, _) ∷ d) = (lookup k d ≡ none) × NodupKeys d

  pub insert-NodupKeys : (k : K) (v : V) (d : Dict K V) → NodupKeys d → NodupKeys (insert k v d)
  unfolding insert
  insert-NodupKeys k v [] _ = (lookup-nil k, tt)
  insert-NodupKeys k v ((j, _) ∷ d) (fresh, u) =
      ground (arith, insert-NodupKeys k v d u, lookup-insert j k v d)

  pub erase-NodupKeys : (k : K) (d : Dict K V) → NodupKeys d → NodupKeys (erase k d)
  unfolding erase
  erase-NodupKeys k [] _ = tt
  erase-NodupKeys k ((j, _) ∷ d) (fresh, u) =
      ground (arith, erase-NodupKeys k d u, lookup-erase j k d)

module _ {ℓ κ} {K : Type ℓ} {V : Type κ} ⦃e : Eq K⦄ ⦃o : Eq V⦄ where
  pub contains-values :
      (k : K) (d : Dict K V) {v : V} → lookup k d ≡ some v → contains (values d) v ≡ true
  unfolding lookup
  contains-values k [] h = absurd (ground arith)
  contains-values k ((j, w) ∷ d) {v} h = ground (arith, contains-values k d {v = v})

  pub lookup_of_contains-values :
      (d : Dict K V) (v : V)
      → NodupKeys d
      → contains (values d) v ≡ true
      → (k : K) × (lookup k d ≡ some v)
  unfolding lookup
  lookup_of_contains-values [] v u h = absurd (ground arith)
  lookup_of_contains-values ((j, w) ∷ d) v u h = elim (Bool-cases (v == w)) [
    | inl same ↦ (j, ground arith)
    | inr other ↦
        let (k, found) = lookup_of_contains-values d v u.1 (ground arith) in (k, ground arith)
  ]

pub ruleset dict_laws = (lookup-nil, lookup-cons, lookup-insert, lookup-erase)
