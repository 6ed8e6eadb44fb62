-- ===== src/Prelude/Sorting.antt =====
-- Python's `sorted`, as a stable insertion sort over a total order given by a test.
use mathlib.Core.Path.{◌≡◌, refl}
use mathlib.Core.Bool.{Bool, true, ◌||◌}
use mathlib.Core.List.{List, [], ◌∷◌, ◌++◌, Perm, append-nil, perm_middle}
use mathlib.Core.List.Perm
use mathlib.Core.Logic.{◌⊎◌, inl, inr}
use Prim.Native.Nat.{suc, ◌+◌}
use native.Mathlib.Omega.{arith}
use legallens.Prelude.Tests.{Eq, ◌==◌, contains, Bool-cases, if◌then◌else◌}
use legallens.Prelude.Lists.{All, length}

module _ {ℓ} {A : Type ℓ} where
  -- Behind the elements that are not above it.
  unfoldable pub insert_by : (A → A → Bool) → A → List A → List A
  insert_by le x [] = x ∷ []
  insert_by le x (y ∷ ys) = if le y x then y ∷ insert_by le x ys else x ∷ y ∷ ys

  unfoldable pub sort_onto : (A → A → Bool) → List A → List A → List A
  unfolding insert_by
  sort_onto le out [] = out
  sort_onto le out (x ∷ xs) = sort_onto le (insert_by le x out) xs

  -- The elements are put in one after another, so that equal ones keep their order.
  unfoldable pub sorted : (A → A → Bool) → List A → List A
  unfolding sort_onto
  sorted le xs = sort_onto le [] xs

module _ {ℓ} {A : Type ℓ} (le : A → A → Bool) where
  length-insert_by : (x : A) (ys : List A) → length (insert_by le x ys) ≡ suc (length ys)
  unfolding insert_by
  length-insert_by x [] = refl
  length-insert_by x (y ∷ ys) = ground (arith, length-insert_by x ys)

  length-sort_onto : (out xs : List A) → length (sort_onto le out xs) ≡ length out + length xs
  unfolding sort_onto
  length-sort_onto out [] = omega arith
  length-sort_onto out (x ∷ xs) =
      omega (arith, length-sort_onto (insert_by le x out) xs, length-insert_by x out)

  pub length-sorted : (xs : List A) → length (sorted le xs) ≡ length xs
  unfolding sorted
  length-sorted xs = omega (arith, length-sort_onto [] xs)

module _ {ℓ} {A : Type ℓ} ⦃e : Eq A⦄ (le : A → A → Bool) where
  contains-insert_by :
      (x : A) (ys : List A) (a : A) → contains (insert_by le x ys) a ≡ (a == x || contains ys a)
  unfolding insert_by
  contains-insert_by x [] a = refl
  contains-insert_by x (y ∷ ys) a = ground (arith, contains-insert_by x ys a)

  contains-sort_onto :
      (out xs : List A) (a : A)
      → contains (sort_onto le out xs) a ≡ (contains out a || contains xs a)
  unfolding sort_onto
  contains-sort_onto out [] a = ground arith
  contains-sort_onto out (x ∷ xs) a =
      ground (arith, contains-sort_onto (insert_by le x out) xs a, contains-insert_by x out a)

  -- Sorting keeps the elements.
  pub contains-sorted : (xs : List A) (a : A) → contains (sorted le xs) a ≡ contains xs a
  unfolding sorted
  contains-sorted xs a = contains-sort_onto [] xs a

module _ {ℓ} {A : Type ℓ} (le : A → A → Bool) where
  insert_by-Perm : (x : A) (ys : List A) → Perm (insert_by le x ys) (x ∷ ys)
  unfolding insert_by
  insert_by-Perm x [] = Perm.refl _
  insert_by-Perm x (y ∷ ys) = elim (Bool-cases (le y x)) [
    | inl h ↦ rw h (Perm.trans (Perm.cons y (insert_by-Perm x ys)) (Perm.swap x y ys))
    | inr h ↦ rw h (Perm.refl _)
  ]

  sort_onto-Perm : (out xs : List A) → Perm (sort_onto le out xs) (out ++ xs)
  unfolding sort_onto
  sort_onto-Perm out [] = rw (append-nil out) (Perm.refl out)
  sort_onto-Perm out (x ∷ xs) =
      Perm.trans (sort_onto-Perm (insert_by le x out) xs)
        (Perm.trans (Perm.append_right xs (insert_by-Perm x out)) (Perm.symm (perm_middle out xs)))

  pub sorted-Perm : (xs : List A) → Perm (sorted le xs) xs
  unfolding sorted
  sorted-Perm xs = sort_onto-Perm [] xs

-- `le` orders its type: what `sorted` asks of the keys.
pub record IsOrder {ℓ} {A : Type ℓ} (le : A → A → Bool) : Type ℓ where
  pub total : (a b : A) → (le a b ≡ true) ⊎ (le b a ≡ true)
  pub trans : (a b c : A) → le a b ≡ true → le b c ≡ true → le a c ≡ true

module _ {ℓ} {A : Type ℓ} (le : A → A → Bool) where
  abbrev pub IsSorted : List A → Type 0
  IsSorted [] = Unit
  IsSorted (x ∷ xs) = All (λ y. le x y ≡ true) xs × IsSorted xs

  module _ (o : IsOrder le) where
    All-le :
        (x y : A) (ys : List A)
        → le x y ≡ true
        → All (λ z. le y z ≡ true) ys
        → All (λ z. le x z ≡ true) ys
    All-le x y [] h hs = tt
    All-le x y (z ∷ ys) h hs = (o.trans x y z h hs.0, All-le x y ys h hs.1)

    All-insert_by :
        (z x : A) (ys : List A)
        → le z x ≡ true
        → All (λ y. le z y ≡ true) ys
        → All (λ y. le z y ≡ true) (insert_by le x ys)
    unfolding insert_by
    All-insert_by z x [] h hs = (h, tt)
    All-insert_by z x (y ∷ ys) h hs = ground (arith, All-insert_by z x ys h)

    insert_by-IsSorted : (x : A) (ys : List A) → IsSorted ys → IsSorted (insert_by le x ys)
    unfolding insert_by
    insert_by-IsSorted x [] hs = (tt, tt)
    insert_by-IsSorted x (y ∷ ys) hs = elim (Bool-cases (le y x)) [
      | inl h ↦ rw h (All-insert_by y x ys h hs.0, insert_by-IsSorted x ys hs.1)
      | inr h ↦
          let xy : le x y ≡ true = ground (arith, o.total x y) in
          rw h ((xy, All-le x y ys xy hs.0), hs)
    ]

    sort_onto-IsSorted : (out xs : List A) → IsSorted out → IsSorted (sort_onto le out xs)
    unfolding sort_onto
    sort_onto-IsSorted out [] hs = hs
    sort_onto-IsSorted out (x ∷ xs) hs =
        sort_onto-IsSorted (insert_by le x out) xs (insert_by-IsSorted x out hs)

    -- The result is in order.
    pub sorted-IsSorted : (xs : List A) → IsSorted (sorted le xs)
    unfolding sorted
    sorted-IsSorted xs = sort_onto-IsSorted [] xs tt
