-- ===== src/VectorStore/Positions.antt =====
-- The rows of an index as a dict, and the positions of its ids.
use legallens.Prelude.{
  ℕ, zero, suc, ◌+◌, ◌<◌, ◌≡◌, refl, ap, List, [], ◌∷◌, ◌++◌, Text, text_eq, nat_eq, Option, some,
  none, arith, set, length, ◌==◌, if◌then◌else◌,
}
use legallens.Prelude.Dict.{Dict, lookup, insert, lookup-nil, lookup-insert, NodupKeys}
use legallens.VectorStore.{Entry, ids_existing}

-- The place, counted from `i`, or else the default.
abbrev located : ℕ → Option ℕ → Option ℕ → Option ℕ
located i default none = default
located i default (some p) = some (i + p)

abbrev later : Option ℕ → Option ℕ
later none = none
later (some p) = some (suc p)

module _ {Value : Type 0} where
  -- The first place of an id.
  abbrev pub place : Text → List (Entry Value) → Option ℕ
  place k [] = none
  place k (m ∷ ms) = let rest = later (place k ms) in if k == m.id then some 0 else rest

  abbrev pub NodupIds : List (Entry Value) → Type 0
  NodupIds [] = Unit
  NodupIds (m ∷ ms) = (place m.id ms ≡ none) × NodupIds ms

  lookup-ids_existing :
      (i : ℕ) (ms : List (Entry Value)) (d : Dict Text ℕ) (k : Text)
      → NodupIds ms
      → lookup k (ids_existing i ms d) ≡ located i (lookup k d) (place k ms)
  unfolding ids_existing
  lookup-ids_existing i [] d k u = refl
  lookup-ids_existing i (m ∷ ms) d k u =
      ground
        (arith, lookup-ids_existing (suc i) ms (insert m.id i d) k u.1, lookup-insert k m.id i d)

  -- `ids_existing` of the whole manifest gives the places.
  pub lookup-ids_existing_all :
      (ms : List (Entry Value)) (k : Text)
      → NodupIds ms
      → lookup k (ids_existing 0 ms []) ≡ place k ms
  lookup-ids_existing_all ms k u =
      ground (arith, lookup-ids_existing 0 ms [] k u, lookup-nil {V = ℕ} k)

  pub place-set :
      (ms : List (Entry Value)) (k : Text) (p : ℕ) (e : Entry Value) (j : Text)
      → place k ms ≡ some p
      → e.id ≡ k
      → place j (set ms p e) ≡ place j ms
  place-set [] k p e j h same = refl
  place-set (m ∷ ms) k zero e j h same = ground arith
  place-set (m ∷ ms) k (suc p) e j h same = ground (arith, place-set ms k p e j)

  pub place-lt-length :
      (ms : List (Entry Value)) (k : Text) (p : ℕ) → place k ms ≡ some p → p < length ms
  place-lt-length [] k p h = absurd (ground arith)
  place-lt-length (m ∷ ms) k zero h = omega arith
  place-lt-length (m ∷ ms) k (suc p) h = ground (arith, place-lt-length ms k p)

  pub place-append :
      (ms : List (Entry Value)) (ns : List (Entry Value)) (k : Text) (p : ℕ)
      → place k ms ≡ some p
      → place k (ms ++ ns) ≡ some p
  place-append [] ns k p h = absurd (ground arith)
  place-append (m ∷ ms) ns k zero h = ground arith
  place-append (m ∷ ms) ns k (suc p) h = ground (arith, place-append ms ns k p)

  pub place-append_none :
      (ms : List (Entry Value)) (ns : List (Entry Value)) (k : Text)
      → place k ms ≡ none
      → place k ns ≡ none
      → place k (ms ++ ns) ≡ none
  place-append_none [] ns k h g = g
  place-append_none (m ∷ ms) ns k h g = ground (arith, place-append_none ms ns k)

pub set-append {ℓ} :
    {A : Type ℓ} (xs ys : List A) (p : ℕ) (v : A)
    → p < length xs
    → set (xs ++ ys) p v ≡ set xs p v ++ ys
set-append [] ys p v h = absurd (omega arith)
set-append (x ∷ xs) ys zero v h = refl
set-append (x ∷ xs) ys (suc p) v h = ap (◌∷◌ x) (set-append xs ys p v (omega arith))

module _ {Row Value : Type 0} where
  -- The contents of an index: each id with its row and its metadata.
  abbrev pub rows : List Row → List (Entry Value) → Dict Text (Row × Dict Text Value)
  rows [] ms = []
  rows (v ∷ vs) [] = []
  rows (v ∷ vs) (m ∷ ms) = (m.id, (v, m.metadata)) ∷ rows vs ms

  place_of_lookup :
      (vs : List Row) (ms : List (Entry Value)) (k : Text)
      → length vs ≡ length ms
      → lookup k (rows vs ms) ≡ none
      → place k ms ≡ none
  unfolding lookup
  place_of_lookup [] [] k n h = refl
  place_of_lookup [] (m ∷ ms) k n h = absurd (omega arith)
  place_of_lookup (v ∷ vs) [] k n h = refl
  place_of_lookup (v ∷ vs) (m ∷ ms) k n h = ground (arith, place_of_lookup vs ms k)

  pub NodupIds-rows :
      (vs : List Row) (ms : List (Entry Value))
      → length vs ≡ length ms
      → NodupKeys (rows vs ms)
      → NodupIds ms
  NodupIds-rows vs [] n u = tt
  NodupIds-rows [] (m ∷ ms) n u = absurd (omega arith)
  NodupIds-rows (v ∷ vs) (m ∷ ms) n u =
      (place_of_lookup vs ms m.id (omega arith) u.0, NodupIds-rows vs ms (omega arith) u.1)

  pub rows-set :
      (vs : List Row) (ms : List (Entry Value)) (k : Text) (p : ℕ) (v : Row) (e : Entry Value)
      → length vs ≡ length ms
      → place k ms ≡ some p
      → e.id ≡ k
      → rows (set vs p v) (set ms p e) ≡ insert k (v, e.metadata) (rows vs ms)
  unfolding insert
  rows-set vs [] k p v e n h same = absurd (ground arith)
  rows-set [] (m ∷ ms) k p v e n h same = absurd (omega arith)
  rows-set (w ∷ vs) (m ∷ ms) k zero v e n h same = ground arith
  rows-set (w ∷ vs) (m ∷ ms) k (suc p) v e n h same = ground (arith, rows-set vs ms k p v e)

  pub rows-append :
      (vs : List Row) (ms : List (Entry Value)) (k : Text) (v : Row) (e : Entry Value)
      → length vs ≡ length ms
      → place k ms ≡ none
      → e.id ≡ k
      → rows (vs ++ v ∷ []) (ms ++ e ∷ []) ≡ insert k (v, e.metadata) (rows vs ms)
  unfolding insert
  rows-append [] [] k v e n h same = ground arith
  rows-append [] (m ∷ ms) k v e n h same = absurd (omega arith)
  rows-append (w ∷ vs) [] k v e n h same = absurd (omega arith)
  rows-append (w ∷ vs) (m ∷ ms) k v e n h same = ground (arith, rows-append vs ms k v e)
