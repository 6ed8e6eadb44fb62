-- ===== src/VectorStore/Query.antt =====
-- `LocalNumpyIndex.query`: a scan over all rows. `null` is Python's `None`, which `get` gives for a
-- key that is missing.
use legallens.Prelude.{
  ℕ, Bool, true, ◌&&◌, List, [], ◌∷◌, Text, text_eq, some, none, Outcome, ok, ◌>>=◌, get_at, take,
  length, is_empty, Eq, ◌==◌, range_from, if◌then◌else◌,
}
use legallens.Prelude.Dict.{Dict, lookup}
use legallens.Prelude.Sorting.{sorted}
use legallens.VectorStore.{Numpy, Match, Entry, LocalNumpyIndex}

module _ {Vec Row Score Npy Value : Type 0} (np : Numpy Vec Row Score Npy) ⦃equal : Eq Value⦄
    (null : Value) where
  open np use {matmul, higher}

  -- `all(metadata.get(k) == v for k, v in filter.items())`
  unfoldable pub satisfies : Dict Text Value → Dict Text Value → Bool
  satisfies metadata [] = true
  satisfies metadata ((k, v) ∷ filter) =
      (elim (lookup k metadata) [ none ↦ null | some w ↦ w ]) == v && satisfies metadata filter

  -- The list comprehension that filters the candidates.
  unfoldable pub candidates : List (Entry Value) → Dict Text Value → List ℕ → Outcome (List ℕ)
  unfolding satisfies
  candidates manifest filter [] = ok []
  candidates manifest filter (i ∷ is) = do
    entry ← get_at manifest i
    rest ← candidates manifest filter is
    ok (if satisfies entry.metadata filter then i ∷ rest else rest)

  -- `sorted` computes the key of each candidate once, before it compares them.
  unfoldable pub keyed : List Score → List ℕ → Outcome (List (Score × ℕ))
  keyed scores [] = ok []
  keyed scores (i ∷ is) = do score ← get_at scores i; rest ← keyed scores is; ok ((score, i) ∷ rest)

  unfoldable pub results :
      List (Entry Value) → List Score → List (Score × ℕ) → Outcome (List (Match Score Value))
  results manifest scores [] = ok []
  results manifest scores ((_, i) ∷ ranked) = do
    entry ← get_at manifest i
    score ← get_at scores i
    rest ← results manifest scores ranked
    ok (record { id = entry.id; score = score; metadata = entry.metadata } ∷ rest)

  abbrev pub by_score : Score × ℕ → Score × ℕ → Bool
  by_score (a, _) (b, _) = higher a b

  -- An empty filter and `None` are the same to the code.
  unfoldable pub ranked :
      Vec → ℕ → Dict Text Value → LocalNumpyIndex Row Value → Outcome (List (Match Score Value))
  unfolding candidates keyed results
  ranked vector top_k filter index = do
    scores ← matmul index.vectors vector
    candidate_idx ←
        (if is_empty filter
          then ok (range_from 0 (length index.manifest))
          else candidates index.manifest filter (range_from 0 (length index.manifest)))
    pairs ← keyed scores candidate_idx
    results index.manifest scores (take top_k (sorted by_score pairs))

  unfoldable pub query :
      Vec → ℕ → Dict Text Value → LocalNumpyIndex Row Value → Outcome (List (Match Score Value))
  unfolding ranked
  query vector top_k filter index =
      if is_empty index.manifest then ok [] else ranked vector top_k filter index
