-- ===== src/VectorStore/Ranking.antt =====
-- A query, as a ranking of the rows that meet the filter.
use mathlib.Core.List.{Perm}
use legallens.Prelude.{
  ℕ, zero, suc, ◌≡◌, refl, ap, sym, inl, inr, true, List, [], ◌∷◌, map, Text, text_eq, Outcome, ok,
  arith, get_elem?, take, length, is_empty, Eq, Bool-cases, if◌then◌else◌,
}
use legallens.Prelude.Dict.{Dict}
use legallens.Prelude.Sorting.{sorted, IsOrder, IsSorted, sorted-IsSorted, sorted-Perm}
use legallens.VectorStore.{Numpy, Match, Entry, LocalNumpyIndex}
use legallens.VectorStore.Scan.{
  hits, by_match, FromHere, scan, results_lem, take-StandFor, sort_onto-StandFor,
}
use legallens.VectorStore.Query.{ranked, query}

module _ {Vec Row Score Npy Value : Type 0} (np : Numpy Vec Row Score Npy) ⦃equal : Eq Value⦄
    (null : Value) where
  open np use {dot, fits, higher}

  picked :
      (filter : Dict Text Value) (c : Outcome (List ℕ)) (range chosen : List ℕ)
      → c ≡ ok chosen
      → (filter ≡ [] → chosen ≡ range)
      → (if is_empty filter then ok range else c) ≡ ok chosen
  picked [] c range chosen h u = ap ok (sym (u refl))
  picked (_ ∷ _) c range chosen h u = h

  -- A query on an index that holds something.
  ranked_lem :
      (q : Vec) (k : ℕ) (filter : Dict Text Value) (index : LocalNumpyIndex Row Value)
      → length index.vectors ≡ length index.manifest
      → fits q ≡ true
      → ranked np null q k filter index
        ≡ ok (
            take k (sorted (by_match np null) (hits np null q filter index.vectors index.manifest)))
  unfolding ranked sorted
  ranked_lem q k filter index n f =
      let scores = map (λ v. dot v q) index.vectors in
      let whole : FromHere np null index.manifest scores q 0 index.vectors index.manifest = record {
        entries = λ j. ap (get_elem? index.manifest) (omega arith);
        scored = λ j. ap (get_elem? scores) (omega arith);
      } in
      let s = scan np null index.manifest scores q filter 0 index.vectors index.manifest n whole in
      rw
        (
          np.matmul_fits index.vectors q f,
          picked filter _ _ _ s.are_candidates s.unfiltered,
          s.are_keyed,
        )
        (results_lem np null index.manifest scores _ _ (
          take-StandFor np null index.manifest scores k _ _
            (sort_onto-StandFor np null index.manifest scores _ _ [] [] s.are_hits tt)))

  hits_of_empty :
      (q : Vec) (filter : Dict Text Value) (vs : List Row) (ms : List (Entry Value))
      → is_empty ms ≡ true
      → hits np null q filter vs ms ≡ []
  hits_of_empty q filter [] ms h = refl
  hits_of_empty q filter (v ∷ vs) [] h = refl
  hits_of_empty q filter (v ∷ vs) (m ∷ ms) h = cc

  take-sorted-nil : (k : ℕ) → take k (sorted (by_match np null) []) ≡ []
  unfolding sorted
  take-sorted-nil zero = refl
  take-sorted-nil (suc k) = refl

  -- On an index with a row for each line of the manifest, with a query vector of its dimension, and if
  -- the order of scores is total and transitive, as it is without NaN, `query` returns the first `top_k`
  -- of a list that holds exactly the rows that meet the filter, each once and with its score, and that
  -- is in order, the highest score first.
  pub query-ranking :
      (q : Vec) (top_k : ℕ) (filter : Dict Text Value) (index : LocalNumpyIndex Row Value)
      → IsOrder higher
      → length index.vectors ≡ length index.manifest
      → fits q ≡ true
      → (all : List (Match Score Value)) × (query np null q top_k filter index
          ≡ ok (take top_k all))
        × IsSorted (by_match np null) all
        × Perm all (hits np null q filter index.vectors index.manifest)
  unfolding query
  query-ranking q k filter index o n f =
      let all = sorted (by_match np null) (hits np null q filter index.vectors index.manifest) in
      (
        all,
        elim (Bool-cases (is_empty index.manifest)) [
          | inl none_there ↦
              rw (none_there, hits_of_empty q filter index.vectors index.manifest none_there)
                (ap ok (sym (take-sorted-nil k)))
          | inr some_there ↦ rw (some_there, ranked_lem q k filter index n f)
        ],
        sorted-IsSorted (by_match np null)
            (record {
              total = λ a b. o.total a.score b.score;
              trans = λ a b c. o.trans a.score b.score c.score;
            })
            _,
        sorted-Perm (by_match np null) _,
      )
