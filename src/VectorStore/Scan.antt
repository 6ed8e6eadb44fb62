-- ===== src/VectorStore/Scan.antt =====
-- What a query chooses and scores, row by row.
use legallens.Prelude.{
  ℕ, zero, suc, ◌+◌, ◌≡◌, refl, ap, subst, inl, inr, Bool, true, List, [], ◌∷◌, map, Text, text_eq,
  some, ok, arith, get_at, get_elem?, take, length, Eq, range_from, Bool-cases, if◌then◌else◌,
}
use legallens.Prelude.Dict.{Dict}
use legallens.Prelude.Sorting.{sort_onto, insert_by}
use legallens.VectorStore.{Numpy, Match, Entry}
use legallens.VectorStore.Query.{satisfies, candidates, keyed, results, by_score}

module _ {Vec Row Score Npy Value : Type 0} (np : Numpy Vec Row Score Npy) ⦃equal : Eq Value⦄
    (null : Value) where
  open np use {dot, fits, higher}

  -- The rows that meet the filter, with their scores, in the order of the index.
  abbrev pub hits : Vec → Dict Text Value → List Row → List (Entry Value) → List (Match Score Value)
  hits q filter [] ms = []
  hits q filter (v ∷ vs) [] = []
  hits q filter (v ∷ vs) (m ∷ ms) =
      let rest = hits q filter vs ms in
      let hit : Match Score Value = record { id = m.id; score = dot v q; metadata = m.metadata } in
      if satisfies np null m.metadata filter then hit ∷ rest else rest

  abbrev pub by_match : Match Score Value → Match Score Value → Bool
  by_match a b = higher a.score b.score

  module _ (manifest : List (Entry Value)) (scores : List Score) where
    -- The number `i` with its key `s` stands for this match.
    pub record StandsFor (p : Score × ℕ) (h : Match Score Value) : Type 0 where
      pub metadata_at : get_at manifest p.1 ≡ ok (record { id = h.id; metadata = h.metadata })
      pub score_at : get_at scores p.1 ≡ ok h.score
      pub key : p.0 ≡ h.score

    abbrev pub StandFor : List (Score × ℕ) → List (Match Score Value) → Type 0
    StandFor [] [] = Unit
    StandFor [] (h ∷ hs) = ⊥
    StandFor (p ∷ ps) [] = ⊥
    StandFor (p ∷ ps) (h ∷ hs) = StandsFor p h × StandFor ps hs

    insert_by-StandFor :
        (p : Score × ℕ) (h : Match Score Value) (ps : List (Score × ℕ))
        (hs : List (Match Score Value))
        → StandsFor p h
        → StandFor ps hs
        → StandFor (insert_by (by_score np null) p ps) (insert_by by_match h hs)
    unfolding insert_by
    insert_by-StandFor p h [] [] r rs = (r, tt)
    insert_by-StandFor p h [] (g ∷ hs) r rs = elim rs [ ]
    insert_by-StandFor p h (o ∷ ps) [] r rs = elim rs [ ]
    insert_by-StandFor p h (o ∷ ps) (g ∷ hs) r rs =
        let e : higher o.0 p.0 ≡ higher g.score h.score = λ i. higher (rs.0.key i) (r.key i) in
        elim (Bool-cases (higher g.score h.score)) [
          | inl t ↦ rw (e, t) (rs.0, insert_by-StandFor p h ps hs r rs.1)
          | inr t ↦ rw (e, t) (r, rs)
        ]

    pub sort_onto-StandFor :
        (ps : List (Score × ℕ)) (hs : List (Match Score Value)) (out : List (Score × ℕ))
        (out' : List (Match Score Value))
        → StandFor ps hs
        → StandFor out out'
        → StandFor (sort_onto (by_score np null) out ps) (sort_onto by_match out' hs)
    unfolding sort_onto
    sort_onto-StandFor [] [] out out' rs r = r
    sort_onto-StandFor [] (g ∷ hs) out out' rs r = elim rs [ ]
    sort_onto-StandFor (o ∷ ps) [] out out' rs r = elim rs [ ]
    sort_onto-StandFor (o ∷ ps) (g ∷ hs) out out' rs r =
        sort_onto-StandFor ps hs (insert_by (by_score np null) o out) (insert_by by_match g out')
          rs.1 (insert_by-StandFor o g out out' rs.0 r)

    pub take-StandFor :
        (k : ℕ) (ps : List (Score × ℕ)) (hs : List (Match Score Value))
        → StandFor ps hs
        → StandFor (take k ps) (take k hs)
    take-StandFor zero ps hs rs = tt
    take-StandFor (suc k) [] [] rs = tt
    take-StandFor (suc k) [] (g ∷ hs) rs = elim rs [ ]
    take-StandFor (suc k) (p ∷ ps) [] rs = elim rs [ ]
    take-StandFor (suc k) (p ∷ ps) (g ∷ hs) rs = (rs.0, take-StandFor k ps hs rs.1)

    pub results_lem :
        (ps : List (Score × ℕ)) (hs : List (Match Score Value))
        → StandFor ps hs
        → results np null manifest scores ps ≡ ok hs
    unfolding results
    results_lem [] [] rs = refl
    results_lem [] (g ∷ hs) rs = elim rs [ ]
    results_lem (p ∷ ps) [] rs = elim rs [ ]
    results_lem (p ∷ ps) (g ∷ hs) rs = rw (rs.0.metadata_at, rs.0.score_at, results_lem ps hs rs.1)

    -- From the number `i` on the manifest and the scores are those of `vs` and `ms`.
    pub record FromHere (q : Vec) (i : ℕ) (vs : List Row) (ms : List (Entry Value)) : Type 0 where
      pub entries : (j : ℕ) → get_elem? manifest (i + j) ≡ get_elem? ms j
      pub scored : (j : ℕ) → get_elem? scores (i + j) ≡ get_elem? (map (λ v. dot v q) vs) j

    FromHere-next :
        (q : Vec) (i : ℕ) (v : Row) (vs : List Row) (m : Entry Value) (ms : List (Entry Value))
        → FromHere q i (v ∷ vs) (m ∷ ms)
        → FromHere q (suc i) vs ms
    FromHere-next q i v vs m ms h =
        let shift = λ (j : ℕ). (let e : suc i + j ≡ i + suc j = omega arith in e) in
        record {
          entries = λ j. rw (shift j) (h.entries (suc j));
          scored = λ j. rw (shift j) (h.scored (suc j));
        }

    -- What a scan from the number `i` on gives.
    pub record Scanned (q : Vec) (filter : Dict Text Value) (i : ℕ) (vs : List Row)
        (ms : List (Entry Value)) : Type 0 where
      pub chosen : List ℕ
      pub pairs : List (Score × ℕ)
      pub are_candidates : candidates np null manifest filter (range_from i (length ms)) ≡ ok chosen
      pub are_keyed : keyed np null scores chosen ≡ ok pairs
      pub are_hits : StandFor pairs (hits q filter vs ms)
      pub unfiltered : filter ≡ [] → chosen ≡ range_from i (length ms)

    pub scan :
        (q : Vec) (filter : Dict Text Value) (i : ℕ) (vs : List Row) (ms : List (Entry Value))
        → length vs ≡ length ms
        → FromHere q i vs ms
        → Scanned q filter i vs ms
    unfolding candidates keyed satisfies
    scan q filter i [] [] n h = record {
      chosen = [];
      pairs = [];
      are_candidates = refl;
      are_keyed = refl;
      are_hits = tt;
      unfiltered = λ _. refl;
    }
    scan q filter i [] (m ∷ ms) n h = absurd (omega arith)
    scan q filter i (v ∷ vs) [] n h = absurd (omega arith)
    scan q filter i (v ∷ vs) (m ∷ ms) n h =
        let rest = scan q filter (suc i) vs ms (omega arith) (FromHere-next q i v vs m ms h) in
        let here : i + 0 ≡ i = omega arith in
        let entry : get_elem? manifest i ≡ some m =
          subst (λ j. get_elem? manifest j ≡ some m) here (h.entries 0) in
        let score : get_elem? scores i ≡ some (dot v q) =
          subst (λ j. get_elem? scores j ≡ some (dot v q)) here (h.scored 0) in
        elim (Bool-cases (satisfies np null m.metadata filter)) [
          | inl t ↦ record {
            chosen = i ∷ rest.chosen;
            pairs = (dot v q, i) ∷ rest.pairs;
            are_candidates = rw (entry, rest.are_candidates, t);
            are_keyed = rw (score, rest.are_keyed);
            are_hits =
                rw t (
                  record { metadata_at = rw entry; score_at = rw score; key = refl },
                  rest.are_hits,
                );
            unfiltered = λ e. ap (◌∷◌ i) (rest.unfiltered e);
          }
          | inr t ↦ record {
            chosen = rest.chosen;
            pairs = rest.pairs;
            are_candidates = rw (entry, rest.are_candidates, t);
            are_keyed = rest.are_keyed;
            are_hits = rw t rest.are_hits;
            unfiltered =
                λ e. let kept : satisfies np null m.metadata filter ≡ true = rw e refl in cc;
          }
        ]
