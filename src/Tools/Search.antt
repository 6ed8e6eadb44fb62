-- ===== src/Tools/Search.antt =====
-- The rows that a search returns: the matches that have a row, in the order of the ranking.
use legallens.Prelude.{
  ◌≡◌, ◌⊎◌, refl, sym, ◌∙◌, inl, inr, true, false, List, [], ◌∷◌, Text, text_eq, Option, some,
  arith, All, contains, ◌==◌, ==_iff, Bool-cases, if◌then◌else◌,
}
use legallens.Prelude.Dict.{Dict, lookup, insert, lookup-insert, lookup-nil}
use legallens.Database.{ClauseKey, ClauseColumns}
use legallens.VectorStore.{Match}
use legallens.Tools.{ClauseRow, Hydrated, hydrated, by_id, hydrate}

abbrev Clauses : Type 0
Clauses = Dict ClauseKey ClauseColumns

abbrev pub row_ids : Clauses → List Text
row_ids [] = []
row_ids ((key, _) ∷ rows) = key.1 ∷ row_ids rows

abbrev pub IsRowOf : ClauseRow → Clauses → Type 0
IsRowOf r [] = ⊥
IsRowOf r (s ∷ rows) = (s ≡ r) ⊎ IsRowOf r rows

-- The entry of an id: none where no row has it, and a row that has it otherwise.
record IsEntry (id : Text) (rows : Clauses) (before after : Option ClauseRow) : Type 0 where
  kept : contains (row_ids rows) id ≡ false → after ≡ before
  found :
      contains (row_ids rows) id ≡ true
      → (r : ClauseRow) × (after ≡ some r) × (r.0.1 ≡ id) × IsRowOf r rows

lookup-by_id :
    (rows : Clauses) (d : Dict Text ClauseRow) (id : Text)
    → IsEntry id rows (lookup id d) (lookup id (by_id rows d))
unfolding by_id
lookup-by_id [] d id = record { kept = λ _. refl; found = λ h. absurd (ground arith) }
lookup-by_id ((key, row) ∷ rows) d id =
    let rest = lookup-by_id rows (insert key.1 (key, row) d) id in
    let here = lookup-insert id key.1 (key, row) d in
    record {
      kept = λ h.
          let other : (id == key.1) ≡ false = ground arith in
          rest.kept (ground arith) ∙ here ∙ rw other refl;
      found = λ h. elim (Bool-cases (contains (row_ids rows) id)) [
        | inl later ↦ let (r, e, same, is) = rest.found later in (r, e, same, inr is)
        | inr no_later ↦
            let same : (id == key.1) ≡ true = ground arith in
            (
              (key, row),
              rest.kept no_later ∙ here ∙ rw same refl,
              sym ((==_iff id key.1).0 same),
              inl refl,
            )
      ];
    }

module _ {Score : Type 0} where
  abbrev pub id_scores : List (Hydrated Score) → List (Text × Score)
  id_scores [] = []
  id_scores (h ∷ hs) = (h.clause_id, h.score) ∷ id_scores hs

  -- The matches whose id has a row.
  abbrev pub matched : Clauses → List (Match Score Text) → List (Text × Score)
  matched rows [] = []
  matched rows (m ∷ ms) =
      let rest = matched rows ms in
      if contains (row_ids rows) m.id then (m.id, m.score) ∷ rest else rest

  abbrev pub IsFrom : Clauses → Hydrated Score → Type 0
  IsFrom rows h = (r : ClauseRow) × IsRowOf r rows × (h ≡ hydrated r h.score)

  -- The results are the matches that have a row among those that were read, in their order and with
  -- their scores, and each result has the columns of a row with its id.
  pub hydrate-by_id :
      (rows : Clauses) (matches : List (Match Score Text))
      → (id_scores (hydrate (by_id rows []) matches) ≡ matched rows matches)
        × All (IsFrom rows) (hydrate (by_id rows []) matches)
  unfolding hydrate
  hydrate-by_id rows [] = (refl, tt)
  hydrate-by_id rows (m ∷ ms) =
      let entry = lookup-by_id rows [] m.id in
      let (same, all) = hydrate-by_id rows ms in
      elim (Bool-cases (contains (row_ids rows) m.id)) [
        | inl there ↦
            let (r, e, id_same, is) = entry.found there in
            rw (there, e, hydrate) ((λ i. (id_same i, m.score) ∷ same i), ((r, is, refl), all))
        | inr absent ↦
            rw (absent, entry.kept absent, lookup-nil {V = ClauseRow} m.id, hydrate) (same, all)
      ]
