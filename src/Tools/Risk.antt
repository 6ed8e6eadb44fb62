-- ===== src/Tools/Risk.antt =====
-- The risk of a clause: its level grows with the text, and `score_clause_risk` writes it to the rows of
-- the clause and to no others.
use mathlib.Core.List.{append_assoc}
use legallens.Prelude.{
  ℕ, ◌≤◌, ◌≡◌, refl, ap, ◌∙◌, inl, inr, Bool, true, false, List, [], ◌∷◌, ◌++◌, Text, text_eq,
  codes, Option, some, none, Outcome, ok, raise, Error, arith, ◌==◌, ==_iff, keep, Bool-cases,
  if◌then◌else◌,
}
use legallens.Prelude.Dict.{Dict, lookup}
use legallens.Python.Strings.{lower}
use legallens.Redis.{starts_with}
use legallens.Database.{
  Tables, Server, Statement, ClauseKey, ClauseColumns, key_eq, update_risk, apply, select,
}
use legallens.Tools.Reads.{rows_of_cases}
use legallens.Tools.{
  ClauseRow, occurs_in, any_in, high_signal_terms, medium_signal_terms, RiskLevel, low, medium,
  high, level_name, rationale, risk_of, Scored, not_found, scored, after_update, after_select,
  score_clause_risk,
}

starts_with-append : (p s r : Text) → starts_with p s ≡ true → starts_with p (s ++ r) ≡ true
unfolding starts_with
starts_with-append [] s r h = refl
starts_with-append (a ∷ p) [] r h = cc
starts_with-append (a ∷ p) (b ∷ s) r h = ground (arith, starts_with-append p s r)

occurs_in_front : (p s r : Text) → occurs_in p s ≡ true → occurs_in p (s ++ r) ≡ true
unfolding occurs_in
occurs_in_front p [] [] h = h
occurs_in_front p [] (c ∷ r) h = ground (arith, starts_with-append p [] (c ∷ r))
occurs_in_front p (c ∷ s) r h =
    ground (arith, starts_with-append p (c ∷ s) r, occurs_in_front p s r)

occurs_in_behind : (p s r : Text) → occurs_in p r ≡ true → occurs_in p (s ++ r) ≡ true
unfolding occurs_in
occurs_in_behind p [] r h = h
occurs_in_behind p (c ∷ s) r h = ground (arith, occurs_in_behind p s r)

any_in-append :
    (ts : List Text) (a s b : Text) → any_in ts s ≡ true → any_in ts (a ++ (s ++ b)) ≡ true
unfolding any_in
any_in-append [] a s b h = h
any_in-append (t ∷ ts) a s b h = elim (Bool-cases (occurs_in t s)) [
  | inl here ↦ rw (occurs_in_behind t a (s ++ b) (occurs_in_front t s b here))
  | inr other ↦ ground (arith, any_in-append ts a s b)
]

lower-append : (s r : Text) → lower (s ++ r) ≡ lower s ++ lower r
unfolding lower
lower-append [] r = refl
lower-append (c ∷ s) r = simp (lower-append s r, append_assoc)

abbrev pub rank : RiskLevel → ℕ
rank low = 0
rank medium = 1
rank high = 2

rank_mono :
    (h h' m m' : Bool)
    → (h ≡ true → h' ≡ true)
    → (m ≡ true → m' ≡ true)
    → rank (if h then high else if m then medium else low)
      ≤ rank (if h' then high else if m' then medium else low)
rank_mono true true m m' f g = omega arith
rank_mono true false m m' f g = absurd (ground (arith, f refl))
rank_mono false true true m' f g = omega arith
rank_mono false true false m' f g = omega arith
rank_mono false false true true f g = omega arith
rank_mono false false true false f g = absurd (ground (arith, g refl))
rank_mono false false false true f g = omega arith
rank_mono false false false false f g = omega arith

-- Text in front of a clause or behind it never lowers its level.
pub risk_of-append : (a s b : Text) → rank (risk_of s) ≤ rank (risk_of (a ++ (s ++ b)))
unfolding risk_of
risk_of-append a s b =
    let split : lower (a ++ (s ++ b)) ≡ lower a ++ (lower s ++ lower b) =
      lower-append a (s ++ b) ∙ ap (λ r. lower a ++ r) (lower-append s b) in
    rw split (
      rank_mono _ _ _ _ (any_in-append high_signal_terms (lower a) (lower s) (lower b))
        (any_in-append medium_signal_terms (lower a) (lower s) (lower b)))

-- The risk columns of the rows of a clause, and of no others.
abbrev pub rescored : RiskLevel → Text → ClauseKey → Option ClauseColumns → Option ClauseColumns
rescored level clause_id key none = none
rescored level clause_id key (some row) = some (
    if key.1 == clause_id
    then record row {
      risk_level = some (level_name level);
      risk_rationale = some (rationale level);
    }
    else row)

lookup-update_risk :
    (level : RiskLevel) (clause_id : Text) (rows : Dict ClauseKey ClauseColumns) (key : ClauseKey)
    → lookup key (update_risk (level_name level) (rationale level) clause_id rows)
      ≡ rescored level clause_id key (lookup key rows)
unfolding update_risk lookup
lookup-update_risk level clause_id [] key = refl
lookup-update_risk level clause_id ((k, row) ∷ rows) key = elim (Bool-cases (key == k)) [
  | inl same ↦ rw same (rw ((==_iff key k).0 same) refl)
  | inr other ↦ rw other (lookup-update_risk level clause_id rows key)
]

abbrev Clauses : Type 0
Clauses = Dict ClauseKey ClauseColumns

-- How `score_clause_risk` ends.
pub data Ending (clause_id : Text) (t : Tables) : Outcome Scored × Tables → Type 0 where
  raised : (e : Error) → Ending clause_id t (raise e, t)
  absent :
      (answer : Text)
      → keep (λ (r : ClauseRow). r.0.1 == clause_id) t.clauses ≡ []
      → Ending clause_id t (ok (not_found answer), t)
  updated :
      (key : ClauseKey) (row : ClauseColumns) (others : Clauses) (t' : Tables)
      → keep (λ (r : ClauseRow). r.0.1 == clause_id) t.clauses ≡ (key, row) ∷ others
      → t'.contracts ≡ t.contracts
      → ((k : ClauseKey)
          → lookup k t'.clauses ≡ rescored (risk_of row.text) clause_id k (lookup k t.clauses))
      → Ending clause_id t (
        ok (
            scored clause_id row.category
              (level_name (risk_of row.text))
              (rationale (risk_of row.text))),
        t',
      )

selected :
    (server : Server) (clause_id : Text) (t : Tables) (rows : Clauses)
    → keep (λ (r : ClauseRow). r.0.1 == clause_id) t.clauses ≡ rows
    → Ending clause_id t (after_select server clause_id (ok rows, t))
unfolding after_select after_update apply
selected server clause_id t [] h = absent (codes "clause not found: " ++ clause_id) h
selected server clause_id t ((key, row) ∷ others) h =
    let level = risk_of row.text in
    elim (rows_of_cases server (Statement.set_risk (level_name level) (rationale level) clause_id)
      t) [
        | inl (e, failed) ↦ rw failed (raised e)
        | inr done ↦
            rw done (updated key row others _ h refl (lookup-update_risk level clause_id t.clauses))
      ]

-- Scoring a clause raises and changes nothing; or no row has the id, an error is returned, and nothing
-- changes; or the answer is the level of the first row with the id, the rows with the id get that level
-- and its rationale, and no other row and no other column changes.
pub score_clause_risk-Ending :
    (server : Server) (clause_id : Text) (t : Tables)
    → Ending clause_id t (score_clause_risk server clause_id t)
unfolding score_clause_risk apply select
score_clause_risk-Ending server clause_id t =
    elim (rows_of_cases server (Statement.select_clause clause_id) t) [
      | inl (e, failed) ↦ rw failed (raised e)
      | inr found ↦ rw found (selected server clause_id t _ refl)
    ]
