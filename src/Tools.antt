-- ===== src/Tools.antt =====
-- retrieval/tools.py: the tools that the agent calls, over the tables, an embedder and a vector store.
pub mod Reads
pub mod Risk
pub mod Search
pub mod Schema
mod Tests
use legallens.Prelude.{
  ℕ, Bool, true, false, ◌||◌, List, [], ◌∷◌, ◌++◌, map, Text, codes, text_eq, Option, some, none,
  Outcome, ok, raise, value_error, ◌>>=◌, length, is_empty, if◌then◌else◌,
}
use legallens.Prelude.Dict.{Dict, lookup, insert}
use legallens.Python.Strings.{lower}
use legallens.Redis.{starts_with}
use legallens.Database.{Tables, Server, Statement, ClauseKey, ClauseColumns, execute, session}
use legallens.VectorStore.{Match}

-- `p in s`, of two texts
unfoldable pub occurs_in : Text → Text → Bool
unfolding starts_with
occurs_in p [] = starts_with p []
occurs_in p (c ∷ s) = starts_with p (c ∷ s) || occurs_in p s

-- `any(t in s for t in terms)`
unfoldable pub any_in : List Text → Text → Bool
unfolding occurs_in
any_in [] s = false
any_in (t ∷ ts) s = occurs_in t s || any_in ts s

abbrev pub high_signal_terms : List Text
high_signal_terms =
    codes "unlimited liability"
    ∷ codes "perpetual"
    ∷ codes "exclusive"
    ∷ codes "non-compete"
    ∷ codes "indemnify"
    ∷ codes "irrevocable"
    ∷ codes "without limitation"
    ∷ []

abbrev pub medium_signal_terms : List Text
medium_signal_terms = codes "terminate" ∷ codes "breach" ∷ codes "damages" ∷ codes "liability" ∷ []

pub data RiskLevel : Type 0 where
  low medium high : RiskLevel

abbrev pub level_name : RiskLevel → Text
level_name low = codes "low"
level_name medium = codes "medium"
level_name high = codes "high"

abbrev pub rationale : RiskLevel → Text
rationale high =
    codes "Contains high-risk language (e.g. unlimited liability / non-compete / "
    ++ codes "perpetual obligation). Worth a senior lawyer's review."
rationale medium =
    codes "Standard but consequential clause — verify the specific terms align "
    ++ codes "with our usual position."
rationale low = codes "Routine language; no obvious red flags."

-- The level of a clause's text.
unfoldable pub risk_of : Text → RiskLevel
unfolding any_in lower
risk_of text =
    if any_in high_signal_terms (lower text)
    then high
    else if any_in medium_signal_terms (lower text)
    then medium
    else low

-- The dict that `score_clause_risk` returns: an error, or clause, category, level and rationale.
pub data Scored : Type 0 where
  not_found : Text → Scored
  scored : Text → Text → Text → Text → Scored

-- A row that `search_similar_clauses` returns: the columns of the clause, and the score.
pub record Hydrated (Score : Type 0) : Type 0 where
  pub clause_id : Text
  pub contract_id : Text
  pub category : Text
  pub text : Text
  pub score : Score

-- A row of the table as a dict.
abbrev pub ClauseRow : Type 0
ClauseRow = ClauseKey × ClauseColumns

module _ (server : Server) where
  -- A session of one statement: the rows that it gives.
  unfoldable pub rows_of : Statement → Tables → Outcome (Dict ClauseKey ClauseColumns) × Tables
  unfolding session execute
  rows_of statement = session server (execute server statement)

  count_rows :
      Outcome (Dict ClauseKey ClauseColumns) × Tables
      → Outcome (Dict ClauseKey ClauseColumns × ℕ) × Tables
  count_rows (raise e, t) = (raise e, t)
  count_rows (ok rows, t) = (ok (rows, length rows), t)

  -- The clauses and their count.
  unfoldable pub extract_clauses :
      Text → Text → Tables → Outcome (Dict ClauseKey ClauseColumns × ℕ) × Tables
  unfolding rows_of count_rows
  extract_clauses contract_id category t =
      count_rows (rows_of (Statement.select_category contract_id category) t)

  -- Called with a null for one of the two.
  unfoldable pub extract_null : Tables → Outcome (Dict ClauseKey ClauseColumns × ℕ) × Tables
  unfolding rows_of count_rows
  extract_null t = count_rows (rows_of Statement.select_null t)

  after_update : Scored → Outcome (Dict ClauseKey ClauseColumns) × Tables → Outcome Scored × Tables
  after_update answer (raise e, t) = (raise e, t)
  after_update answer (ok _, t) = (ok answer, t)

  -- What follows the SELECT, whose first row counts.
  after_select : Text → Outcome (Dict ClauseKey ClauseColumns) × Tables → Outcome Scored × Tables
  unfolding rows_of after_update risk_of
  after_select clause_id (raise e, t) = (raise e, t)
  after_select clause_id (ok [], t) = (ok (not_found (codes "clause not found: " ++ clause_id)), t)
  after_select clause_id (ok ((key, row) ∷ _), t) =
      let level = level_name (risk_of row.text) in
      let why = rationale (risk_of row.text) in
      after_update (scored clause_id row.category level why)
        (rows_of (Statement.set_risk level why clause_id) t)

  unfoldable pub score_clause_risk : Text → Tables → Outcome Scored × Tables
  unfolding after_select
  score_clause_risk clause_id t =
      after_select clause_id (rows_of (Statement.select_clause clause_id) t)

  -- Called with a null, which the error names.
  unfoldable pub score_null : Tables → Outcome Scored × Tables
  unfolding after_select
  score_null t = after_select (codes "None") (rows_of Statement.select_null t)

-- `{r["clause_id"]: dict(r) for r in rows}`, where later rows replace earlier ones
unfoldable pub by_id : Dict ClauseKey ClauseColumns → Dict Text ClauseRow → Dict Text ClauseRow
by_id [] d = d
by_id ((key, row) ∷ rows) d = by_id rows (insert key.1 (key, row) d)

-- `[q_vec] = ...`
abbrev pub only_one {ℓ} : {A : Type ℓ} → List A → Outcome A
only_one (a ∷ []) = ok a
only_one [] = raise value_error
only_one (a ∷ b ∷ more) = raise value_error

module _ {Score : Type 0} where
  abbrev pub hydrated : ClauseRow → Score → Hydrated Score
  hydrated (key, row) score = record {
    clause_id = key.1;
    contract_id = key.0;
    category = row.category;
    text = row.text;
    score = score;
  }

  -- The loop over the matches: one without a row is skipped.
  unfoldable pub hydrate : Dict Text ClauseRow → List (Match Score Text) → List (Hydrated Score)
  hydrate d [] = []
  hydrate d (m ∷ ms) = elim (lookup m.id d) [
    | none ↦ hydrate d ms
    | some row ↦ hydrated row m.score ∷ hydrate d ms
  ]

  abbrev pub match_ids : List (Match Score Text) → List Text
  match_ids [] = []
  match_ids (m ∷ ms) = m.id ∷ match_ids ms

  after_rows :
      List (Match Score Text)
      → Outcome (Dict ClauseKey ClauseColumns) × Tables
      → Outcome (List (Hydrated Score)) × Tables
  unfolding by_id hydrate
  after_rows matches (raise e, t) = (raise e, t)
  after_rows matches (ok rows, t) = (ok (hydrate (by_id rows []) matches), t)

  after_matches :
      Server → Outcome (List (Match Score Text)) → Tables → Outcome (List (Hydrated Score)) × Tables
  unfolding after_rows rows_of
  after_matches server (raise e) t = (raise e, t)
  after_matches server (ok []) t = (ok [], t)
  after_matches server (ok (m ∷ ms)) t =
      after_rows (m ∷ ms) (rows_of server (Statement.select_ids (match_ids (m ∷ ms))) t)

  -- The store takes `top_k` as it is.
  unfoldable pub search_similar_clauses :
      {Vec K : Type 0}
      → Server
      → (List Text → Outcome (List Vec))
      → (Vec → K → Outcome (List (Match Score Text)))
      → Text
      → K
      → Tables
      → Outcome (List (Hydrated Score)) × Tables
  unfolding after_matches
  search_similar_clauses server embed query text top_k t =
      after_matches server
        (embed (text ∷ []) >>= (λ vectors. only_one vectors >>= (λ q_vec. query q_vec top_k))) t
