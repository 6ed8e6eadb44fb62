-- ===== src/Database.antt =====
-- db.py and the SQL statements of the program: the two tables that they name, and sessions that commit
-- or roll back. Columns that no statement names are left out.
pub mod Sessions
use legallens.Prelude.{
  ℕ, Bool, true, false, ◌&&◌, List, [], ◌∷◌, Text, text_eq, Eq, Option, some, none, Outcome, ok,
  raise, Error, ◌==◌, contains, keep, if◌then◌else◌,
}
use legallens.Prelude.Dict.{Dict, insert}
use legallens.Prelude.Sorting.{sorted}
use legallens.Prelude.Upserts.{put}

pub record ContractRow : Type 0 where
  pub filename : Text
  pub ingested_at : ℕ

-- What a row of `clauses` holds beside its key.
pub record ClauseColumns : Type 0 where
  pub category : Text
  pub text : Text
  pub page : Option ℕ
  pub risk_level : Option Text
  pub risk_rationale : Option Text
  pub vector_id : Option Text
  pub embedded_at : Option ℕ

-- (contract_id, clause_id)
abbrev pub ClauseKey : Type 0
ClauseKey = Text × Text

key_dec : Discrete ClauseKey
key_dec = hlevel text_eq.dec

instance unfoldable pub key_eq : Eq ClauseKey
unfolding key_dec
key_eq = record { dec = key_dec }

-- The tables by their primary keys; the order of the rows is the one in which the server gives them.
pub record Tables : Type 0 where
  pub contracts : Dict Text ContractRow
  pub clauses : Dict ClauseKey ClauseColumns

-- The statements, with their parameters.
pub data Statement : Type 0 where
  -- INSERT INTO contracts ... ON CONFLICT (contract_id) DO UPDATE, at a time
  upsert_contract : Text → Text → ℕ → Statement
  -- INSERT INTO clauses ... ON CONFLICT (contract_id, clause_id) DO UPDATE: contract, clause, category,
  -- text, time
  upsert_clause : Text → Text → Text → Text → ℕ → Statement
  -- UPDATE clauses SET risk_level, risk_rationale WHERE clause_id
  set_risk : Text → Text → Text → Statement
  -- SELECT ... WHERE contract_id AND category ORDER BY clause_id
  select_category : Text → Text → Statement
  -- SELECT ... WHERE clause_id = ANY(ids)
  select_ids : List Text → Statement
  -- SELECT ... WHERE clause_id
  select_clause : Text → Statement
  -- one of these SELECTs that is given a NULL to compare a column with, which no row meets
  select_null : Statement

-- The server, as far as it may fail, and its order of texts.
pub record Server : Type 0 where
  pub refuses : Statement → Option Error
  pub refuses_commit : Tables → Option Error
  pub collate : Text → Text → Bool

-- A row that is new gets these columns; of one that is there, the text, the vector and the time change.
unfoldable pub clause_change : Text → Text → Text → ℕ → Option ClauseColumns → ClauseColumns
clause_change clause_id category text now none = record {
  category = category;
  text = text;
  page = none;
  risk_level = none;
  risk_rationale = none;
  vector_id = some clause_id;
  embedded_at = some now;
}
clause_change clause_id category text now (some row) = record row {
  text = text;
  vector_id = some clause_id;
  embedded_at = some now;
}

unfoldable pub update_risk :
    Text → Text → Text → Dict ClauseKey ClauseColumns → Dict ClauseKey ClauseColumns
update_risk level why clause_id [] = []
update_risk level why clause_id ((key, row) ∷ rows) =
    (
      key,
      if key.1 == clause_id
          then record row { risk_level = some level; risk_rationale = some why }
          else row,
    )
    ∷ update_risk level why clause_id rows

-- What a statement makes of the tables.
unfoldable pub apply : Statement → Tables → Tables
unfolding clause_change update_risk
apply (upsert_contract cid filename now) t = record t {
  contracts = insert cid (record { filename = filename; ingested_at = now }) t.contracts;
}
apply (upsert_clause cid clause_id category text now) t = record t {
  clauses = put (cid, clause_id) (clause_change clause_id category text now) t.clauses;
}
apply (set_risk level why clause_id) t = record t {
  clauses = update_risk level why clause_id t.clauses;
}
apply (select_category cid category) t = t
apply (select_ids ids) t = t
apply (select_clause clause_id) t = t
apply select_null t = t

-- The rows that a SELECT gives.
unfoldable pub select : (Text → Text → Bool) → Statement → Tables → Dict ClauseKey ClauseColumns
select collate (select_category cid category) t =
    sorted (λ a b. collate a.0.1 b.0.1)
      (keep (λ r. r.0.0 == cid && r.1.category == category) t.clauses)
select collate (select_ids ids) t = keep (λ r. contains ids r.0.1) t.clauses
select collate (select_clause clause_id) t = keep (λ r. r.0.1 == clause_id) t.clauses
select collate select_null t = []
select collate (upsert_contract _ _ _) t = []
select collate (upsert_clause _ _ _ _ _) t = []
select collate (set_risk _ _ _) t = []

module _ (server : Server) where
  -- `await s.execute(...)`: the rows that it gives, and the tables as the transaction sees them.
  unfoldable pub execute : Statement → Tables → Outcome (Dict ClauseKey ClauseColumns × Tables)
  unfolding apply select
  execute statement t = elim (server.refuses statement) [
    | some e ↦ raise e
    | none ↦ ok (select server.collate statement t, apply statement t)
  ]

  -- `async with session() as s`: the body's changes are committed, or rolled back if it raises or the
  -- commit does.
  unfoldable pub session {ℓ} :
      {A : Type ℓ} → (Tables → Outcome (A × Tables)) → Tables → Outcome A × Tables
  session body t = elim (body t) [
    | raise e ↦ (raise e, t)
    | ok (a, t') ↦ elim (server.refuses_commit t') [ some e ↦ (raise e, t) | none ↦ (ok a, t') ]
  ]
