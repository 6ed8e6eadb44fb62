-- ===== src/Ingest.antt =====
-- scripts/ingest_worker.py: the handler of an `ingest_contract` task, over the tables and a vector store.
pub mod Effects
pub mod Retry
pub mod Success
pub mod Process
pub mod Samples
mod Tests
use legallens.Prelude.{
  ℕ, Bool, List, [], ◌∷◌, map, Text, codes, Option, some, none, Outcome, ok, raise, ◌>>=◌, length,
  is_empty, if◌then◌else◌,
}
use legallens.Parser.{ParsedClause}
use legallens.Database.{Tables, Statement, Server, execute, session}
use legallens.VectorStore.{VectorRecord}
use legallens.VectorStore.Interface.{VectorStore}

-- The payload that the driver writes, read back.
pub record Payload : Type 0 where
  pub contract_id : Text
  pub filename : Text
  pub clauses : List ParsedClause

-- {"contract_id": ..., "n_clauses": ...}
pub record Ingested : Type 0 where
  pub contract_id : Text
  pub n_clauses : ℕ

abbrev pub texts_of : List ParsedClause → List Text
texts_of [] = []
texts_of (c ∷ cs) = c.text ∷ texts_of cs

-- `zip(clauses, vectors)` ends with the shorter one.
unfoldable pub records_of :
    {Vec : Type 0} → Text → List ParsedClause → List Vec → List (VectorRecord Vec Text)
records_of contract_id [] vectors = []
records_of contract_id (c ∷ cs) [] = []
records_of contract_id (c ∷ cs) (v ∷ vectors) =
    record {
      id = c.clause_id;
      values = v;
      metadata = some ((codes "contract_id", contract_id) ∷ (codes "category", c.category) ∷ []);
    }
    ∷ records_of contract_id cs vectors

-- What one attempt meets: the server, the embedder, `NOW()` and `datetime.utcnow()`.
pub record Attempt (Vec : Type 0) : Type 0 where
  pub server : Server
  pub embed : List Text → Outcome (List Vec)
  pub sql_now : ℕ
  pub now : ℕ

unfoldable pub insert_contract :
    {Vec : Type 0} → Attempt Vec → Payload → Tables → Outcome (Unit {0} × Tables)
unfolding execute
insert_contract a payload t = do
  (_, t') ←
      execute a.server (Statement.upsert_contract payload.contract_id payload.filename a.sql_now) t
  ok (tt, t')

-- The loop over the clauses in one session.
unfoldable pub insert_clauses :
    {Vec : Type 0} → Attempt Vec → Text → List ParsedClause → Tables → Outcome (Unit {0} × Tables)
unfolding execute
insert_clauses a contract_id [] t = ok (tt, t)
insert_clauses a contract_id (c ∷ cs) t = do
  (_, t') ←
      execute a.server (Statement.upsert_clause contract_id c.clause_id c.category c.text a.now) t
  insert_clauses a contract_id cs t'

module _ {Vec Row : Type 0} (store : VectorStore Vec Row Text) where
  open store use {Store, upsert}

  pub record World : Type 0 where
    pub tables : Tables
    pub vectors : Store

  finish : Payload → Outcome (Unit {0}) × Tables → Store → Outcome Ingested × World
  finish payload (raise e, t) s = (raise e, record { tables = t; vectors = s })
  finish payload (ok _, t) s = (
    ok (record { contract_id = payload.contract_id; n_clauses = length payload.clauses }),
    record { tables = t; vectors = s },
  )

  after_upsert :
      Attempt Vec → Payload → Tables → Outcome (Unit {0}) × Store → Outcome Ingested × World
  unfolding finish session insert_clauses
  after_upsert a payload t (raise e, s) = (raise e, record { tables = t; vectors = s })
  after_upsert a payload t (ok _, s) =
      finish payload (session a.server (insert_clauses a payload.contract_id payload.clauses) t) s

  after_embed : Attempt Vec → Payload → World → Outcome (List Vec) → Outcome Ingested × World
  unfolding after_upsert records_of
  after_embed a payload w (raise e) = (raise e, w)
  after_embed a payload w (ok vectors) =
      after_upsert a payload w.tables
        (upsert (records_of payload.contract_id payload.clauses vectors) w.vectors)

  after_contract :
      Attempt Vec → Payload → Store → Outcome (Unit {0}) × Tables → Outcome Ingested × World
  unfolding after_embed
  after_contract a payload s (raise e, t) = (raise e, record { tables = t; vectors = s })
  after_contract a payload s (ok _, t) =
      if is_empty payload.clauses
      then (
        ok (record { contract_id = payload.contract_id; n_clauses = 0 }),
        record { tables = t; vectors = s },
      )
      else after_embed a payload (record { tables = t; vectors = s })
          (a.embed (texts_of payload.clauses))

  unfoldable pub handle_ingest_contract : Attempt Vec → Payload → World → Outcome Ingested × World
  unfolding after_contract insert_contract
  handle_ingest_contract a payload w =
      after_contract a payload w.vectors (session a.server (insert_contract a payload) w.tables)
