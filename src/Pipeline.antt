-- ===== src/Pipeline.antt =====
-- The ingest from the decoded CUAD file to the tables and the vectors: scripts/ingest.py, and a
-- process of scripts/ingest_worker.py behind it.
pub mod Handled
pub mod Delivered
mod Tests
use legallens.Prelude.{ℕ, List, [], ◌∷◌, Text, text_eq, true, none, Outcome, keep}
use legallens.Prelude.Dict.{Dict}
use legallens.Parser.{Entry, ParsedContract, parse_entries}
use legallens.Redis.{Redis}
use legallens.Registry.{refresh_ring, new_ring}
use legallens.Dispatcher.{Codec, owner}
use legallens.Dispatcher.Routed.{is_owner}
use legallens.Database.{Tables}
use legallens.VectorStore.Interface.{VectorStore}
use legallens.Ingest.{Payload, Attempt}
use legallens.Ingest.Effects.{ingested_tables}
use legallens.Ingest.Success.{ingested_vectors}
use legallens.Driver.{Ending, task_of, main}

abbrev pub payload_of : ParsedContract → Payload
payload_of c = record { contract_id = c.contract_id; filename = c.filename; clauses = c.clauses }

module _ (redis : Redis) {P : Type 0} (codec : Codec P) (write : Payload → P)
    (md5_hexdigest sha1_hexdigest : List ℕ → Text) where
  open redis use {Store}

  -- What the driver leaves when it is run on the entries of the file, without a limit.
  abbrev pub driven : List Entry → ℕ → Store → Outcome Ending × Store
  driven es now s =
      main redis codec write md5_hexdigest true none (parse_entries sha1_hexdigest es) now s

  -- The contracts of the file whose tasks go to the worker `w`, in order.
  abbrev pub own : List Entry → ℕ → Store → Text → List ParsedContract
  own es now s w =
      let ring = (refresh_ring redis md5_hexdigest (new_ring redis) s now).0 in
      keep (λ c. is_owner (owner redis codec md5_hexdigest ring (task_of write c)) w)
        (parse_entries sha1_hexdigest es).0

module _ {Vec Row : Type 0} (store : VectorStore Vec Row Text) where
  -- The rows of contracts that were ingested one after another.
  abbrev pub all_tables : (Payload → Attempt Vec) → List ParsedContract → Tables → Tables
  all_tables attempt [] t = t
  all_tables attempt (c ∷ cs) t =
      all_tables attempt cs (ingested_tables store (attempt (payload_of c)) (payload_of c) t)

  -- Their vectors.
  abbrev pub all_vectors :
      (Text → Vec)
      → List ParsedContract
      → Dict Text (Row × Dict Text Text)
      → Dict Text (Row × Dict Text Text)
  all_vectors vector [] d = d
  all_vectors vector (c ∷ cs) d =
      all_vectors vector cs (ingested_vectors store vector (payload_of c) d)
