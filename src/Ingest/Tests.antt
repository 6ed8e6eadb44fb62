-- ===== src/Ingest/Tests.antt =====
-- A task whose first attempt fails at its second clause, after the vectors are written, and is retried.
use legallens.Prelude.{
  ℕ, ◌≡◌, refl, ap, sym, ◌∙◌, subst, List, [], ◌∷◌, map, Text, codes, text_eq, nat_eq, some, none,
  Outcome, ok, raise, other, length, IsDistinct, Option, Error, true, ◌==◌, if◌then◌else◌, ◌%◌,
  arith,
}
use legallens.Prelude.Dict.{lookup, insert}
use legallens.Prelude.Upserts.{put, put_all}
use legallens.Parser.{ParsedClause}
use legallens.Parser.Contracts.{ids}
use legallens.Database.{
  Server, Statement, key_eq, clause_change, update_risk, apply, select, execute, session,
}
use legallens.VectorStore.{
  entry_of, ids_existing, replace_at, upsert_each, append_new, persist, upsert,
}
use legallens.VectorStore.Interface.{VectorStore, Fit}
use legallens.VectorStore.Local.{local_store}
use legallens.VectorStore.Samples.{plain_numpy, plain_json}
use legallens.Ingest.{
  Payload, Attempt, World, texts_of, records_of, insert_contract, insert_clauses,
  handle_ingest_contract,
}
use legallens.Ingest.Effects.{EmbedsAll, ingested_tables, HoldsVectors}
use legallens.Ingest.Retry
use legallens.Ingest.Success
use legallens.Ingest.Success.{IsSmooth, answer, ingested_vectors}

ingest_program : Unit {0}
unfolding lookup insert put put_all text_eq nat_eq key_eq clause_change update_risk apply select
    execute session entry_of ids_existing replace_at upsert_each append_new persist upsert
    records_of insert_contract insert_clauses handle_ingest_contract
ingest_program = tt

abbrev clause : Text → Text → ParsedClause
clause id text = record {
  clause_id = id;
  contract_id = codes "k";
  category = codes "c";
  text = text;
  answer_start = none;
}

abbrev payload : Payload
payload = record {
  contract_id = codes "k";
  filename = codes "f";
  clauses = clause (codes "k-1") (codes "one") ∷ clause (codes "k-2") (codes "three") ∷ [];
}

abbrev sound : Server
sound = record { refuses = λ _. none; refuses_commit = λ _. none; collate = λ _ _. true }

abbrev refuses_second : Statement → Option Error
refuses_second (Statement.upsert_clause _ clause_id _ _ _) =
    if clause_id == codes "k-2" then some (other []) else none
refuses_second _ = none

abbrev store : VectorStore ℕ ℕ Text
store = local_store plain_numpy plain_json

abbrev lengths : List Text → Outcome (List ℕ)
lengths texts = ok (map length texts)

abbrev first : Attempt ℕ
first = record {
  server = record sound { refuses = refuses_second };
  embed = lengths;
  sql_now = 1;
  now = 2;
}

abbrev second : Attempt ℕ
second = record { server = sound; embed = lengths; sql_now = 5; now = 6 }

start : World store
start = record {
  tables = record { contracts = []; clauses = [] };
  vectors = (record { vectors = []; manifest = [] }, record { vectors = none; manifest = none });
}

failed : (handle_ingest_contract store first payload start).0 ≡ raise (other [])
unfolding ingest_program start
failed = refl

retried :
    (handle_ingest_contract store second payload
      (handle_ingest_contract store first payload start).1).0
    ≡ ok (record { contract_id = codes "k"; n_clauses = 2 })
unfolding ingest_program start
retried = refl

embeds : (a : Attempt ℕ) → a.embed ≡ lengths → EmbedsAll store a payload
unfolding records_of
embeds a e vectors h =
    let q : ok (3 ∷ 5 ∷ []) ≡ ok vectors = sym (ap (λ f. f (texts_of payload.clauses)) e) ∙ h in
    let fixed : (3 ∷ 5 ∷ []) ≡ vectors = cc in
    subst (λ v. (length v ≡ 2) × Fit store.fits (records_of (codes "k") payload.clauses v)) fixed
      (refl, (refl, (refl, tt)))

start-IsValid : store.IsValid start.vectors
unfolding start
start-IsValid = record { parallel = refl; nodup = tt }

ids-IsDistinct : IsDistinct (ids payload.clauses)
unfolding text_eq
ids-IsDistinct = (refl, (refl, tt))

handle-handle_example :
    ((handle_ingest_contract store second payload
        (handle_ingest_contract store first payload start).1).1.tables
      ≡ ingested_tables store second payload start.tables)
    × HoldsVectors store second payload start.vectors
        (handle_ingest_contract store second payload
          (handle_ingest_contract store first payload start).1).1.vectors
handle-handle_example =
    Retry.handle-handle store first second payload start
      (record { contract_id = codes "k"; n_clauses = 2 }) start-IsValid ids-IsDistinct
      (embeds first refl) (embeds second refl) retried

abbrev short : Text → ℕ
short t = length t % 100

abbrev smooth_attempt : Attempt ℕ
smooth_attempt = record {
  server = sound;
  embed = λ texts. ok (map short texts);
  sql_now = 5;
  now = 6;
}

smooth : IsSmooth short smooth_attempt
smooth = record { accepts = λ s. refl; commits = λ t. refl; embeds = λ texts. refl }

fitting : (t : Text) → store.fits (short t) ≡ true
fitting t = ground arith

handle_ingests_example :
    ((handle_ingest_contract store smooth_attempt payload start).0 ≡ ok (answer payload))
    × ((handle_ingest_contract store smooth_attempt payload start).1.tables
        ≡ ingested_tables store smooth_attempt payload start.tables)
    × store.IsValid (handle_ingest_contract store smooth_attempt payload start).1.vectors
    × (store.contents (handle_ingest_contract store smooth_attempt payload start).1.vectors
        ≡ ingested_vectors store short payload (store.contents start.vectors))
handle_ingests_example =
    Success.handle_ingests store short smooth_attempt smooth fitting payload start start-IsValid
      ids-IsDistinct
