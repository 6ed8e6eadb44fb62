-- ===== src/Ingest/Process.antt =====
-- The process of scripts/ingest_worker.py: a worker with the handler of `ingest_contract` tasks.
use legallens.Prelude.{ℕ, ◌≡◌, refl, ap, ◌∙◌, List, [], Text, codes, text_eq, Outcome, ok, raise}
use legallens.Redis.{Redis}
use legallens.Dispatcher.{Task, Codec}
use legallens.Worker.{Handler, Worker, State, Turn, register_handler, run}
use legallens.VectorStore.Interface.{VectorStore}
use legallens.Ingest.{Payload, Ingested, Attempt, World, handle_ingest_contract}

-- The dict of a payload, written by the driver and read back by the handler.
pub record PayloadDict (P : Type 0) : Type 0 where
  pub write : Payload → P
  -- `payload["contract_id"]`, `payload["filename"]`, `payload["clauses"]`
  pub read : P → Outcome Payload
  pub read-write : (p : Payload) → read (write p) ≡ ok p

module _ {Vec Row P : Type 0} (store : VectorStore Vec Row Text) (dict : PayloadDict P)
    (attempt : Payload → Attempt Vec) where
  -- The worker has no use for what the handler returns.
  forget_answer : Outcome Ingested × World store → Outcome (Unit {0}) × World store
  forget_answer (ok _, w) = (ok tt, w)
  forget_answer (raise e, w) = (raise e, w)

  handle_payload : Outcome Payload → World store → Outcome (Unit {0}) × World store
  unfolding forget_answer handle_ingest_contract
  handle_payload (raise e) w = (raise e, w)
  handle_payload (ok payload) w =
      forget_answer (handle_ingest_contract store (attempt payload) payload w)

  unfoldable pub ingest_handler : Handler P (World store)
  unfolding handle_payload
  ingest_handler task w = handle_payload (dict.read task.payload) w

  -- `Worker()`, with the id that it gets, and `register_handler("ingest_contract", ...)`
  unfoldable pub ingest_worker : Text → Worker P (World store)
  unfolding register_handler
  ingest_worker worker_id =
      register_handler (record { worker_id = worker_id; handlers = [] }) (codes "ingest_contract")
        ingest_handler

  -- `main`
  unfoldable pub work :
      (redis : Redis)
      → Codec P
      → List Turn
      → Text
      → ℕ
      → State redis.Store P (World store)
      → Outcome (Unit {0}) × State redis.Store P (World store)
  work redis codec turns worker_id now st = run redis codec turns (ingest_worker worker_id) now st

  forget_ok :
      (r : Outcome Ingested × World store) (i : Ingested)
      → r.0 ≡ ok i
      → forget_answer r ≡ (ok tt, r.1)
  unfolding forget_answer
  forget_ok (ok _, w) i h = refl
  forget_ok (raise e, w) i h = cc

  -- On a payload that the driver wrote, where the handler's work returns.
  pub ingest_handler-write :
      (task : Task P) (payload : Payload) (w : World store) (i : Ingested)
      → task.payload ≡ dict.write payload
      → (handle_ingest_contract store (attempt payload) payload w).0 ≡ ok i
      → ingest_handler task w
        ≡ (ok tt, (handle_ingest_contract store (attempt payload) payload w).1)
  unfolding ingest_handler
  ingest_handler-write task payload w i e h =
      ap (λ p. handle_payload (dict.read p) w) e
      ∙ ap (λ o. handle_payload o w) (dict.read-write payload)
      ∙ forget_ok (handle_ingest_contract store (attempt payload) payload w) i h
