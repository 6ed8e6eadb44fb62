-- ===== src/Driver.antt =====
-- scripts/ingest.py: `main` dispatches a task for each contract that the parser yields, up to a limit.
pub mod Enqueued
mod Tests
use legallens.Prelude.{
  ℕ, zero, suc, ◌+◌, Bool, true, false, List, [], ◌∷◌, Text, codes, Option, some, none, Outcome, ok,
  raise, Error, key_error, index_error, value_error, type_error, no_workers_available,
  agent_loop_error, other, leb, is_empty, if◌then◌else◌,
}
use legallens.Redis.{Redis}
use legallens.Ring.{Ring}
use legallens.Registry.{refresh_ring, new_ring}
use legallens.Parser.{ParsedContract}
use legallens.Ingest.{Payload}
use legallens.Dispatcher.{Task, Codec, dispatch}

-- How `main` returns: with the number of contracts that it enqueued, or where the ring went empty.
pub data Ending : Type 0 where
  finished : ℕ → Ending
  aborted : Ending

-- `limit and enqueued >= limit`
unfoldable pub reached : Option ℕ → ℕ → Bool
reached none enqueued = false
reached (some zero) enqueued = false
reached (some (suc n)) enqueued = leb (suc n) enqueued

-- `payload_dict` makes the dict of a payload, as the codec takes it.
unfoldable pub task_of : {P : Type 0} → (Payload → P) → ParsedContract → Task P
task_of payload_dict parsed = record {
  kind = codes "ingest_contract";
  routing_key = parsed.contract_id;
  payload = payload_dict (record {
    contract_id = parsed.contract_id;
    filename = parsed.filename;
    clauses = parsed.clauses;
  });
  task_id = none;
}

abbrev pub no_live_workers : Error
no_live_workers = other (
    codes
      "No live workers found. Start at least one with `python scripts/ingest_worker.py` and re-run.")

module _ (redis : Redis) {P : Type 0} (codec : Codec P) (payload_dict : Payload → P)
    (md5_hexdigest : List ℕ → Text) where
  open redis use {Store}

  -- What follows a dispatch; `rest` is the rest of the loop.
  after_dispatch : (Store → Outcome Ending × Store) → Outcome Text × Store → Outcome Ending × Store
  after_dispatch rest (ok wid, s) = rest s
  after_dispatch rest (raise no_workers_available, s) = (ok aborted, s)
  after_dispatch rest (raise key_error, s) = (raise key_error, s)
  after_dispatch rest (raise index_error, s) = (raise index_error, s)
  after_dispatch rest (raise value_error, s) = (raise value_error, s)
  after_dispatch rest (raise type_error, s) = (raise type_error, s)
  after_dispatch rest (raise (agent_loop_error m), s) = (raise (agent_loop_error m), s)
  after_dispatch rest (raise (other m), s) = (raise (other m), s)

  after_parsing : ℕ → Outcome (Unit {0}) → Outcome Ending
  after_parsing enqueued (ok _) = ok (finished enqueued)
  after_parsing enqueued (raise e) = raise e

  -- The loop over what the parser yields, and how the parser ends.
  unfoldable pub enqueue_all :
      Ring
      → Option ℕ
      → ℕ
      → List ParsedContract
      → Outcome (Unit {0})
      → Store
      → Outcome Ending × Store
  unfolding after_dispatch after_parsing reached task_of
  enqueue_all ring limit enqueued [] outcome s = (after_parsing enqueued outcome, s)
  enqueue_all ring limit enqueued (parsed ∷ contracts) outcome s =
      let next =
        after_dispatch (enqueue_all ring limit (enqueued + 1) contracts outcome)
          (dispatch redis codec md5_hexdigest ring (task_of payload_dict parsed) s) in
      if reached limit enqueued then (ok (finished enqueued), s) else next

  -- `main`, on what the Sentinel's ping gives and what the parser does with the file.
  unfoldable pub main :
      Bool
      → Option ℕ
      → List ParsedContract × Outcome (Unit {0})
      → ℕ
      → Store
      → Outcome Ending × Store
  unfolding enqueue_all
  main false limit (contracts, outcome) now s =
      (raise (other (codes "Redis Sentinel unreachable — is docker compose up?")), s)
  main true limit (contracts, outcome) now s =
      let (ring, workers) = refresh_ring redis md5_hexdigest (new_ring redis) s now in
      if is_empty workers
      then (raise no_live_workers, s)
      else enqueue_all ring limit 0 contracts outcome s
