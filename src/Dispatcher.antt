-- ===== src/Dispatcher.antt =====
-- orchestration/dispatcher.py and workers/task_queue.py: tasks are routed to the queue of the
-- worker that owns their key, and each worker pops its own queue.
pub mod Enqueue
pub mod Routed
pub mod Batch
pub mod Samples
mod Tests
use legallens.Prelude.{
  ℕ, ◌≡◌, Bool, true, false, List, [], ◌∷◌, ◌++◌, Text, codes, text_eq, Option, some, none, Outcome,
  ok, raise, no_workers_available, length, ◌>>=◌, if◌then◌else◌,
}
use legallens.Prelude.Dict.{Dict, lookup, insert}
use legallens.Redis.{Redis}
use legallens.Ring.{Ring, get_worker}

pub record Task (P : Type 0) : Type 0 where
  pub kind : Text
  pub routing_key : Text
  pub payload : P
  pub task_id : Option Text

-- What the program relies on of pydantic and `json`: a task that was dumped is read back. `P` is
-- the type of payloads.
pub record Codec (P : Type 0) : Type 0 where
  -- `task.model_dump_json()`
  pub dump_json : Task P → Text
  -- `Task.model_validate_json(payload)`
  pub validate_json : Text → Outcome (Task P)
  -- `Task(**json.loads(raw))`
  pub load_json : Text → Outcome (Task P)
  -- `raw.decode("utf-8")`
  pub decode_utf8 : List ℕ → Outcome Text
  pub validate-dump : (t : Task P) → validate_json (dump_json t) ≡ ok t
  pub load-dump : (t : Task P) → load_json (dump_json t) ≡ ok t

-- f"queue:{worker_id}"
unfoldable pub worker_queue_key : Text → Text
worker_queue_key worker_id = codes "queue:" ++ worker_id

-- `str | bytes`
pub data Raw : Type 0 where
  str : Text → Raw
  bytes : List ℕ → Raw

-- `if not worker_id`: no worker, or one with an empty id.
abbrev pub truthy : Option Text → Option Text
truthy none = none
truthy (some []) = none
truthy (some (c ∷ s)) = some (c ∷ s)

abbrev pub or_no_workers : Option Text → Outcome Text
or_no_workers none = raise no_workers_available
or_no_workers (some wid) = ok wid

module _ {P : Type 0} where
  -- `setdefault(wid, []).append(task)`
  unfoldable pub append_to : Text → Task P → Dict Text (List (Task P)) → Dict Text (List (Task P))
  append_to wid t d = elim (lookup wid d) [
    | none ↦ insert wid (t ∷ []) d
    | some ts ↦ insert wid (ts ++ t ∷ []) d
  ]

module _ {P : Type 0} (codec : Codec P) where
  open codec use {load_json, decode_utf8}

  unfoldable pub decode_task : Raw → Outcome (Task P)
  decode_task (str raw) = load_json raw
  decode_task (bytes raw) = do text ← decode_utf8 raw; load_json text

module _ (redis : Redis) {P : Type 0} (codec : Codec P) where
  open redis use {Store, entries, rpush, blpop}
  open codec use {dump_json, validate_json}

  module _ (md5_hexdigest : List ℕ → Text) where
    -- The worker that a task goes to.
    unfoldable pub owner : Ring → Task P → Outcome Text
    owner ring task = do
      found ← get_worker md5_hexdigest ring task.routing_key
      or_no_workers (truthy found)

    enqueue : Task P → Store → Outcome Text → Outcome Text × Store
    enqueue task s (raise e) = (raise e, s)
    enqueue task s (ok worker_id) =
        (ok worker_id, rpush (worker_queue_key worker_id) (dump_json task) s)

    -- `dispatch`: the result, and what Redis holds then.
    unfoldable pub dispatch : Ring → Task P → Store → Outcome Text × Store
    unfolding owner enqueue
    dispatch ring task s = enqueue task s (owner ring task)

    -- The loop of `dispatch_many`: the tasks by worker, and the pipeline's commands in order.
    unfoldable pub route_all :
        Ring
        → List (Task P)
        → Dict Text (List (Task P))
        → List (Text × Text)
        → Outcome (Dict Text (List (Task P)) × List (Text × Text))
    unfolding owner append_to
    route_all ring [] by_worker pipe = ok (by_worker, pipe)
    route_all ring (task ∷ tasks) by_worker pipe = do
      wid ← owner ring task
      route_all ring tasks (append_to wid task by_worker)
          (pipe ++ (worker_queue_key wid, dump_json task) ∷ [])

  -- `pipe.execute()`
  unfoldable pub execute : List (Text × Text) → Store → Store
  execute [] s = s
  execute ((k, v) ∷ pipe) s = execute pipe (rpush k v s)

  finish :
      Store
      → Outcome (Dict Text (List (Task P)) × List (Text × Text))
      → Outcome (Dict Text (List (Task P))) × Store
  unfolding execute
  finish s (raise e) = (raise e, s)
  finish s (ok (by_worker, pipe)) = (ok by_worker, execute pipe s)

  unfoldable pub dispatch_many :
      (List ℕ → Text) → Ring → List (Task P) → Store → Outcome (Dict Text (List (Task P))) × Store
  unfolding route_all finish
  dispatch_many md5_hexdigest ring tasks s = finish s (route_all md5_hexdigest ring tasks [] [])

  popped : Option Text × Store → Outcome (Option (Task P)) × Store
  popped (none, s) = (ok none, s)
  popped (some payload, s) = (do task ← validate_json payload; ok (some task), s)

  -- `WorkerTaskQueue.pop`: none on a timeout.
  unfoldable pub pop : Text → Store → Outcome (Option (Task P)) × Store
  unfolding popped
  pop worker_id s = popped (blpop (worker_queue_key worker_id) s)

  -- `WorkerTaskQueue.depth`, on what the replica holds.
  unfoldable pub depth : Text → Store → ℕ
  depth worker_id replica = length (entries replica (worker_queue_key worker_id))
