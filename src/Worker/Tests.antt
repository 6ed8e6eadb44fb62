-- ===== src/Worker/Tests.antt =====
-- A worker on a server in memory.
use legallens.Prelude.{
  take, ℕ, ◌+◌, ◌≡◌, refl, List, [], ◌∷◌, map, ok, raise, value_error, true, ◌++◌, codes, text_eq,
  nat_eq, arith,
}
use legallens.Prelude.Dict.{lookup, insert, erase}
use legallens.Redis.Memory.{memory, Data, nothing}
use legallens.Dispatcher.{worker_queue_key}
use legallens.Dispatcher.Samples.{PlainTask, plain_codec, dump, task_for}
use legallens.Registry.{hb_key, register}
use legallens.Worker.{Handler, Report, Worker, State, beat, cycle, loop, run}
use legallens.Worker.Served.{Served}
use legallens.Worker.Loop.{LeftKey, run_drains}
use legallens.Worker.Identity.{default_worker_id, default_worker_id_inj}
use legallens.Python.Encoding.{decimal}

-- Counts the tasks that it sees, and fails on those with an empty key.
abbrev counting : Handler (Unit {0}) ℕ
counting t n = elim t.routing_key [ [] ↦ (raise value_error, n + 1) | _ ↦ (ok tt, n + 1) ]

abbrev worker : Worker (Unit {0}) ℕ
worker = record { worker_id = codes "w"; handlers = (codes "ingest_contract", counting) ∷ [] }

abbrev tasks : List PlainTask
tasks = task_for [] ∷ task_for (codes "k") ∷ record (task_for []) { kind = codes "other" } ∷ []

abbrev start : State Data (Unit {0}) ℕ
start = record {
  store = record nothing { lists = (codes "queue:w", map dump tasks) ∷ [] };
  world = 0;
  log = [];
}

start_queue :
    memory.entries start.store (worker_queue_key (codes "w")) ≡ map plain_codec.dump_json tasks
unfolding lookup text_eq worker_queue_key
start_queue = refl

run_drains_example :
    (st' : State Data (Unit {0}) ℕ) × (reports : List (Report (Unit {0}))) × (run memory plain_codec
        (cycle ∷ beat 3 ∷ cycle ∷ cycle ∷ cycle ∷ [])
        worker
        0
        start
      ≡ (ok tt, st'))
    × (st'.log ≡ start.log ++ reports)
    × Served worker.handlers st'.world tasks start.world reports
    × (memory.entries st'.store (worker_queue_key (codes "w")) ≡ [])
    × LeftKey memory plain_codec worker (cycle ∷ beat 3 ∷ cycle ∷ cycle ∷ cycle ∷ []) 0 st'.store
run_drains_example =
    run_drains memory plain_codec worker (cycle ∷ beat 3 ∷ cycle ∷ cycle ∷ cycle ∷ []) 0 start tasks
      start_queue (omega arith)

-- Stopped before its first turn, a worker leaves its heartbeat key behind.
stopped_early :
    memory.live (run memory plain_codec [] worker 0 start).1.store 9 (hb_key (codes "w")) ≡ true
unfolding run register hb_key text_eq lookup loop erase insert
stopped_early = refl

default_worker_id_inj_example :
    (codes "ingest-1" ≡ codes "ingest-1")
    × (◌≡◌ {A = ℕ} 7 7)
    × (take 6 (codes "0badf00d") ≡ take 6 (codes "0badf0ff"))
unfolding default_worker_id
default_worker_id_inj_example =
    default_worker_id_inj (codes "ingest-1") (codes "ingest-1") 7 7 (codes "0badf00d")
      (codes "0badf0ff") refl refl refl

named : default_worker_id (codes "h") 12 (codes "0badf00d") ≡ codes "h-12-0badf0"
unfolding default_worker_id decimal
named = refl
