-- ===== src/Worker/Served.antt =====
-- What becomes of the tasks that a worker handles, said without the code that does it.
use legallens.Prelude.{
  ◌≡◌, refl, List, [], ◌∷◌, Text, text_eq, Option, some, none, Outcome, ok, raise, Error,
}
use legallens.Prelude.Dict.{Dict, lookup}
use legallens.Dispatcher.{Task}
use legallens.Worker.{
  Handler, run_handler, conclude, Report, no_handler, failed, done, Worker, handle,
}

module _ {P W : Type 0} where
  -- The tasks handled one after another.
  abbrev pub handle_all : Worker P W → List (Task P) → W → List (Report P) × W
  handle_all worker [] world = ([], world)
  handle_all worker (t ∷ ts) world =
      let (report, world') = handle worker t world in
      let (reports, world'') = handle_all worker ts world' in (report ∷ reports, world'')

  -- What becomes of tasks, from one state of the handlers' world to another, and what is logged: the
  -- handler of each task's kind is called once and in order, on what those before it left, whether
  -- they return or raise; a task of a kind without a handler is logged.
  pub data Served (handlers : Dict Text (Handler P W)) (world' : W)
      : List (Task P) → W → List (Report P) → Type 0 where
    all_served : Served handlers world' [] world' []
    unknown :
        {task : Task P} {tasks : List (Task P)} {world : W} {log : List (Report P)}
        → lookup task.kind handlers ≡ none
        → Served handlers world' tasks world log
        → Served handlers world' (task ∷ tasks) world (no_handler task ∷ log)
    returned :
        {task : Task P} {tasks : List (Task P)} {world next : W} {log : List (Report P)}
        (handler : Handler P W)
        → lookup task.kind handlers ≡ some handler
        → handler task world ≡ (ok tt, next)
        → Served handlers world' tasks next log
        → Served handlers world' (task ∷ tasks) world (done task ∷ log)
    raised :
        {task : Task P} {tasks : List (Task P)} {world next : W} {log : List (Report P)}
        (handler : Handler P W) (e : Error)
        → lookup task.kind handlers ≡ some handler
        → handler task world ≡ (raise e, next)
        → Served handlers world' tasks next log
        → Served handlers world' (task ∷ tasks) world (failed task e ∷ log)

  Served-concluded :
      (worker : Worker P W) (task : Task P) (tasks : List (Task P)) (world world' : W)
      (log : List (Report P)) (handler : Handler P W) (r : Outcome (Unit {0}) × W)
      → lookup task.kind worker.handlers ≡ some handler
      → handler task world ≡ r
      → Served worker.handlers world' tasks (conclude task r).1 log
      → Served worker.handlers world' (task ∷ tasks) world ((conclude task r).0 ∷ log)
  unfolding conclude
  Served-concluded worker task tasks world world' log handler (ok _, w) found ran rest =
      returned handler found ran rest
  Served-concluded worker task tasks world world' log handler (raise e, w) found ran rest =
      raised handler e found ran rest

  Served-handle :
      (worker : Worker P W) (task : Task P) (tasks : List (Task P)) (world world' : W)
      (log : List (Report P))
      → Served worker.handlers world' tasks (handle worker task world).1 log
      → Served worker.handlers world' (task ∷ tasks) world ((handle worker task world).0 ∷ log)
  unfolding handle run_handler
  Served-handle worker task tasks world world' log rest =
      go (lookup task.kind worker.handlers) refl rest
    where
      go :
          (o : Option (Handler P W))
          → lookup task.kind worker.handlers ≡ o
          → Served worker.handlers world' tasks (run_handler o task world).1 log
          → Served worker.handlers world' (task ∷ tasks) world ((run_handler o task world).0 ∷ log)
      go none missing h = unknown missing h
      go (some handler) found h =
          Served-concluded worker task tasks world world' log handler (handler task world) found
            refl h

  pub Served-handle_all :
      (worker : Worker P W) (tasks : List (Task P)) (world : W)
      → Served worker.handlers
          (handle_all worker tasks world).1
          tasks
          world
          (handle_all worker tasks world).0
  Served-handle_all worker [] world = all_served
  Served-handle_all worker (t ∷ ts) world =
      Served-handle worker t ts world _ _ (Served-handle_all worker ts (handle worker t world).1)

  -- A task whose handler returns.
  pub handle_done :
      (worker : Worker P W) (task : Task P) (handler : Handler P W) (world world' : W)
      → lookup task.kind worker.handlers ≡ some handler
      → handler task world ≡ (ok tt, world')
      → handle worker task world ≡ (done task, world')
  unfolding handle run_handler conclude
  handle_done worker task handler world world' found ran = rw (found, ran)
