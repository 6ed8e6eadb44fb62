-- ===== src/Worker.antt =====
-- workers/worker.py: a worker pops its queue until it is told to stop, and hands each task to the
-- handler of its kind.
pub mod Served
pub mod Round
pub mod Loop
pub mod Identity
mod Tests
use legallens.Prelude.{
  ℕ, List, [], ◌∷◌, ◌++◌, Text, text_eq, Option, some, none, Outcome, ok, raise, Error,
}
use legallens.Prelude.Dict.{Dict, lookup, insert}
use legallens.Redis.{Redis}
use legallens.Registry.{register, heartbeat, deregister}
use legallens.Dispatcher.{Task, Codec, pop}

-- What the handlers work on is `W`; a handler may raise.
abbrev pub Handler : Type 0 → Type 0 → Type 0
Handler P W = Task P → W → Outcome (Unit {0}) × W

-- What `_handle` logs at the end.
pub data Report (P : Type 0) : Type 0 where
  no_handler : Task P → Report P
  failed : Task P → Error → Report P
  done : Task P → Report P

pub record Worker (P W : Type 0) : Type 0 where
  pub worker_id : Text
  pub handlers : Dict Text (Handler P W)

module _ {P W : Type 0} where
  -- `register_handler`
  unfoldable pub register_handler : Worker P W → Text → Handler P W → Worker P W
  register_handler worker kind handler = record worker {
    handlers = insert kind handler worker.handlers;
  }

  conclude : Task P → Outcome (Unit {0}) × W → Report P × W
  conclude task (ok _, world) = (done task, world)
  conclude task (raise e, world) = (failed task e, world)

  run_handler : Option (Handler P W) → Task P → W → Report P × W
  unfolding conclude
  run_handler none task world = (no_handler task, world)
  run_handler (some handler) task world = conclude task (handler task world)

  -- `_handle`: what a handler raises is logged and goes no further.
  unfoldable pub handle : Worker P W → Task P → W → Report P × W
  unfolding run_handler
  handle worker task world = run_handler (lookup task.kind worker.handlers) task world

-- A worker in its loop: what Redis holds, what the handlers have done, and the log.
pub record State (S P W : Type 0) : Type 0 where
  pub store : S
  pub world : W
  pub log : List (Report P)

pub data Turn : Type 0 where
  beat : ℕ → Turn
  cycle : Turn

module _ (redis : Redis) {P W : Type 0} (codec : Codec P) where
  open redis use {Store}

  -- The body of the loop. What `pop` raises leaves the loop.
  after_pop :
      Worker P W
      → Outcome (Option (Task P)) × Store
      → State Store P W
      → Outcome (Unit {0}) × State Store P W
  after_pop worker (raise e, s) st = (raise e, record st { store = s })
  after_pop worker (ok none, s) st = (ok tt, record st { store = s })
  after_pop worker (ok (some task), s) st =
      let (report, world) = handle worker task st.world in
      (ok tt, record { store = s; world = world; log = st.log ++ report ∷ [] })

  unfoldable pub round : Worker P W → State Store P W → Outcome (Unit {0}) × State Store P W
  unfolding after_pop
  round worker st = after_pop worker (pop redis codec worker.worker_id st.store) st

  -- One turn of a process with two tasks: the heartbeat task beats at some time, or the loop makes
  -- a round.
  unfoldable pub take_turn :
      Worker P W → Turn → State Store P W → Outcome (Unit {0}) × State Store P W
  unfolding round
  take_turn worker (beat now) st =
      (ok tt, record st { store = heartbeat redis worker.worker_id now st.store })
  take_turn worker cycle st = round worker st

  -- An exception leaves the loop.
  proceed :
      (State Store P W → Outcome (Unit {0}) × State Store P W)
      → Outcome (Unit {0}) × State Store P W
      → Outcome (Unit {0}) × State Store P W
  proceed next (raise e, st) = (raise e, st)
  proceed next (ok _, st) = next st

  -- The `while not self._stop.is_set()` loop; the event is set when the turns end.
  unfoldable pub loop :
      List Turn → Worker P W → State Store P W → Outcome (Unit {0}) × State Store P W
  unfolding proceed take_turn
  loop [] worker st = (ok tt, st)
  loop (turn ∷ turns) worker st = proceed (loop turns worker) (take_turn worker turn st)

  -- The end of the heartbeat task, which `run` cancels. It takes its first step as soon as the loop
  -- waits for a task, and deregisters the worker where it is cancelled after that. If the stop event is
  -- set before the loop's first test, there is no turn: the task is cancelled before its `try` is
  -- entered, and does nothing.
  cancelled : List Turn → Worker P W → Store → Store
  cancelled [] worker s = s
  cancelled (turn ∷ turns) worker s = deregister redis worker.worker_id s

  -- `run`: the worker registers, loops, and cancels its heartbeat task in the end, also when the loop
  -- raises.
  unfoldable pub run :
      List Turn → Worker P W → ℕ → State Store P W → Outcome (Unit {0}) × State Store P W
  unfolding cancelled
  run turns worker now st =
      let (r, st') =
        loop turns worker (record st { store = register redis worker.worker_id now st.store }) in
      (r, record st' { store = cancelled turns worker st'.store })
