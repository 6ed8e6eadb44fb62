-- ===== src/Worker/Round.antt =====
-- One round of the worker's loop, on a queue with a task in front and on an empty one.
use legallens.Prelude.{◌≡◌, List, [], ◌∷◌, ◌++◌, Text, Option, some, none, Outcome, ok, raise}
use legallens.Redis.{Redis}
use legallens.Dispatcher.{Task, Codec, worker_queue_key, pop}
use legallens.Dispatcher.Enqueue.{pop_first, pop_empty}
use legallens.Worker.{Worker, State, handle, after_pop, round}

module _ (redis : Redis) {P W : Type 0} (codec : Codec P) (worker : Worker P W) where
  open redis use {Store, entries}
  open codec use {dump_json}

  abbrev pub queue : Store → List Text
  queue s = entries s (worker_queue_key worker.worker_id)

  after_pop-some :
      (p : Outcome (Option (Task P)) × Store) (st : State Store P W) (t : Task P)
      → p.0 ≡ ok (some t)
      → after_pop redis codec worker p st ≡ (
        ok tt,
        record {
          store = p.1;
          world = (handle worker t st.world).1;
          log = st.log ++ (handle worker t st.world).0 ∷ [];
        },
      )
  unfolding after_pop
  after_pop-some (raise x, s) st t e = cc
  after_pop-some (ok none, s) st t e = cc
  after_pop-some (ok (some u), s) st t e = let same : u ≡ t = cc in rw same

  -- A round over a queue with a task in front handles that task.
  pub round_first :
      (st : State Store P W) (t : Task P) (rest : List Text)
      → queue st.store ≡ dump_json t ∷ rest
      → (s : Store) × (queue s ≡ rest)
        × (round redis codec worker st ≡ (
          ok tt,
          record {
            store = s;
            world = (handle worker t st.world).1;
            log = st.log ++ (handle worker t st.world).0 ∷ [];
          },
        ))
  unfolding round
  round_first st t rest e =
      let (first, left) = pop_first redis codec worker.worker_id st.store t rest e in
      (
        (pop redis codec worker.worker_id st.store).1,
        left,
        after_pop-some (pop redis codec worker.worker_id st.store) st t first,
      )

  -- A round over an empty queue times out.
  pub round_empty :
      (st : State Store P W) → queue st.store ≡ [] → round redis codec worker st ≡ (ok tt, st)
  unfolding round after_pop
  round_empty st e = rw (pop_empty redis codec worker.worker_id st.store e)
