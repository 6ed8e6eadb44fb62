-- ===== src/Worker/Loop.antt =====
-- The worker's loop: every task of the queue is handled once and in order.
use mathlib.Core.List.{append_assoc, append-nil}
use legallens.Prelude.{
  ℕ, suc, ◌≤◌, ◌≡◌, ◌≢◌, ap, ◌∙◌, false, List, [], ◌∷◌, ◌++◌, map, Text, codes, text_eq, ok, refl,
  ltb, ◌+◌, ==_iff, if◌then◌else◌, length, arith,
}
use legallens.Redis.{Redis}
use legallens.Registry.{hb_key, hb_ttl_seconds, events_channel, register, heartbeat, deregister}
use legallens.Dispatcher.{Task, Codec, worker_queue_key}
use legallens.Worker.{
  Report, Worker, State, Turn, beat, cycle, handle, proceed, round, take_turn, loop, run,
}
use legallens.Worker.Round
use legallens.Worker.Round.{round_first, round_empty}
use legallens.Worker.Served.{handle_all, Served, Served-handle_all}

abbrev first : Text → ℕ
first [] = 0
first (c ∷ s) = c

hb_key-ne-worker_queue_key : (u v : Text) → worker_queue_key u ≢ hb_key v
unfolding hb_key worker_queue_key
hb_key-ne-worker_queue_key u v = λ e. absurd (omega (arith, ap first e))

abbrev pub cycles : List Turn → ℕ
cycles [] = 0
cycles (beat _ ∷ turns) = cycles turns
cycles (cycle ∷ turns) = suc (cycles turns)

module _ (redis : Redis) {P W : Type 0} (codec : Codec P) (worker : Worker P W) where
  open redis use {Store, entries, live}
  open codec use {dump_json}

  abbrev queue : Store → List Text
  queue s = Round.queue redis codec worker s

  queue-heartbeat : (now : ℕ) (s : Store) → queue (heartbeat redis worker.worker_id now s) ≡ queue s
  unfolding heartbeat
  queue-heartbeat now s = ground (
    arith,
    redis.entries-set_ex s now 10 (hb_key worker.worker_id) (worker_queue_key worker.worker_id),
    hb_key-ne-worker_queue_key worker.worker_id worker.worker_id,
  )

  -- The state after the tasks of `ts` have been handled from `st`, over the store `s`.
  abbrev pub after : List (Task P) → State Store P W → Store → State Store P W
  after ts st s = record {
    store = s;
    world = (handle_all worker ts st.world).1;
    log = st.log ++ (handle_all worker ts st.world).0;
  }

  loop_cycle :
      (turns : List Turn) (st st' : State Store P W)
      → round redis codec worker st ≡ (ok tt, st')
      → loop redis codec (cycle ∷ turns) worker st ≡ loop redis codec turns worker st'
  unfolding loop
  loop_cycle turns st st' e = ap (proceed redis codec (loop redis codec turns worker)) e

  -- With a round for each task, the loop handles the tasks of the queue once and in order, whatever
  -- their handlers raise, and leaves the queue empty; it never raises, and heartbeats in between
  -- change nothing of this.
  pub loop_drains :
      (turns : List Turn) (st : State Store P W) (ts : List (Task P))
      → queue st.store ≡ map dump_json ts
      → length ts ≤ cycles turns
      → (s : Store) × (queue s ≡ []) × (loop redis codec turns worker st ≡ (ok tt, after ts st s))
  unfolding loop take_turn
  loop_drains [] st [] e h = (st.store, e, rw append-nil)
  loop_drains [] st (t ∷ ts) e h = absurd (omega arith)
  loop_drains (beat now ∷ turns) st ts e h =
      loop_drains turns (record st { store = heartbeat redis worker.worker_id now st.store }) ts
        (queue-heartbeat now st.store ∙ e) h
  loop_drains (cycle ∷ turns) st [] e h =
      let (s, empty, rest) = loop_drains turns st [] e (omega arith) in
      (s, empty, loop_cycle turns st st (round_empty redis codec worker st e) ∙ rest)
  loop_drains (cycle ∷ turns) st (t ∷ ts) e h =
      let (s, left, stepped) = round_first redis codec worker st t (map dump_json ts) e in
      let next : State Store P W = record {
        store = s;
        world = (handle worker t st.world).1;
        log = st.log ++ (handle worker t st.world).0 ∷ [];
      } in
      let (s', empty, rest) = loop_drains turns next ts left (omega arith) in
      (
        s',
        empty,
        loop_cycle turns st next stepped
            ∙ rest
            ∙ ap (λ l. (ok tt, record (after (t ∷ ts) st s') { log = l }))
                (append_assoc st.log ((handle worker t st.world).0 ∷ [])
                  (handle_all worker ts (handle worker t st.world).1).0),
      )

  queue-register : (now : ℕ) (s : Store) → queue (register redis worker.worker_id now s) ≡ queue s
  unfolding register
  queue-register now s = ground (
    arith,
    redis.entries-set_ex s now 10 (hb_key worker.worker_id) (worker_queue_key worker.worker_id),
    redis.entries-publish (redis.set_ex now (hb_key worker.worker_id) 10 s) events_channel
        (codes "join:" ++ worker.worker_id) (worker_queue_key worker.worker_id),
    hb_key-ne-worker_queue_key worker.worker_id worker.worker_id,
  )

  queue-deregister : (s : Store) → queue (deregister redis worker.worker_id s) ≡ queue s
  unfolding deregister
  queue-deregister s = ground (
    arith,
    redis.entries-delete s (hb_key worker.worker_id) (worker_queue_key worker.worker_id),
    redis.entries-publish (redis.delete (hb_key worker.worker_id) s) events_channel
        (codes "leave:" ++ worker.worker_id) (worker_queue_key worker.worker_id),
    hb_key-ne-worker_queue_key worker.worker_id worker.worker_id,
  )

  live-deregister :
      (s : Store) (t : ℕ)
      → live (deregister redis worker.worker_id s) t (hb_key worker.worker_id) ≡ false
  unfolding deregister
  live-deregister s t = ground (
    arith,
    redis.live-delete s t (hb_key worker.worker_id) (hb_key worker.worker_id),
    redis.live-publish (redis.delete (hb_key worker.worker_id) s) t events_channel
        (codes "leave:" ++ worker.worker_id) (hb_key worker.worker_id),
  )

  -- The heartbeat key at the end of a run: it is gone, unless the run had no turn.
  abbrev pub LeftKey : List Turn → ℕ → Store → Type 0
  LeftKey [] now s =
      (t : ℕ) → now ≤ t → live s t (hb_key worker.worker_id) ≡ ltb t (now + hb_ttl_seconds)
  LeftKey (turn ∷ turns) now s = (t : ℕ) → live s t (hb_key worker.worker_id) ≡ false

  live-register :
      (now : ℕ) (s : Store) (t : ℕ)
      → now ≤ t
      → live (register redis worker.worker_id now s) t (hb_key worker.worker_id)
        ≡ ltb t (now + hb_ttl_seconds)
  unfolding register
  live-register now s t h =
      let key = hb_key worker.worker_id in
      redis.live-publish (redis.set_ex now key hb_ttl_seconds s) t events_channel
        (codes "join:" ++ worker.worker_id) key
      ∙ redis.live-set_ex s now hb_ttl_seconds t key key h
      ∙ ap (λ b. if b then ltb t (now + hb_ttl_seconds) else live s t key) ((==_iff key key).1 refl)

  pub run-loop_drains :
      (turns : List Turn) (now : ℕ) (st : State Store P W) (ts : List (Task P))
      → queue st.store ≡ map dump_json ts
      → length ts ≤ cycles turns
      → (s : Store) × (run redis codec turns worker now st ≡ (ok tt, after ts st s))
        × (queue s ≡ [])
        × LeftKey turns now s
  unfolding run loop
  run-loop_drains [] now st (t ∷ ts) e h = absurd (omega arith)
  run-loop_drains [] now st [] e h = (
    register redis worker.worker_id now st.store,
    rw append-nil refl,
    queue-register now st.store ∙ e,
    live-register now st.store,
  )
  run-loop_drains (turn ∷ turns) now st ts e h =
      let st' : State Store P W = record st {
        store = register redis worker.worker_id now st.store;
      } in
      let (s, empty, done_all) =
        loop_drains (turn ∷ turns) st' ts (queue-register now st.store ∙ e) h in
      (
        deregister redis worker.worker_id s,
        ap (λ x. (x.0, record x.1 { store = deregister redis worker.worker_id x.1.store }))
            done_all,
        queue-deregister s ∙ empty,
        live-deregister s,
      )

  -- `run` on a queue of well-formed tasks, with a round for each of them, returns: each task is given
  -- once and in order to the handler of its kind, and what became of it is logged, whether the handler
  -- returned or raised or there was none; and the queue is empty in the end. The worker's heartbeat key
  -- is then gone, unless the stop event was set before the first turn: then it stays until its ten
  -- seconds are over.
  pub run_drains :
      (turns : List Turn) (now : ℕ) (st : State Store P W) (ts : List (Task P))
      → queue st.store ≡ map dump_json ts
      → length ts ≤ cycles turns
      → (st' : State Store P W) × (reports : List (Report P)) × (run redis codec turns worker now st
          ≡ (ok tt, st'))
        × (st'.log ≡ st.log ++ reports)
        × Served worker.handlers st'.world ts st.world reports
        × (queue st'.store ≡ [])
        × LeftKey turns now st'.store
  run_drains turns now st ts e h =
      let (s, ran, empty, key) = run-loop_drains turns now st ts e h in
      (
        after ts st s,
        (handle_all worker ts st.world).0,
        ran,
        refl,
        Served-handle_all worker ts st.world,
        empty,
        key,
      )
