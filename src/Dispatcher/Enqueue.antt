-- ===== src/Dispatcher/Enqueue.antt =====
-- One task: which queue it goes to, and that its worker reads it back.
use legallens.Prelude.{
  ℕ, ◌≡◌, ap, ◌⊎◌, inl, inr, List, [], ◌∷◌, ◌++◌, Text, text_eq, Option, some, none, Outcome, ok,
  raise, no_workers_available, arith, ◌==◌, if◌then◌else◌, drop,
}
use legallens.Redis.{Redis}
use legallens.Ring.{Ring, get_worker}
use legallens.Ring.Owner.{IsValid}
use legallens.Ring.Routing.{get_worker-Owns}
use legallens.Dispatcher.{
  Task, Codec, enqueue, popped, worker_queue_key, owner, dispatch, pop, depth,
}

pub worker_queue_key-injective : (u v : Text) → worker_queue_key u ≡ worker_queue_key v → u ≡ v
unfolding worker_queue_key
worker_queue_key-injective u v e = ap (drop 6) e

module _ (redis : Redis) {P : Type 0} (codec : Codec P) where
  open redis use {Store, entries, rpush}
  open codec use {dump_json}

  -- One more entry stands last in the queue of one worker, and in no other queue.
  pub entries-rpush_queue :
      (s : Store) (w u v : Text)
      → entries (rpush (worker_queue_key w) v s) (worker_queue_key u) ≡ (
          if u == w
          then entries s (worker_queue_key u) ++ v ∷ []
          else entries s (worker_queue_key u))
  entries-rpush_queue s w u v = ground (
    arith,
    redis.entries-rpush s (worker_queue_key w) v (worker_queue_key u),
    worker_queue_key-injective u w,
  )

  module _ (md5_hexdigest : List ℕ → Text) where
    -- On a valid ring a task has an owner, or there is none with an id.
    owner_cases :
        (ring : Ring) (task : Task P)
        → IsValid ring
        → ((w : Text) × (get_worker md5_hexdigest ring task.routing_key ≡ ok (some w))
            × (owner redis codec md5_hexdigest ring task ≡ ok w))
          ⊎ ((owner redis codec md5_hexdigest ring task ≡ raise no_workers_available)
              × ((get_worker md5_hexdigest ring task.routing_key ≡ ok none)
                  ⊎ (get_worker md5_hexdigest ring task.routing_key ≡ ok (some []))))
    unfolding owner
    owner_cases ring task v = elim (get_worker-Owns md5_hexdigest ring task.routing_key v) [
      | inl (_, nothing) ↦ inr (rw nothing, inl nothing)
      | inr ([], found, _) ↦ inr (rw found, inr found)
      | inr (c ∷ w, found, _) ↦ inl (c ∷ w, found, rw found)
    ]

    pub dispatch_of_owner :
        (ring : Ring) (task : Task P) (s : Store) (w : Text)
        → owner redis codec md5_hexdigest ring task ≡ ok w
        → dispatch redis codec md5_hexdigest ring task s
          ≡ (ok w, rpush (worker_queue_key w) (dump_json task) s)
    unfolding dispatch
    dispatch_of_owner ring task s w e = rw e

    owner_of_dispatch :
        (ring : Ring) (task : Task P) (s : Store) (w : Text)
        → (dispatch redis codec md5_hexdigest ring task s).0 ≡ ok w
        → owner redis codec md5_hexdigest ring task ≡ ok w
    unfolding dispatch
    owner_of_dispatch ring task s w = go (owner redis codec md5_hexdigest ring task)
      where
        go : (o : Outcome Text) → (enqueue redis codec md5_hexdigest task s o).0 ≡ ok w → o ≡ ok w
        go (ok u) e = e
        go (raise x) e = cc

    -- On a valid ring `dispatch` either returns the owner of the routing key, and the task stands
    -- last in that worker's queue and every other worker's queue is as before; or it raises
    -- `NoWorkersAvailable`, because the key has no owner or one with an empty id, and Redis is
    -- as before.
    pub dispatch_cases :
        (ring : Ring) (task : Task P) (s : Store)
        → IsValid ring
        → ((w : Text) × (get_worker md5_hexdigest ring task.routing_key ≡ ok (some w))
            × ((dispatch redis codec md5_hexdigest ring task s).0 ≡ ok w)
            × ((u : Text)
                → entries (dispatch redis codec md5_hexdigest ring task s).1 (worker_queue_key u)
                  ≡ (if u == w
                      then entries s (worker_queue_key u) ++ dump_json task ∷ []
                      else entries s (worker_queue_key u))))
          ⊎ ((dispatch redis codec md5_hexdigest ring task s ≡ (raise no_workers_available, s))
              × ((get_worker md5_hexdigest ring task.routing_key ≡ ok none)
                  ⊎ (get_worker md5_hexdigest ring task.routing_key ≡ ok (some []))))
    unfolding dispatch
    dispatch_cases ring task s v = elim (owner_cases ring task v) [
      | inl (w, found, e) ↦
          inl (w, found, rw e, λ u. rw e (entries-rpush_queue s w u (dump_json task)))
      | inr (e, why) ↦ inr (rw e, why)
    ]

  popped-some :
      (p : Option Text × Store) (task : Task P)
      → p.0 ≡ some (dump_json task)
      → popped redis codec p ≡ (ok (some task), p.1)
  unfolding popped
  popped-some (none, s) task e = cc
  popped-some (some payload, s) task e =
      let same : payload ≡ dump_json task = cc in rw (same, codec.validate-dump task)

  -- What stands first in a worker's queue is popped first, and the rest stays.
  pub pop_first :
      (w : Text) (s : Store) (task : Task P) (rest : List Text)
      → entries s (worker_queue_key w) ≡ dump_json task ∷ rest
      → ((pop redis codec w s).0 ≡ ok (some task))
        × (entries (pop redis codec w s).1 (worker_queue_key w) ≡ rest)
  unfolding pop
  pop_first w s task rest e =
      let k = worker_queue_key w in
      let p = popped-some (redis.blpop k s) task (redis.blpop_first s k (dump_json task) rest e) in
      (rw p, rw p (ground (arith, redis.entries-blpop s k (dump_json task) rest k e)))

  -- An empty queue is a timeout.
  pub pop_empty :
      (w : Text) (s : Store)
      → entries s (worker_queue_key w) ≡ []
      → pop redis codec w s ≡ (ok none, s)
  unfolding pop popped
  pop_empty w s e = rw (redis.blpop_empty s (worker_queue_key w) e)

  -- What is dispatched to an empty queue is popped by its worker, and the queue is empty again.
  pub pop-dispatch :
      (md5_hexdigest : List ℕ → Text) (ring : Ring) (task : Task P) (s : Store) (w : Text)
      → (dispatch redis codec md5_hexdigest ring task s).0 ≡ ok w
      → entries s (worker_queue_key w) ≡ []
      → ((pop redis codec w (dispatch redis codec md5_hexdigest ring task s).1).0 ≡ ok (some task))
        × (depth redis codec w
              (pop redis codec w (dispatch redis codec md5_hexdigest ring task s).1).1
            ≡ 0)
  unfolding depth
  pop-dispatch md5_hexdigest ring task s w e empty =
      let o = owner_of_dispatch md5_hexdigest ring task s w e in
      let d = dispatch_of_owner md5_hexdigest ring task s w o in
      let q : entries (rpush (worker_queue_key w) (dump_json task) s) (worker_queue_key w)
          ≡ dump_json task ∷ [] =
        ground (arith, entries-rpush_queue s w w (dump_json task)) in
      let (first, left) = pop_first w (rpush (worker_queue_key w) (dump_json task) s) task [] q in
      rw d (first, rw left)
