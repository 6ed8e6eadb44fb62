-- ===== src/Dispatcher/Batch.antt =====
-- `dispatch_many`: all tasks or none, each to its owner's queue, in order.
use legallens.Prelude.{
  ℕ, zero, suc, ◌≡◌, refl, ap, sym, ◌∙◌, ◌⊎◌, inl, inr, List, [], ◌∷◌, ◌++◌, map, Text, text_eq,
  Option, some, Outcome, ok, raise, Error, length, Outcome-cases,
}
use legallens.Prelude.Dict.{Dict, lookup, lookup-nil}
use legallens.Redis.{Redis}
use legallens.Ring.{Ring}
use legallens.Dispatcher.{Task, Codec, worker_queue_key, route_all, dispatch_many, pop}
use legallens.Dispatcher.Routed.{
  or_empty, routed, dispatch_each, entries-dispatch_each, route_all-by_worker, route_all-execute,
}
use legallens.Dispatcher.Enqueue.{pop_first}

module _ (redis : Redis) {P : Type 0} (codec : Codec P) where
  open redis use {Store, entries}
  open codec use {dump_json}

  -- `pop`, `n` times over: what it returns, and what is left.
  unfoldable pub pop_many : ℕ → Text → Store → List (Outcome (Option (Task P))) × Store
  pop_many zero w s = ([], s)
  pop_many (suc n) w s =
      let (first, s') = pop redis codec w s in
      let (rest, left) = pop_many n w s' in (first ∷ rest, left)

  -- A queue is popped in the order in which it was filled, and is empty then.
  pub pop_many_of_entries :
      (w : Text) (s : Store) (ts : List (Task P))
      → entries s (worker_queue_key w) ≡ map dump_json ts
      → ((pop_many (length ts) w s).0 ≡ map (λ t. ok (some t)) ts)
        × (entries (pop_many (length ts) w s).1 (worker_queue_key w) ≡ [])
  unfolding pop_many
  pop_many_of_entries w s [] e = (refl, e)
  pop_many_of_entries w s (t ∷ ts) e =
      let (first, left) = pop_first redis codec w s t (map dump_json ts) e in
      let (popped, empty) = pop_many_of_entries w (pop redis codec w s).1 ts left in
      (rw (first, popped) refl, empty)

  module _ (md5_hexdigest : List ℕ → Text) (ring : Ring) where
    -- `dispatch_many` either raises, and Redis is as before; or it leaves what dispatching the
    -- tasks one after another leaves: behind each worker's queue the tasks that it owns, in
    -- order, which are also what the returned dict has for it.
    pub dispatch_many_cases :
        (ts : List (Task P)) (s : Store)
        → ((x : Error) × (dispatch_many redis codec md5_hexdigest ring ts s ≡ (raise x, s)))
          ⊎ ((d : Dict Text (List (Task P))) × (dispatch_many redis codec md5_hexdigest ring ts s
                ≡ (ok d, dispatch_each redis codec md5_hexdigest ring ts s))
              × ((w : Text)
                  → (or_empty (lookup w d) ≡ routed redis codec md5_hexdigest ring w ts)
                    × (entries
                          (dispatch_each redis codec md5_hexdigest ring ts s)
                          (worker_queue_key w)
                        ≡ entries s (worker_queue_key w)
                          ++ map dump_json (routed redis codec md5_hexdigest ring w ts))))
    unfolding dispatch_many
    dispatch_many_cases ts s =
        elim (Outcome-cases (route_all redis codec md5_hexdigest ring ts [] [])) [
          | inl ((d, p), e) ↦ inr (
            d,
            rw e (
                ap (λ x. (ok d, x))
                  (route_all-execute redis codec md5_hexdigest ring ts [] d [] p s e)),
            λ w. (
              route_all-by_worker redis codec md5_hexdigest ring ts [] d [] p w e
                  ∙ rw (lookup-nil {V = List (Task P)} w),
              entries-dispatch_each redis codec md5_hexdigest ring ts s w,
            ),
          )
          | inr (x, e) ↦ inl (x, rw e)
        ]

    -- After a successful `dispatch_many` a worker whose queue was empty has in it exactly the tasks
    -- whose keys the ring gives to it, which are also those that the returned dict has for it: it pops
    -- them once each and in the order of the batch, and then its queue is empty.
    pub pop_many-dispatch_many :
        (ts : List (Task P)) (s : Store) (d : Dict Text (List (Task P))) (w : Text)
        → (dispatch_many redis codec md5_hexdigest ring ts s).0 ≡ ok d
        → entries s (worker_queue_key w) ≡ []
        → let mine = routed redis codec md5_hexdigest ring w ts in
          let (popped, left) =
            pop_many (length mine) w (dispatch_many redis codec md5_hexdigest ring ts s).1 in
          (or_empty (lookup w d) ≡ mine)
          × (popped ≡ map (λ t. ok (some t)) mine)
          × (entries left (worker_queue_key w) ≡ [])
    pop_many-dispatch_many ts s d w e empty = elim (dispatch_many_cases ts s) [
      | inl (x, q) ↦ absurd (cc (ap (λ r. r.0) q, e))
      | inr (d', q, spec) ↦
          let same : d' ≡ d = cc (ap (λ r. r.0) q, e) in
          let mine = routed redis codec md5_hexdigest ring w ts in
          let held : entries (dispatch_each redis codec md5_hexdigest ring ts s)
                (worker_queue_key w)
              ≡ map dump_json mine =
            cc ((spec w).1, empty) in
          let (popped, left) =
            pop_many_of_entries w (dispatch_each redis codec md5_hexdigest ring ts s) mine held in
          (ap (λ x. or_empty (lookup w x)) (sym same) ∙ (spec w).0, rw q popped, rw q left)
    ]
