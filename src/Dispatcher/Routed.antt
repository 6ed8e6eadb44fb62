-- ===== src/Dispatcher/Routed.antt =====
-- What `dispatch_many` sends, and to which worker: the pipeline beside one dispatch after another.
use mathlib.Core.List.{append_assoc, append-nil}
use legallens.Prelude.{
  ℕ, ◌≡◌, refl, ap, sym, ◌∙◌, Bool, false, inl, inr, List, [], ◌∷◌, ◌++◌, map, Text, text_eq,
  Option, some, none, Outcome, ok, raise, Error, arith, ◌==◌, if◌then◌else◌, keep, Outcome-cases,
}
use legallens.Prelude.Dict.{Dict, lookup, lookup-insert}
use legallens.Redis.{Redis}
use legallens.Ring.{Ring}
use legallens.Dispatcher.{
  Task, Codec, worker_queue_key, owner, append_to, route_all, execute, dispatch,
}
use legallens.Dispatcher.Enqueue.{entries-rpush_queue, dispatch_of_owner}
use legallens.Dispatcher.Enqueue.{entries-rpush_queue, dispatch_of_owner}

-- `by_worker.get(wid, [])`
abbrev pub or_empty {ℓ} : {A : Type ℓ} → Option (List A) → List A
or_empty none = []
or_empty (some xs) = xs

abbrev pub is_owner : Outcome Text → Text → Bool
is_owner (ok u) w = w == u
is_owner (raise e) w = false

lookup-append_to :
    {P : Type 0} (u w : Text) (t : Task P) (d : Dict Text (List (Task P)))
    → or_empty (lookup w (append_to u t d))
      ≡ (if w == u then or_empty (lookup w d) ++ t ∷ [] else or_empty (lookup w d))
unfolding append_to
lookup-append_to u w t d =
    ground
      (arith, lookup-insert w u (t ∷ []) d, lookup-insert w u (or_empty (lookup u d) ++ t ∷ []) d)

module _ (redis : Redis) {P : Type 0} (codec : Codec P) where
  open redis use {Store, entries, rpush}
  open codec use {dump_json}

  execute-append :
      (p q : List (Text × Text)) (s : Store)
      → execute redis codec (p ++ q) s ≡ execute redis codec q (execute redis codec p s)
  unfolding execute
  execute-append [] q s = refl
  execute-append ((k, v) ∷ p) q s = execute-append p q (rpush k v s)

  execute_one :
      (u : Text) (t : Task P) (s : Store)
      → execute redis codec ((worker_queue_key u, dump_json t) ∷ []) s
        ≡ rpush (worker_queue_key u) (dump_json t) s
  unfolding execute
  execute_one u t s = refl

  module _ (md5_hexdigest : List ℕ → Text) (ring : Ring) where
    -- The tasks of `tasks` that `w` owns, in order.
    abbrev pub routed : Text → List (Task P) → List (Task P)
    routed w = keep (λ t. is_owner (owner redis codec md5_hexdigest ring t) w)

    -- `dispatch` for one task after another.
    unfoldable pub dispatch_each : List (Task P) → Store → Store
    dispatch_each [] s = s
    dispatch_each (t ∷ ts) s = dispatch_each ts (dispatch redis codec md5_hexdigest ring t s).1

    dispatch_raise :
        (t : Task P) (s : Store) (x : Error)
        → owner redis codec md5_hexdigest ring t ≡ raise x
        → dispatch redis codec md5_hexdigest ring t s ≡ (raise x, s)
    unfolding dispatch
    dispatch_raise t s x e = rw e

    route_all_step :
        (t : Task P) (ts : List (Task P)) (u : Text) (d : Dict Text (List (Task P)))
        (p : List (Text × Text))
        → owner redis codec md5_hexdigest ring t ≡ ok u
        → route_all redis codec md5_hexdigest ring (t ∷ ts) d p
          ≡ route_all redis codec md5_hexdigest ring ts
              (append_to u t d)
              (p ++ (worker_queue_key u, dump_json t) ∷ [])
    unfolding route_all
    route_all_step t ts u d p e = rw e

    route_all_raise :
        (t : Task P) (ts : List (Task P)) (x : Error) (d : Dict Text (List (Task P)))
        (p : List (Text × Text))
        → owner redis codec md5_hexdigest ring t ≡ raise x
        → route_all redis codec md5_hexdigest ring (t ∷ ts) d p ≡ raise x
    unfolding route_all
    route_all_raise t ts x d p e = rw e

    route_all_nil :
        (d d' : Dict Text (List (Task P))) (p p' : List (Text × Text))
        → route_all redis codec md5_hexdigest ring [] d p ≡ ok (d', p')
        → (d ≡ d') × (p ≡ p')
    unfolding route_all
    route_all_nil d d' p p' h = (cc, cc)

    -- The dict that `route_all` returns has for each worker the tasks that it owns.
    pub route_all-by_worker :
        (ts : List (Task P)) (d d' : Dict Text (List (Task P))) (p p' : List (Text × Text))
        (w : Text)
        → route_all redis codec md5_hexdigest ring ts d p ≡ ok (d', p')
        → or_empty (lookup w d') ≡ or_empty (lookup w d) ++ routed w ts
    route_all-by_worker [] d d' p p' w h =
        rw append-nil (ap (λ x. or_empty (lookup w x)) (sym (route_all_nil d d' p p' h).0))
    route_all-by_worker (t ∷ ts) d d' p p' w h =
        elim (Outcome-cases (owner redis codec md5_hexdigest ring t)) [
          | inl (u, e) ↦
              let ih =
                route_all-by_worker ts (append_to u t d) d'
                  (p ++ (worker_queue_key u, dump_json t) ∷ []) p' w
                  (sym (route_all_step t ts u d p e) ∙ h) in
              rw (ih, e)
                (ground (
                  arith,
                  lookup-append_to u w t d,
                  append_assoc (or_empty (lookup w d)) (t ∷ []) (routed w ts),
                ))
          | inr (x, e) ↦ absurd (cc (route_all_raise t ts x d p e, h))
        ]

    -- The pipeline does what dispatching one task after another does.
    pub route_all-execute :
        (ts : List (Task P)) (d d' : Dict Text (List (Task P))) (p p' : List (Text × Text))
        (s : Store)
        → route_all redis codec md5_hexdigest ring ts d p ≡ ok (d', p')
        → execute redis codec p' s ≡ dispatch_each ts (execute redis codec p s)
    unfolding dispatch_each
    route_all-execute [] d d' p p' s h =
        ap (λ x. execute redis codec x s) (sym (route_all_nil d d' p p' h).1)
    route_all-execute (t ∷ ts) d d' p p' s h =
        elim (Outcome-cases (owner redis codec md5_hexdigest ring t)) [
          | inl (u, e) ↦
              route_all-execute ts (append_to u t d) d'
                (p ++ (worker_queue_key u, dump_json t) ∷ []) p' s
                (sym (route_all_step t ts u d p e) ∙ h)
              ∙ ap (dispatch_each ts) (
                  execute-append p ((worker_queue_key u, dump_json t) ∷ []) s
                  ∙ execute_one u t (execute redis codec p s)
                  ∙ ap (λ x. x.1)
                      (sym (
                        dispatch_of_owner redis codec md5_hexdigest ring t (execute redis codec p s)
                          u e)))
          | inr (x, e) ↦ absurd (cc (route_all_raise t ts x d p e, h))
        ]

    -- Dispatching one after another puts each task behind the queue of its owner.
    pub entries-dispatch_each :
        (ts : List (Task P)) (s : Store) (w : Text)
        → entries (dispatch_each ts s) (worker_queue_key w)
          ≡ entries s (worker_queue_key w) ++ map dump_json (routed w ts)
    unfolding dispatch_each
    entries-dispatch_each [] s w = rw append-nil
    entries-dispatch_each (t ∷ ts) s w =
        elim (Outcome-cases (owner redis codec md5_hexdigest ring t)) [
          | inl (u, e) ↦
              rw
                (
                  entries-dispatch_each ts (dispatch redis codec md5_hexdigest ring t s).1 w,
                  dispatch_of_owner redis codec md5_hexdigest ring t s u e,
                  entries-rpush_queue redis codec s u w (dump_json t),
                  e,
                )
                (ground (
                  arith,
                  append_assoc (entries s (worker_queue_key w)) (dump_json t ∷ [])
                      (map dump_json (routed w ts)),
                ))
          | inr (x, e) ↦ rw (
            entries-dispatch_each ts (dispatch redis codec md5_hexdigest ring t s).1 w,
            dispatch_raise t s x e,
            e,
          )
        ]
