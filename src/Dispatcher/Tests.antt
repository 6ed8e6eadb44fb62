-- ===== src/Dispatcher/Tests.antt =====
-- Dispatching on a server in memory, with a codec for tasks that have no payload.
use legallens.Prelude.{
  ◌≡◌, refl, List, [], ◌∷◌, ◌++◌, map, length, some, none, ok, raise, no_workers_available, ◌⊎◌,
  Text, codes, text_eq, nat_eq, if◌then◌else◌, ◌==◌, Error,
}
use legallens.Prelude.Dict.{Dict, lookup}
use legallens.Redis.Memory.{memory, nothing}
use legallens.Ring.{get_worker}
use legallens.Ring.Samples.{plain_digest, two, two-IsValid, program}
use legallens.Dispatcher.{
  worker_queue_key, owner, append_to, dispatch, dispatch_many, route_all, execute, pop, depth,
}
use legallens.Dispatcher.Enqueue
use legallens.Dispatcher.Batch
use legallens.Dispatcher.Batch.{pop_many}
use legallens.Dispatcher.Routed.{dispatch_each, routed, or_empty}
use legallens.Dispatcher.Samples.{PlainTask, dump, plain_codec, task_for}

dispatch_program : Unit {0}
unfolding program worker_queue_key owner append_to dispatch route_all execute dispatch_many pop
    depth dispatch_each pop_many
dispatch_program = tt

abbrev batch : List PlainTask
batch = task_for (codes "c#x") ∷ task_for (codes "a#x") ∷ task_for (codes "c#y") ∷ []

batch_runs :
    (dispatch_many memory plain_codec plain_digest two batch nothing).0
    ≡ ok (
        (codes "d", task_for (codes "c#x") ∷ task_for (codes "c#y") ∷ [])
        ∷ (codes "b", task_for (codes "a#x") ∷ [])
        ∷ [])
unfolding dispatch_program
batch_runs = refl

dispatch_runs :
    (dispatch memory plain_codec plain_digest two (task_for (codes "c#x")) nothing).0
    ≡ ok (codes "d")
unfolding dispatch_program
dispatch_runs = refl

nothing_queued : (w : Text) → memory.entries nothing (worker_queue_key w) ≡ []
unfolding lookup
nothing_queued w = refl

dispatch_cases_example :
    ((w : Text) × (get_worker plain_digest two (codes "c#x") ≡ ok (some w))
      × ((dispatch memory plain_codec plain_digest two (task_for (codes "c#x")) nothing).0 ≡ ok w)
      × ((u : Text)
          → memory.entries
              (dispatch memory plain_codec plain_digest two (task_for (codes "c#x")) nothing).1
              (worker_queue_key u)
            ≡ (if u == w
                then memory.entries nothing (worker_queue_key u)
                  ++ plain_codec.dump_json (task_for (codes "c#x")) ∷ []
                else memory.entries nothing (worker_queue_key u))))
    ⊎ ((dispatch memory plain_codec plain_digest two (task_for (codes "c#x")) nothing
          ≡ (raise no_workers_available, nothing))
        × ((get_worker plain_digest two (codes "c#x") ≡ ok none)
            ⊎ (get_worker plain_digest two (codes "c#x") ≡ ok (some []))))
dispatch_cases_example =
    Enqueue.dispatch_cases memory plain_codec plain_digest two (task_for (codes "c#x")) nothing
      two-IsValid

abbrev batch_dict : Dict Text (List PlainTask)
batch_dict =
    (codes "d", task_for (codes "c#x") ∷ task_for (codes "c#y") ∷ [])
    ∷ (codes "b", task_for (codes "a#x") ∷ [])
    ∷ []

dispatch_many_cases_example :
    ((x : Error) × (dispatch_many memory plain_codec plain_digest two batch nothing
        ≡ (raise x, nothing)))
    ⊎ ((d : Dict Text (List PlainTask)) × (dispatch_many memory plain_codec plain_digest two batch
            nothing
          ≡ (ok d, dispatch_each memory plain_codec plain_digest two batch nothing))
        × ((w : Text)
            → (or_empty (lookup w d) ≡ routed memory plain_codec plain_digest two w batch)
              × (memory.entries
                    (dispatch_each memory plain_codec plain_digest two batch nothing)
                    (worker_queue_key w)
                  ≡ memory.entries nothing (worker_queue_key w)
                    ++ map dump (routed memory plain_codec plain_digest two w batch))))
dispatch_many_cases_example =
    Batch.dispatch_many_cases memory plain_codec plain_digest two batch nothing

pop_many-dispatch_many_example :
    let mine = routed memory plain_codec plain_digest two (codes "d") batch in
    let (popped, left) =
      pop_many memory plain_codec
        (length mine)
        (codes "d")
        (dispatch_many memory plain_codec plain_digest two batch nothing).1 in
    (or_empty (lookup (codes "d") batch_dict) ≡ mine)
    × (popped ≡ map (λ t. ok (some t)) mine)
    × (memory.entries left (worker_queue_key (codes "d")) ≡ [])
pop_many-dispatch_many_example =
    Batch.pop_many-dispatch_many memory plain_codec plain_digest two batch nothing batch_dict
      (codes "d") batch_runs (nothing_queued (codes "d"))
