-- ===== src/Driver/Enqueued.antt =====
-- What `main` puts into the queues.
use legallens.Prelude.{
  ℕ, ◌+◌, ◌≡◌, ◌⊎◌, ◌≢◌, is_empty_sound, refl, ap, sym, ◌∙◌, inl, inr, true, List, [], ◌∷◌, ◌++◌,
  map, Text, Option, Outcome, ok, raise, arith, length, is_empty, key_error, index_error,
  value_error, type_error, no_workers_available, agent_loop_error, other, Bool-cases,
}
use legallens.Redis.{Redis}
use legallens.Ring.{Ring}
use legallens.Registry.{refresh_ring, list_workers, new_ring}
use legallens.Parser.{ParsedContract}
use legallens.Ingest.{Payload}
use legallens.Dispatcher.{Codec, dispatch, worker_queue_key}
use legallens.Dispatcher.Routed.{routed, dispatch_each, entries-dispatch_each}
use legallens.Driver.{
  Ending, finished, reached, task_of, after_dispatch, after_parsing, enqueue_all, main,
  no_live_workers,
}

module _ (redis : Redis) {P : Type 0} (codec : Codec P) (payload_dict : Payload → P)
    (md5_hexdigest : List ℕ → Text) where
  open redis use {Store, entries}

  -- A run of the loop, where `n` contracts were enqueued before it: it hands the first contracts to
  -- the dispatcher, and each worker's queue is longer by the tasks that it owns, in order. Where
  -- it finishes, the number is right, and the limit is reached or no contract is left.
  pub record Enqueued (ring : Ring) (limit : Option ℕ) (n : ℕ) (contracts : List ParsedContract)
      (outcome : Outcome (Unit {0})) (s : Store) (r : Outcome Ending × Store) : Type 0 where
    pub handed : List ParsedContract
    pub left : List ParsedContract
    pub first : contracts ≡ handed ++ left
    pub store_is :
        r.1 ≡ dispatch_each redis codec md5_hexdigest ring (map (task_of payload_dict) handed) s
    pub queues :
        (w : Text)
        → entries r.1 (worker_queue_key w)
          ≡ entries s (worker_queue_key w)
            ++ map codec.dump_json
                (routed redis codec md5_hexdigest ring w (map (task_of payload_dict) handed))
    pub complete :
        (m : ℕ)
        → r.0 ≡ ok (finished m)
        → (m ≡ n + length handed) × ((reached limit m ≡ true) ⊎ ((left ≡ []) × (outcome ≡ ok tt)))

  with_queues :
      (ring : Ring) (limit : Option ℕ) (n : ℕ) (contracts : List ParsedContract)
      (outcome : Outcome (Unit {0})) (s : Store) (r : Outcome Ending × Store)
      (handed left : List ParsedContract)
      → contracts ≡ handed ++ left
      → r.1 ≡ dispatch_each redis codec md5_hexdigest ring (map (task_of payload_dict) handed) s
      → ((m : ℕ)
          → r.0 ≡ ok (finished m)
          → (m ≡ n + length handed)
            × ((reached limit m ≡ true) ⊎ ((left ≡ []) × (outcome ≡ ok tt))))
      → Enqueued ring limit n contracts outcome s r
  with_queues ring limit n contracts outcome s r handed left e store c = record {
    handed = handed;
    left = left;
    first = e;
    store_is = store;
    queues = λ w.
        ap (λ t. entries t (worker_queue_key w)) store
        ∙ entries-dispatch_each redis codec md5_hexdigest ring (map (task_of payload_dict) handed) s
            w;
    complete = c;
  }

  after_dispatch_cases :
      (rest : Store → Outcome Ending × Store) (r : Outcome Text × Store)
      → (after_dispatch redis codec payload_dict md5_hexdigest rest r ≡ rest r.1)
        ⊎ (((after_dispatch redis codec payload_dict md5_hexdigest rest r).1 ≡ r.1)
            × ((m : ℕ)
                → (after_dispatch redis codec payload_dict md5_hexdigest rest r).0
                  ≢ ok (finished m)))
  unfolding after_dispatch
  after_dispatch_cases rest (ok wid, s) = inl refl
  after_dispatch_cases rest (raise no_workers_available, s) = inr (refl, λ m h. cc)
  after_dispatch_cases rest (raise key_error, s) = inr (refl, λ m h. cc)
  after_dispatch_cases rest (raise index_error, s) = inr (refl, λ m h. cc)
  after_dispatch_cases rest (raise value_error, s) = inr (refl, λ m h. cc)
  after_dispatch_cases rest (raise type_error, s) = inr (refl, λ m h. cc)
  after_dispatch_cases rest (raise (agent_loop_error x), s) = inr (refl, λ m h. cc)
  after_dispatch_cases rest (raise (other x), s) = inr (refl, λ m h. cc)

  after_parsing_lem :
      (n : ℕ) (outcome : Outcome (Unit {0})) (m : ℕ)
      → after_parsing redis codec payload_dict md5_hexdigest n outcome ≡ ok (finished m)
      → (m ≡ n) × (outcome ≡ ok tt)
  unfolding after_parsing
  after_parsing_lem n (ok _) m h = (cc, refl)
  after_parsing_lem n (raise e) m h = (cc, cc)

  enqueue_all-Enqueued :
      (contracts : List ParsedContract) (ring : Ring) (limit : Option ℕ) (n : ℕ)
      (outcome : Outcome (Unit {0})) (s : Store)
      → Enqueued ring limit n contracts outcome s
          (enqueue_all redis codec payload_dict md5_hexdigest ring limit n contracts outcome s)
  unfolding enqueue_all dispatch_each
  enqueue_all-Enqueued [] ring limit n outcome s =
      with_queues ring limit n [] outcome s _ [] [] refl refl
        (λ m h. let (e, done) = after_parsing_lem n outcome m h in (omega arith, inr (refl, done)))
  enqueue_all-Enqueued (c ∷ cs) ring limit n outcome s = elim (Bool-cases (reached limit n)) [
    | inl stop ↦ rw stop (
        with_queues ring limit n (c ∷ cs) outcome s (ok (finished n), s) [] (c ∷ cs) refl refl
          (λ m h.
            let same : n ≡ m = cc in (omega arith, inl (ap (reached limit) (sym same) ∙ stop))))
    | inr go ↦
        let sent = dispatch redis codec md5_hexdigest ring (task_of payload_dict c) s in
        elim (after_dispatch_cases
          (enqueue_all redis codec payload_dict md5_hexdigest ring limit (n + 1) cs outcome) sent) [
            | inl on ↦
                let rest = enqueue_all-Enqueued cs ring limit (n + 1) outcome sent.1 in
                rw (go, on)
                  (with_queues ring limit n (c ∷ cs) outcome s _ (c ∷ rest.handed) rest.left
                    (ap (◌∷◌ c) rest.first) rest.store_is
                    (λ m h. let (e, why) = rest.complete m h in (omega arith, why)))
            | inr (stays, never) ↦ rw go (
                with_queues ring limit n (c ∷ cs) outcome s _ (c ∷ []) cs refl stays
                  (λ m h. absurd (never m h)))
          ]
  ]

  pub main-Enqueued :
      (limit : Option ℕ) (contracts : List ParsedContract) (outcome : Outcome (Unit {0})) (now : ℕ)
      (s : Store)
      → ((list_workers redis s now ≡ [])
          × (main redis codec payload_dict md5_hexdigest true limit (contracts, outcome) now s
              ≡ (raise no_live_workers, s)))
        ⊎ ((list_workers redis s now ≢ [])
            × Enqueued
                (refresh_ring redis md5_hexdigest (new_ring redis) s now).0
                limit
                0
                contracts
                outcome
                s
                (main redis codec payload_dict md5_hexdigest true limit (contracts, outcome) now s))
  unfolding main refresh_ring
  main-Enqueued limit contracts outcome now s =
      elim (Bool-cases (is_empty (list_workers redis s now))) [
        | inl none_live ↦
            inl (is_empty_sound (list_workers redis s now) none_live, rw none_live refl)
        | inr live ↦ inr (
          λ none_live. cc (live, ap is_empty none_live),
          rw live (enqueue_all-Enqueued contracts _ limit 0 outcome s),
        )
      ]
