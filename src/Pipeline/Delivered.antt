-- ===== src/Pipeline/Delivered.antt =====
-- From the entries of the file to the worker's tables and vectors.
use legallens.Prelude.{
  ℕ, ◌≤◌, ◌≡◌, refl, ap, sym, ◌∙◌, inl, inr, true, Bool, Bool-cases, List, [], ◌∷◌, ◌++◌, map, keep,
  Text, text_eq, none, Outcome, ok, arith, length, length-map, All,
}
use mathlib.Core.List.{append-nil}
use legallens.Redis.{Redis}
use legallens.Registry.{refresh_ring, new_ring}
use legallens.Parser.{Entry, ParsedContract, parse_entries}
use legallens.Parser.Entries.{parse_entries-IsYielded}
use legallens.Dispatcher.{Codec, worker_queue_key}
use legallens.Dispatcher.Routed.{routed}
use legallens.Worker.{State, Turn, done}
use legallens.Worker.Served.{handle_all}
use legallens.Worker.Loop.{cycles, run-loop_drains}
use legallens.VectorStore.Interface.{VectorStore}
use legallens.Ingest.{Payload, Attempt, World}
use legallens.Ingest.Success.{IsSmooth}
use legallens.Ingest.Process.{PayloadDict, ingest_worker, work}
use legallens.Driver.{finished, reached, task_of, main}
use legallens.Driver.Enqueued.{main-Enqueued}
use legallens.Pipeline.{own, driven, all_tables, all_vectors}
use legallens.Pipeline.Handled.{handled_in_order}

keep-map {ℓ κ} :
    {A : Type ℓ} {B : Type κ} (p : B → Bool) (f : A → B) (xs : List A)
    → keep p (map f xs) ≡ map f (keep (λ x. p (f x)) xs)
keep-map p f [] = refl
keep-map p f (x ∷ xs) = ground (arith, keep-map p f xs)

All-keep {ℓ κ} :
    {A : Type ℓ} (P : A → Type κ) (p : A → Bool) (xs : List A) → All P xs → All P (keep p xs)
All-keep P p [] h = tt
All-keep P p (x ∷ xs) h = elim (Bool-cases (p x)) [
  | inl kept ↦ rw kept (h.0, All-keep P p xs h.1)
  | inr out ↦ rw out (All-keep P p xs h.1)
]

length-keep {ℓ} : {A : Type ℓ} (p : A → Bool) (xs : List A) → length (keep p xs) ≤ length xs
length-keep p [] = omega arith
length-keep p (x ∷ xs) = ground (arith, length-keep p xs)

module _ (redis : Redis) {Vec Row P : Type 0} (codec : Codec P) (store : VectorStore Vec Row Text)
    (dict : PayloadDict P) (vector : Text → Vec) (attempt : Payload → Attempt Vec)
    (smooth : (p : Payload) → IsSmooth vector (attempt p))
    (fitting : (text : Text) → store.fits (vector text) ≡ true)
    (md5_hexdigest sha1_hexdigest : List ℕ → Text) where
  open redis use {Store, entries}
  open store use {IsValid, contents}

  -- A driver that finishes has handed over every contract.
  queue_after_main :
      (contracts : List ParsedContract) (outcome : Outcome (Unit {0})) (now m : ℕ) (s : Store)
      (w : Text)
      → (main redis codec dict.write md5_hexdigest true none (contracts, outcome) now s).0
        ≡ ok (finished m)
      → (m ≡ length contracts)
        × (outcome ≡ ok tt)
        × (entries
              (main redis codec dict.write md5_hexdigest true none (contracts, outcome) now s).1
              (worker_queue_key w)
            ≡ entries s (worker_queue_key w)
              ++ map codec.dump_json (
                  routed redis codec md5_hexdigest
                    (refresh_ring redis md5_hexdigest (new_ring redis) s now).0
                    w
                    (map (task_of dict.write) contracts)))
  unfolding reached
  queue_after_main contracts outcome now m s w h =
      elim (main-Enqueued redis codec dict.write md5_hexdigest none contracts outcome now s) [
        | inl (_, raised) ↦ absurd (cc (ap (λ r. r.0) raised, h))
        | inr (_, run) ↦
            let (count, why) = run.complete m h in
            elim why [
              | inl stop ↦ cc
              | inr (rest, ended) ↦
                  let all : run.handed ≡ contracts =
                    sym (run.first ∙ ap (λ l. run.handed ++ l) rest ∙ append-nil run.handed) in
                  (
                    omega (arith, count, ap length all),
                    ended,
                    run.queues w
                        ∙ ap
                            (λ cs.
                              entries s (worker_queue_key w)
                              ++ map codec.dump_json (
                                  routed redis codec md5_hexdigest
                                    (refresh_ring redis md5_hexdigest (new_ring redis) s now).0 w
                                    (map (task_of dict.write) cs)))
                            all,
                  )
            ]
      ]

  queue_own :
      (es : List Entry) (now m : ℕ) (s : Store) (w : Text)
      → (driven redis codec dict.write md5_hexdigest sha1_hexdigest es now s).0 ≡ ok (finished m)
      → entries s (worker_queue_key w) ≡ []
      → entries
          (driven redis codec dict.write md5_hexdigest sha1_hexdigest es now s).1
          (worker_queue_key w)
        ≡ map codec.dump_json (
            map
              (task_of dict.write)
              (own redis codec dict.write md5_hexdigest sha1_hexdigest es now s w))
  queue_own es now m s w h blank =
      let contracts = (parse_entries sha1_hexdigest es).0 in
      let (_, _, queued) =
        queue_after_main contracts (parse_entries sha1_hexdigest es).1 now m s w h in
      queued
      ∙ ap
          (λ q.
            q
            ++ map codec.dump_json (
                routed redis codec md5_hexdigest
                  (refresh_ring redis md5_hexdigest (new_ring redis) s now).0 w
                  (map (task_of dict.write) contracts)))
          blank
      ∙ ap (map codec.dump_json) (keep-map _ (task_of dict.write) contracts)

  -- If the driver finishes on the entries of the file, without a limit, it has enqueued a contract
  -- for every entry. A worker whose queue was empty before, and that then makes at least as many
  -- rounds as there are entries, ingests exactly the contracts that the ring gives it, once and in
  -- order, if the server refuses nothing and the embedder answers with vectors that fit: every task
  -- is logged as done, the queue is empty, and the tables and the vector store hold what ingesting
  -- these contracts one after another makes of them.
  pub work-main :
      (es : List Entry) (now m : ℕ) (s : Store)
      → (driven redis codec dict.write md5_hexdigest sha1_hexdigest es now s).0 ≡ ok (finished m)
      → (w : Text) (turns : List Turn) (start : ℕ) (st : State Store P (World store))
      → st.store ≡ (driven redis codec dict.write md5_hexdigest sha1_hexdigest es now s).1
      → entries s (worker_queue_key w) ≡ []
      → length es ≤ cycles turns
      → IsValid st.world.vectors
      → (m ≡ length es)
        × ((s' : Store) × (world : World store) × (work store dict attempt redis codec turns w start
                st
              ≡ (
                ok tt,
                record {
                  store = s';
                  world = world;
                  log =
                      st.log
                      ++ map
                          (λ c. done (task_of dict.write c))
                          (own redis codec dict.write md5_hexdigest sha1_hexdigest es now s w);
                },
              ))
            × (entries s' (worker_queue_key w) ≡ [])
            × (world.tables
                ≡ all_tables store attempt
                    (own redis codec dict.write md5_hexdigest sha1_hexdigest es now s w)
                    st.world.tables)
            × (contents world.vectors
                ≡ all_vectors store vector
                    (own redis codec dict.write md5_hexdigest sha1_hexdigest es now s w)
                    (contents st.world.vectors)))
  unfolding work ingest_worker
  work-main es now m s h w turns start st after blank enough v =
      let contracts = (parse_entries sha1_hexdigest es).0 in
      let cs = own redis codec dict.write md5_hexdigest sha1_hexdigest es now s w in
      let (count, ended, _) =
        queue_after_main contracts (parse_entries sha1_hexdigest es).1 now m s w h in
      let (parsed, how) = parse_entries-IsYielded sha1_hexdigest es in
      let all : length contracts ≡ length es = elim how [
        | inl (_, n) ↦ n
        | inr (missing, _) ↦ cc
      ] in
      let worker = ingest_worker store dict attempt w in
      let few : length (map (task_of dict.write) cs) ≤ cycles turns =
        omega (arith, length-map (task_of dict.write) cs, length-keep _ contracts) in
      let (s', ran, left, _) =
        run-loop_drains redis codec worker turns start st (map (task_of dict.write) cs)
          (ap (λ x. entries x (worker_queue_key w)) after ∙ queue_own es now m s w h blank) few in
      let (reports, tables, valid, vectors) =
        handled_in_order store dict vector attempt smooth fitting sha1_hexdigest w cs st.world v
          (All-keep _ _ contracts parsed) in
      (
        omega arith,
        (
          s',
          (handle_all worker (map (task_of dict.write) cs) st.world).1,
          ran
              ∙ ap
                  (λ l. (
                    ok tt,
                    record {
                      store = s';
                      world = (handle_all worker (map (task_of dict.write) cs) st.world).1;
                      log = st.log ++ l;
                    },
                  ))
                  reports,
          left,
          tables,
          vectors,
        ),
      )
