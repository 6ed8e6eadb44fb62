-- ===== src/Pipeline/Handled.antt =====
-- A worker on the tasks of contracts, where nothing fails.
use legallens.Prelude.{
  ℕ, ◌≡◌, refl, ap, sym, ◌∙◌, subst, true, List, [], ◌∷◌, map, Text, text_eq, nat_eq, ok, All,
}
use legallens.Prelude.Dict.{lookup, insert}
use legallens.Parser.{ParsedContract}
use legallens.Parser.Contracts.{IsParsed}
use legallens.Dispatcher.{Task}
use legallens.Worker.{Worker, done, handle}
use legallens.Worker.Served.{handle_all, handle_done}
use legallens.VectorStore.Interface.{VectorStore}
use legallens.Ingest.{Payload, Ingested, Attempt, World, handle_ingest_contract}
use legallens.Ingest.Success.{IsSmooth, answer, handle_ingests}
use legallens.Ingest.Process.{PayloadDict, ingest_handler, ingest_worker, ingest_handler-write}
use legallens.Driver.{task_of}
use legallens.Pipeline.{payload_of, all_tables, all_vectors}

module _ {Vec Row P : Type 0} (store : VectorStore Vec Row Text) (dict : PayloadDict P)
    (vector : Text → Vec) (attempt : Payload → Attempt Vec)
    (smooth : (p : Payload) → IsSmooth vector (attempt p))
    (fitting : (text : Text) → store.fits (vector text) ≡ true) (sha1_hexdigest : List ℕ → Text)
    (worker_id : Text) where
  open store use {IsValid, contents}

  abbrev task : ParsedContract → Task P
  task = task_of dict.write

  -- The handler is found, and has its way.
  handled_one :
      (c : ParsedContract) (w : World store) (i : Ingested)
      → (handle_ingest_contract store (attempt (payload_of c)) (payload_of c) w).0 ≡ ok i
      → handle (ingest_worker store dict attempt worker_id) (task c) w ≡ (
        done (task c),
        (handle_ingest_contract store (attempt (payload_of c)) (payload_of c) w).1,
      )
  unfolding ingest_worker lookup insert text_eq nat_eq task_of
  handled_one c w i h =
      handle_done (ingest_worker store dict attempt worker_id) (task c)
        (ingest_handler store dict attempt) w _ refl
        (ingest_handler-write store dict attempt (task c) (payload_of c) w i refl h)

  abbrev worker : Worker P (World store)
  worker = ingest_worker store dict attempt worker_id

  -- Every task is done, and the rows and the vectors of its contract are there, one after another.
  pub handled_in_order :
      (cs : List ParsedContract) (w : World store)
      → IsValid w.vectors
      → All (IsParsed sha1_hexdigest) cs
      → ((handle_all worker (map task cs) w).0 ≡ map (λ c. done (task c)) cs)
        × ((handle_all worker (map task cs) w).1.tables ≡ all_tables store attempt cs w.tables)
        × IsValid (handle_all worker (map task cs) w).1.vectors
        × (contents (handle_all worker (map task cs) w).1.vectors
            ≡ all_vectors store vector cs (contents w.vectors))
  handled_in_order [] w v all = (refl, refl, v, refl)
  handled_in_order (c ∷ cs) w v all =
      let payload = payload_of c in
      let a = attempt payload in
      let (returned, tables, valid, vectors) =
        handle_ingests store vector a (smooth payload) fitting payload w v all.0.2 in
      let w' = (handle_ingest_contract store a payload w).1 in
      let e : handle_all worker (map task (c ∷ cs)) w ≡ (
        done (task c) ∷ (handle_all worker (map task cs) w').0,
        (handle_all worker (map task cs) w').1,
      ) =
        ap
          (λ r. (
            r.0 ∷ (handle_all worker (map task cs) r.1).0,
            (handle_all worker (map task cs) r.1).1,
          ))
          (handled_one c w (answer payload) returned) in
      let (reports, tables', valid', vectors') = handled_in_order cs w' valid all.1 in
      (
        ap (λ r. r.0) e ∙ ap (◌∷◌ (done (task c))) reports,
        ap (λ r. r.1.tables) e ∙ tables' ∙ ap (all_tables store attempt cs) tables,
        subst (λ r. IsValid r.1.vectors) (sym e) valid',
        ap (λ r. contents r.1.vectors) e ∙ vectors' ∙ ap (all_vectors store vector cs) vectors,
      )
