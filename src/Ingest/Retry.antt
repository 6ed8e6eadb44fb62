-- ===== src/Ingest/Retry.antt =====
-- A task that is retried: the attempt that succeeds leaves the same, whatever the one before it did.
use legallens.Prelude.{
  ℕ, ◌≡◌, ◌⊎◌, refl, ap, sym, ◌∙◌, subst, inl, inr, List, [], ◌∷◌, Text, text_eq, Option, some,
  none, ok, arith, contains, IsDistinct,
}
use legallens.Prelude.Upserts.{Overrides, change_keys, insert-insert, put_all_twice}
use legallens.Parser.{ParsedClause}
use legallens.Parser.Contracts.{ids}
use legallens.Database.{Tables, ClauseColumns, key_eq, clause_change}
use legallens.VectorStore.Interface.{VectorStore, record_ids, insert_all, insert_all_twice}
use legallens.Ingest.{
  Payload, Ingested, Attempt, World, texts_of, records_of, handle_ingest_contract,
}
use legallens.Ingest.Effects.{
  with_contract, with_clauses, clause_changes, ingested_tables, HoldsVectors, EmbedsAll, Stored,
  handle-Effect, record_ids-records, records,
}

contains-change_keys :
    {Vec : Type 0} (a : Attempt Vec) (payload : Payload) (cs : List ParsedClause) (clause_id : Text)
    → contains (change_keys (clause_changes a payload cs)) (payload.contract_id, clause_id)
      ≡ contains (ids cs) clause_id
contains-change_keys a payload [] clause_id = refl
contains-change_keys a payload (c ∷ cs) clause_id =
    ground (arith, contains-change_keys a payload cs clause_id)

change_keys-IsDistinct :
    {Vec : Type 0} (a : Attempt Vec) (payload : Payload) (cs : List ParsedClause)
    → IsDistinct (ids cs)
    → IsDistinct (change_keys (clause_changes a payload cs))
change_keys-IsDistinct a payload [] u = tt
change_keys-IsDistinct a payload (c ∷ cs) u =
    (contains-change_keys a payload cs c.clause_id ∙ u.0, change_keys-IsDistinct a payload cs u.1)

clause_change_twice :
    (clause_id category text : Text) (before now : ℕ) (o : Option ClauseColumns)
    → clause_change clause_id category text now
        (some (clause_change clause_id category text before o))
      ≡ clause_change clause_id category text now o
unfolding clause_change
clause_change_twice clause_id category text before now none = refl
clause_change_twice clause_id category text before now (some row) = refl

module _ {Vec : Type 0} (a b : Attempt Vec) (payload : Payload) where
  clause_changes-Overrides :
      (cs : List ParsedClause)
      → Overrides (clause_changes a payload cs) (clause_changes b payload cs)
  clause_changes-Overrides [] = tt
  clause_changes-Overrides (c ∷ cs) = (
    refl,
    clause_change_twice c.clause_id c.category c.text a.now b.now,
    clause_changes-Overrides cs,
  )

  -- A second attempt's rows replace those of the first.
  with_clauses_twice :
      (t : Tables)
      → IsDistinct (ids payload.clauses)
      → with_clauses b payload payload.clauses (with_clauses a payload payload.clauses t)
        ≡ with_clauses b payload payload.clauses t
  with_clauses_twice t u =
      ap (λ rows. record t { clauses = rows })
        (put_all_twice (clause_changes a payload payload.clauses)
          (clause_changes b payload payload.clauses) t.clauses
          (clause_changes-Overrides payload.clauses)
          (change_keys-IsDistinct a payload payload.clauses u))

  with_contract_twice :
      (t : Tables) → with_contract b payload (with_contract a payload t) ≡ with_contract b payload t
  with_contract_twice t =
      ap (λ rows. record t { contracts = rows })
        (insert-insert payload.contract_id
          (record { filename = payload.filename; ingested_at = b.sql_now })
          (record { filename = payload.filename; ingested_at = a.sql_now }) t.contracts)

module _ {Vec Row : Type 0} (store : VectorStore Vec Row Text) (a b : Attempt Vec)
    (payload : Payload) where
  open store use {IsValid, to_row, contents}

  ingested_tables_twice :
      (t t' : Tables)
      → IsDistinct (ids payload.clauses)
      → (t' ≡ t) ⊎ ((t' ≡ with_contract a payload t) ⊎ (t' ≡ ingested_tables store a payload t))
      → ingested_tables store b payload t' ≡ ingested_tables store b payload t
  ingested_tables_twice t t' u (inl e) = ap (ingested_tables store b payload) e
  ingested_tables_twice t t' u (inr (inl e)) =
      ap (ingested_tables store b payload) e
      ∙ ap (with_clauses b payload payload.clauses) (with_contract_twice a b payload t)
  ingested_tables_twice t t' u (inr (inr e)) =
      ap (ingested_tables store b payload) e
      ∙ with_clauses_twice a b payload (with_contract b payload (with_contract a payload t)) u
      ∙ ap (with_clauses b payload payload.clauses) (with_contract_twice a b payload t)

  record_ids-held :
      (vectors : List Vec)
      → EmbedsAll store b payload
      → (payload.clauses ≡ []) ⊎ (b.embed (texts_of payload.clauses) ≡ ok vectors)
      → record_ids (records store b payload vectors) ≡ ids payload.clauses
  unfolding records_of
  record_ids-held vectors embeds (inl none_there) = rw none_there refl
  record_ids-held vectors embeds (inr embedded) =
      record_ids-records store b payload payload.clauses vectors (embeds vectors embedded).0

  HoldsVectors-twice :
      (s s' s'' : store.Store)
      → IsDistinct (ids payload.clauses)
      → EmbedsAll store a payload
      → EmbedsAll store b payload
      → Stored store a payload s s'
      → HoldsVectors store b payload s' s''
      → HoldsVectors store b payload s s''
  HoldsVectors-twice s s' s'' u embeds embeds' (inl e) (vectors, how, held) = (
    vectors,
    how,
    held ∙ ap (λ c. insert_all to_row (records store b payload vectors) (contents c)) e,
  )
  HoldsVectors-twice s s' s'' u embeds embeds' (inr (before, embedded, old)) (vectors, how, held) =
      let ids_before =
        record_ids-records store a payload payload.clauses before (embeds before embedded).0 in
      (
        vectors,
        how,
        held
            ∙ ap (insert_all to_row (records store b payload vectors)) old
            ∙ insert_all_twice to_row (records store a payload before)
                (records store b payload vectors) (contents s)
                (ids_before ∙ sym (record_ids-held vectors embeds' how))
                (subst IsDistinct (sym ids_before) u),
      )

  -- However far a first attempt at a task came, an attempt after it that succeeds leaves the tables
  -- and the vectors as it would have left them alone: the contract's row and the rows and vectors of all
  -- clauses are written once, if the clauses have distinct ids and the embedder gives a vector that fits
  -- for each text.
  pub handle-handle :
      (w : World store) (i : Ingested)
      → IsValid w.vectors
      → IsDistinct (ids payload.clauses)
      → EmbedsAll store a payload
      → EmbedsAll store b payload
      → (handle_ingest_contract store b payload (handle_ingest_contract store a payload w).1).0
        ≡ ok i
      → ((handle_ingest_contract store b payload
            (handle_ingest_contract store a payload w).1).1.tables
          ≡ ingested_tables store b payload w.tables)
        × HoldsVectors store b payload w.vectors
            (handle_ingest_contract store b payload
              (handle_ingest_contract store a payload w).1).1.vectors
  handle-handle w i v u embeds embeds' h =
      let first = handle-Effect store a payload w v u embeds in
      let w' = (handle_ingest_contract store a payload w).1 in
      let (tables_are, held) =
        (handle-Effect store b payload w' first.valid u embeds').completed i h in
      (
        tables_are ∙ ingested_tables_twice w.tables w'.tables u first.tables_are,
        HoldsVectors-twice w.vectors w'.vectors _ u embeds embeds' first.store_is held,
      )
