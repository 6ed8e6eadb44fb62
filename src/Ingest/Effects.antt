-- ===== src/Ingest/Effects.antt =====
-- What an attempt leaves behind, wherever it ends.
use legallens.Prelude.{
  is_empty_sound, ◌≡◌, ◌⊎◌, refl, ap, sym, ◌∙◌, subst, inl, inr, List, [], ◌∷◌, Text, text_eq,
  Option, Outcome, ok, bind_inv, arith, length, is_empty, Outcome-cases, Bool-cases, IsDistinct,
}
use legallens.Prelude.Dict.{insert}
use legallens.Prelude.Upserts.{put_all}
use legallens.Parser.{ParsedClause}
use legallens.Parser.Contracts.{ids}
use legallens.Database.{Tables, ClauseKey, ClauseColumns, key_eq, clause_change, apply, execute}
use legallens.Database.Sessions.{execute_effect, session_cases}
use legallens.VectorStore.{VectorRecord}
use legallens.VectorStore.Interface.{VectorStore, Fit, record_ids, insert_all}
use legallens.Ingest.{
  Payload, Ingested, Attempt, World, texts_of, records_of, insert_contract, insert_clauses, finish,
  after_upsert, after_embed, after_contract, handle_ingest_contract,
}

module _ {Vec : Type 0} (a : Attempt Vec) (payload : Payload) where
  -- The statement of the first session.
  abbrev pub with_contract : Tables → Tables
  with_contract t = record t {
    contracts =
        insert payload.contract_id (record { filename = payload.filename; ingested_at = a.sql_now })
          t.contracts;
  }

  abbrev pub clause_changes :
      List ParsedClause → List (ClauseKey × (Option ClauseColumns → ClauseColumns))
  clause_changes [] = []
  clause_changes (c ∷ cs) =
      ((payload.contract_id, c.clause_id), clause_change c.clause_id c.category c.text a.now)
      ∷ clause_changes cs

  -- The statements of the second session.
  abbrev pub with_clauses : List ParsedClause → Tables → Tables
  with_clauses cs t = record t { clauses = put_all (clause_changes cs) t.clauses }

  insert_contract_effect :
      (t : Tables) (r : Unit {0} × Tables)
      → insert_contract a payload t ≡ ok r
      → r.1 ≡ with_contract t
  unfolding insert_contract apply
  insert_contract_effect t r h =
      let (s, done, last) = bind_inv (execute a.server _ t) _ r h in
      let e : s.1 ≡ r.1 = cc in sym e ∙ execute_effect a.server _ t s done

  insert_clauses_effect :
      (cs : List ParsedClause) (t : Tables) (r : Unit {0} × Tables)
      → insert_clauses a payload.contract_id cs t ≡ ok r
      → r.1 ≡ with_clauses cs t
  unfolding insert_clauses apply put_all
  insert_clauses_effect [] t r h = cc
  insert_clauses_effect (c ∷ cs) t r h =
      let (s, done, rest) = bind_inv (execute a.server _ t) _ r h in
      insert_clauses_effect cs s.1 r rest
      ∙ ap (with_clauses cs) (execute_effect a.server _ t s done)

module _ {Vec Row : Type 0} (store : VectorStore Vec Row Text) (a : Attempt Vec)
    (payload : Payload) where
  open store use {Store, IsValid, fits, to_row, contents, upsert, upsert-contents}

  -- What the documentation of the embedders says: a vector of the index's dimension for each text.
  abbrev pub EmbedsAll : Type 0
  EmbedsAll =
      (vectors : List Vec)
      → a.embed (texts_of payload.clauses) ≡ ok vectors
      → (length vectors ≡ length payload.clauses)
        × Fit fits (records_of payload.contract_id payload.clauses vectors)

  abbrev pub records : List Vec → List (VectorRecord Vec Text)
  records vectors = records_of payload.contract_id payload.clauses vectors

  -- The vector store is as before, or it holds the vectors of the clauses.
  abbrev pub Stored : Store → Store → Type 0
  Stored s s' =
      (s' ≡ s)
      ⊎ ((vectors : List Vec) × (a.embed (texts_of payload.clauses) ≡ ok vectors)
          × (contents s' ≡ insert_all to_row (records vectors) (contents s)))

  -- The tables after a whole attempt.
  abbrev pub ingested_tables : Tables → Tables
  ingested_tables t = with_clauses a payload payload.clauses (with_contract a payload t)

  -- The vectors after a whole attempt.
  abbrev pub HoldsVectors : Store → Store → Type 0
  HoldsVectors s s' =
      (vectors : List Vec) × ((payload.clauses ≡ [])
        ⊎ (a.embed (texts_of payload.clauses) ≡ ok vectors))
      × (contents s' ≡ insert_all to_row (records vectors) (contents s))

  pub record Effect (w : World store) (r : Outcome Ingested × World store) : Type 0 where
    pub tables_are :
        (r.1.tables ≡ w.tables)
        ⊎ ((r.1.tables ≡ with_contract a payload w.tables)
            ⊎ (r.1.tables ≡ ingested_tables w.tables))
    pub store_is : Stored w.vectors r.1.vectors
    pub valid : IsValid r.1.vectors
    pub completed :
        (i : Ingested)
        → r.0 ≡ ok i
        → (r.1.tables ≡ ingested_tables w.tables) × HoldsVectors w.vectors r.1.vectors

  upserted-Effect :
      (w : World store) (vectors : List Vec) (s : Store)
      → a.embed (texts_of payload.clauses) ≡ ok vectors
      → contents s ≡ insert_all to_row (records vectors) (contents w.vectors)
      → IsValid s
      → Effect w (after_upsert store a payload (with_contract a payload w.tables) (ok tt, s))
  unfolding after_upsert finish
  upserted-Effect w vectors s embedded held v =
      elim (session_cases a.server (insert_clauses a payload.contract_id payload.clauses)
        (with_contract a payload w.tables)) [
          | inl (e, failed) ↦ rw failed (record {
            tables_are = inr (inl refl);
            store_is = inr (vectors, embedded, held);
            valid = v;
            completed = λ i h. absurd (ground arith);
          })
          | inr (r, done, committed) ↦
              let e =
                insert_clauses_effect a payload payload.clauses (with_contract a payload w.tables) r
                  done in
              rw committed (record {
                tables_are = inr (inr e);
                store_is = inr (vectors, embedded, held);
                valid = v;
                completed = λ i h. (e, (vectors, inr embedded, held));
              })
        ]

  pub record_ids-records :
      (cs : List ParsedClause) (vectors : List Vec)
      → length vectors ≡ length cs
      → record_ids (records_of payload.contract_id cs vectors) ≡ ids cs
  unfolding records_of
  record_ids-records [] vectors n = refl
  record_ids-records (c ∷ cs) [] n = absurd (omega arith)
  record_ids-records (c ∷ cs) (v ∷ vectors) n =
      ap (◌∷◌ c.clause_id) (record_ids-records cs vectors (omega arith))

  embedded-Effect :
      (w : World store)
      → IsValid w.vectors
      → IsDistinct (ids payload.clauses)
      → EmbedsAll
      → Effect w (
          after_embed store a payload
            (record { tables = with_contract a payload w.tables; vectors = w.vectors })
            (a.embed (texts_of payload.clauses)))
  unfolding after_embed
  embedded-Effect w v u embeds = elim (Outcome-cases (a.embed (texts_of payload.clauses))) [
    | inl (vectors, embedded) ↦
        let (n, fit) = embeds vectors embedded in
        let (returned, v', held) =
          upsert-contents (records vectors) w.vectors v fit
            (subst IsDistinct (sym (record_ids-records payload.clauses vectors n)) u) in
        let e : upsert (records vectors) w.vectors
            ≡ (ok tt, (upsert (records vectors) w.vectors).1) =
          ap (λ o. (o, (upsert (records vectors) w.vectors).1)) returned in
        rw (embedded, e)
          (upserted-Effect w vectors (upsert (records vectors) w.vectors).1 embedded held v')
    | inr (e, failed) ↦ rw failed (record {
      tables_are = inr (inl refl);
      store_is = inl refl;
      valid = v;
      completed = λ i h. absurd (ground arith);
    })
  ]

  -- Nothing to embed: the first session was all.
  empty-Effect :
      (w : World store)
      → IsValid w.vectors
      → payload.clauses ≡ []
      → Effect w (
        ok (record { contract_id = payload.contract_id; n_clauses = 0 }),
        record { tables = with_contract a payload w.tables; vectors = w.vectors },
      )
  unfolding put_all records_of
  empty-Effect w v none_there = record {
    tables_are = inr (inl refl);
    store_is = inl refl;
    valid = v;
    completed = λ i h. (rw none_there refl, ([], inl none_there, rw none_there refl));
  }

  pub handle-Effect :
      (w : World store)
      → IsValid w.vectors
      → IsDistinct (ids payload.clauses)
      → EmbedsAll
      → Effect w (handle_ingest_contract store a payload w)
  unfolding handle_ingest_contract after_contract
  handle-Effect w v u embeds = elim (session_cases a.server (insert_contract a payload) w.tables) [
    | inl (e, failed) ↦ rw failed (record {
      tables_are = inl refl;
      store_is = inl refl;
      valid = v;
      completed = λ i h. absurd (ground arith);
    })
    | inr (r, done, committed) ↦
        rw (committed, insert_contract_effect a payload w.tables r done)
          (elim (Bool-cases (is_empty payload.clauses)) [
            | inl blank ↦ rw blank (empty-Effect w v (is_empty_sound payload.clauses blank))
            | inr full ↦ rw full (embedded-Effect w v u embeds)
          ])
  ]
