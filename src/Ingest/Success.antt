-- ===== src/Ingest/Success.antt =====
-- An attempt that meets no failure.
use legallens.Prelude.{
  suc, ◌≡◌, refl, ap, sym, ◌∙◌, subst, Bool-cases, inl, inr, true, List, [], ◌∷◌, map, Text,
  text_eq, none, Outcome, ok, length, length-map, is_empty, is_empty_sound, IsDistinct,
}
use legallens.Prelude.Dict.{Dict}
use legallens.Parser.{ParsedClause}
use legallens.Parser.Contracts.{ids}
use legallens.Database.{Tables, Statement, apply, select, execute, session}
use legallens.VectorStore.Interface.{VectorStore, Fit, insert_all}
use legallens.Ingest.{
  Payload, Ingested, Attempt, World, texts_of, records_of, insert_contract, insert_clauses, finish,
  after_upsert, after_embed, after_contract, handle_ingest_contract,
}
use legallens.Ingest.Effects.{
  record_ids-records, EmbedsAll, ingested_tables, HoldsVectors, handle-Effect,
}

-- The server refuses nothing, and the embedder answers with the vectors of the texts.
pub record IsSmooth {Vec : Type 0} (vector : Text → Vec) (a : Attempt Vec) : Type 0 where
  pub accepts : (s : Statement) → a.server.refuses s ≡ none
  pub commits : (t : Tables) → a.server.refuses_commit t ≡ none
  pub embeds : (texts : List Text) → a.embed texts ≡ ok (map vector texts)

module _ {Vec : Type 0} (vector : Text → Vec) (a : Attempt Vec) (smooth : IsSmooth vector a) where
  execute_accepted :
      (s : Statement) (t : Tables)
      → execute a.server s t ≡ ok (select a.server.collate s t, apply s t)
  unfolding execute
  execute_accepted s t = rw (smooth.accepts s, execute)

  session_accepted {ℓ} :
      {A : Type ℓ} (body : Tables → Outcome (A × Tables)) (t : Tables) (r : A × Tables)
      → body t ≡ ok r
      → session a.server body t ≡ (ok r.0, r.1)
  unfolding session
  session_accepted body t r h = rw (h, session, smooth.commits r.1)

  insert_contract_accepted :
      (payload : Payload) (t : Tables) → (t' : Tables) × (insert_contract a payload t ≡ ok (tt, t'))
  unfolding insert_contract
  insert_contract_accepted payload t =
      let s = Statement.upsert_contract payload.contract_id payload.filename a.sql_now in
      (apply s t, rw (execute_accepted s t))

  insert_clauses_accepted :
      (cid : Text) (cs : List ParsedClause) (t : Tables)
      → (t' : Tables) × (insert_clauses a cid cs t ≡ ok (tt, t'))
  unfolding insert_clauses
  insert_clauses_accepted cid [] t = (t, refl)
  insert_clauses_accepted cid (c ∷ cs) t =
      let s = Statement.upsert_clause cid c.clause_id c.category c.text a.now in
      let (t', done) = insert_clauses_accepted cid cs (apply s t) in
      (t', rw (execute_accepted s t, done))

abbrev pub answer : Payload → Ingested
answer payload = record { contract_id = payload.contract_id; n_clauses = length payload.clauses }

-- The vectors of the clauses, by their ids.
abbrev pub ingested_vectors :
    {Vec Row : Type 0} (store : VectorStore Vec Row Text)
    → (Text → Vec)
    → Payload
    → Dict Text (Row × Dict Text Text)
    → Dict Text (Row × Dict Text Text)
ingested_vectors store vector payload d =
    insert_all store.to_row
      (records_of payload.contract_id payload.clauses (map vector (texts_of payload.clauses))) d

module _ {Vec Row : Type 0} (store : VectorStore Vec Row Text) (vector : Text → Vec)
    (a : Attempt Vec) (smooth : IsSmooth vector a)
    (fitting : (text : Text) → store.fits (vector text) ≡ true) (payload : Payload) where
  open store use {Store, IsValid, fits, to_row, contents, upsert, upsert-contents}

  length-texts_of : (cs : List ParsedClause) → length (texts_of cs) ≡ length cs
  length-texts_of [] = refl
  length-texts_of (c ∷ cs) = ap suc (length-texts_of cs)

  records_of-Fit :
      (cid : Text) (cs : List ParsedClause)
      → Fit fits (records_of cid cs (map vector (texts_of cs)))
  unfolding records_of
  records_of-Fit cid [] = tt
  records_of-Fit cid (c ∷ cs) = (fitting c.text, records_of-Fit cid cs)

  smooth-EmbedsAll : EmbedsAll store a payload
  smooth-EmbedsAll vectors h =
      let texts = texts_of payload.clauses in
      let same : map vector texts ≡ vectors = cc (smooth.embeds texts) in
      subst
        (λ v.
          (length v ≡ length payload.clauses)
          × Fit fits (records_of payload.contract_id payload.clauses v))
        same
        (
          length-map vector texts ∙ length-texts_of payload.clauses,
          records_of-Fit payload.contract_id payload.clauses,
        )

  after_upsert_returns :
      (t : Tables) (s : Store) → (after_upsert store a payload t (ok tt, s)).0 ≡ ok (answer payload)
  unfolding after_upsert finish
  after_upsert_returns t s =
      let (t', done) =
        insert_clauses_accepted vector a smooth payload.contract_id payload.clauses t in
      rw (
        session_accepted vector a smooth (insert_clauses a payload.contract_id payload.clauses) t
          (tt, t') done)

  after_embed_returns :
      (w : World store)
      → IsValid w.vectors
      → IsDistinct (ids payload.clauses)
      → (after_embed store a payload w (ok (map vector (texts_of payload.clauses)))).0
        ≡ ok (answer payload)
  unfolding after_embed
  after_embed_returns w v u =
      let vectors = map vector (texts_of payload.clauses) in
      let records = records_of payload.contract_id payload.clauses vectors in
      let (n, fit) = smooth-EmbedsAll vectors (smooth.embeds (texts_of payload.clauses)) in
      let (returned, v', held) =
        upsert-contents records w.vectors v fit (
          subst IsDistinct (sym (record_ids-records store a payload payload.clauses vectors n))
            u) in
      let e : upsert records w.vectors ≡ (ok tt, (upsert records w.vectors).1) =
        ap (λ o. (o, (upsert records w.vectors).1)) returned in
      rw e (after_upsert_returns w.tables (upsert records w.vectors).1)

  -- Where the server refuses nothing and the embedder answers with vectors of the index's dimension,
  -- the handler of a task with distinct clauses returns, with the number of its clauses.
  handle_returns :
      (w : World store)
      → IsValid w.vectors
      → IsDistinct (ids payload.clauses)
      → (handle_ingest_contract store a payload w).0 ≡ ok (answer payload)
  unfolding handle_ingest_contract after_contract
  handle_returns w v u =
      let (t', done) = insert_contract_accepted vector a smooth payload w.tables in
      rw
        (
          session_accepted vector a smooth (insert_contract a payload) w.tables (tt, t') done,
          smooth.embeds (texts_of payload.clauses),
        )
        (elim (Bool-cases (is_empty payload.clauses)) [
          | inl blank ↦ rw blank (
              ap (λ n. ok (record { contract_id = payload.contract_id; n_clauses = n }))
                (sym (ap length (is_empty_sound payload.clauses blank))))
          | inr full ↦
              rw full (after_embed_returns (record { tables = t'; vectors = w.vectors }) v u)
        ])

  held_vectors :
      (s s' : Store)
      → HoldsVectors store a payload s s'
      → contents s' ≡ ingested_vectors store vector payload (contents s)
  unfolding records_of
  held_vectors s s' (vectors, inl blank, held) = rw blank (rw blank at held)
  held_vectors s s' (vectors, inr embedded, held) =
      let same : vectors ≡ map vector (texts_of payload.clauses) =
        cc (smooth.embeds (texts_of payload.clauses)) in
      rw (← same) held

  -- Where the server refuses nothing and the embedder answers with vectors of the index's dimension,
  -- the handler of a task with distinct clauses returns, with the number of its clauses; the contract
  -- and the clauses are then in the tables, and the vectors of the clauses are in the store.
  pub handle_ingests :
      (w : World store)
      → IsValid w.vectors
      → IsDistinct (ids payload.clauses)
      → ((handle_ingest_contract store a payload w).0 ≡ ok (answer payload))
        × ((handle_ingest_contract store a payload w).1.tables
            ≡ ingested_tables store a payload w.tables)
        × IsValid (handle_ingest_contract store a payload w).1.vectors
        × (contents (handle_ingest_contract store a payload w).1.vectors
            ≡ ingested_vectors store vector payload (contents w.vectors))
  handle_ingests w v u =
      let effect = handle-Effect store a payload w v u smooth-EmbedsAll in
      let (tables, held) = effect.completed (answer payload) (handle_returns w v u) in
      (
        handle_returns w v u,
        tables,
        effect.valid,
        held_vectors w.vectors (handle_ingest_contract store a payload w).1.vectors held,
      )
