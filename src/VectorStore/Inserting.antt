-- ===== src/VectorStore/Inserting.antt =====
-- The loop of an upsert, as insertions into the dict of the rows.
use mathlib.Core.List.{map-append, append_assoc}
use legallens.Prelude.{
  ℕ, ◌≡◌, refl, ap, sym, ◌∙◌, subst, inl, inr, true, false, List, [], ◌∷◌, ◌++◌, map, Text, text_eq,
  nat_eq, some, none, Outcome, ok, arith, set, length, length-set, length-append, length-map, All,
  All-append, contains, IsDistinct, ◌==◌, Option-cases,
}
use legallens.Prelude.Dict.{Dict, lookup}
use legallens.VectorStore.{
  VectorRecord, Entry, Numpy, Json, LocalNumpyIndex, entry_of, replace_at, upsert_each,
}
use legallens.VectorStore.Interface.{Fit, record_ids, inserted, insert_all}
use legallens.VectorStore.Positions.{
  place, rows, rows-set, rows-append, place-set, place-append, place-append_none, place-lt-length,
  set-append,
}

module _ {Vec Row Score Npy Value Doc : Type 0} (np : Numpy Vec Row Score Npy)
    (json : Json Value Doc) where
  -- What the loop has of the index: its own rows, and those still to be appended.
  abbrev pub all_rows :
      List Vec → List (Entry Value) → LocalNumpyIndex Row Value → Dict Text (Row × Dict Text Value)
  all_rows new_vecs new_entries index =
      rows (index.vectors ++ map np.to_row new_vecs) (index.manifest ++ new_entries)

  -- The end of the loop: nothing was raised, and the rows are those of `d`.
  pub record IsDone (r : Outcome (List Vec × List (Entry Value)) × LocalNumpyIndex Row Value)
      (d : Dict Text (Row × Dict Text Value)) : Type 0 where
    pub new_vecs : List Vec
    pub new_entries : List (Entry Value)
    pub returned : r.0 ≡ ok (new_vecs, new_entries)
    pub parallel : length r.1.vectors ≡ length r.1.manifest
    pub new_parallel : length new_vecs ≡ length new_entries
    pub fitting : All (λ v. np.fits v ≡ true) new_vecs
    pub same_rows : all_rows new_vecs new_entries r.1 ≡ d

  place-entry :
      (r : VectorRecord Vec Value) (ns : List (Entry Value)) (k : Text)
      → place k ns ≡ none
      → (k == r.id) ≡ false
      → place k (ns ++ entry_of r ∷ []) ≡ none
  unfolding entry_of
  place-entry r ns k h other = place-append_none ns (entry_of r ∷ []) k h (ground arith)

  contains-ne :
      (xs : List Text) (x k : Text)
      → contains xs x ≡ false
      → contains xs k ≡ true
      → (k == x) ≡ false
  contains-ne xs x k h g = ground arith

  pub parallel-append :
      (nv : List Vec) (ne : List (Entry Value)) (index : LocalNumpyIndex Row Value)
      → length index.vectors ≡ length index.manifest
      → length nv ≡ length ne
      → length (index.vectors ++ map np.to_row nv) ≡ length (index.manifest ++ ne)
  parallel-append nv ne index p q = omega (
    arith,
    length-append index.vectors (map np.to_row nv),
    length-append index.manifest ne,
    length-map np.to_row nv,
  )

  all_rows-append :
      (r : VectorRecord Vec Value) (nv : List Vec) (ne : List (Entry Value))
      (index : LocalNumpyIndex Row Value)
      → length index.vectors ≡ length index.manifest
      → length nv ≡ length ne
      → place r.id index.manifest ≡ none
      → place r.id ne ≡ none
      → all_rows (nv ++ r.values ∷ []) (ne ++ entry_of r ∷ []) index
        ≡ inserted np.to_row r (all_rows nv ne index)
  unfolding entry_of
  all_rows-append r nv ne index p q absent fresh =
      simp (map-append, ← append_assoc)
        (rows-append (index.vectors ++ map np.to_row nv) (index.manifest ++ ne) r.id
          (np.to_row r.values) (entry_of r) (parallel-append nv ne index p q)
          (place-append_none index.manifest ne r.id absent fresh) refl)

  abbrev replaced :
      ℕ → VectorRecord Vec Value → LocalNumpyIndex Row Value → LocalNumpyIndex Row Value
  replaced idx r index = record {
    vectors = set index.vectors idx (np.to_row r.values);
    manifest = set index.manifest idx (entry_of r);
  }

  all_rows-set :
      (r : VectorRecord Vec Value) (nv : List Vec) (ne : List (Entry Value))
      (index : LocalNumpyIndex Row Value) (idx : ℕ)
      → length index.vectors ≡ length index.manifest
      → length nv ≡ length ne
      → place r.id index.manifest ≡ some idx
      → all_rows nv ne (replaced idx r index) ≡ inserted np.to_row r (all_rows nv ne index)
  unfolding entry_of
  all_rows-set r nv ne index idx p q at =
      let below = place-lt-length index.manifest r.id idx at in
      rw
        (
          ← set-append index.vectors (map np.to_row nv) idx (np.to_row r.values) (omega arith),
          ← set-append index.manifest ne idx (entry_of r) below,
        )
        (rows-set (index.vectors ++ map np.to_row nv) (index.manifest ++ ne) r.id idx
          (np.to_row r.values) (entry_of r) (parallel-append nv ne index p q)
          (place-append index.manifest ne r.id idx at) refl)

  pub upsert_each_loop :
      (existing : Dict Text ℕ) (rs : List (VectorRecord Vec Value)) (new_vecs : List Vec)
      (new_entries : List (Entry Value)) (index : LocalNumpyIndex Row Value)
      → ((k : Text) → lookup k existing ≡ place k index.manifest)
      → length index.vectors ≡ length index.manifest
      → length new_vecs ≡ length new_entries
      → All (λ v. np.fits v ≡ true) new_vecs
      → Fit np.fits rs
      → IsDistinct (record_ids rs)
      → ((k : Text) → contains (record_ids rs) k ≡ true → place k new_entries ≡ none)
      → IsDone
          (upsert_each np json existing rs new_vecs new_entries index)
          (insert_all np.to_row rs (all_rows new_vecs new_entries index))
  unfolding upsert_each replace_at
  upsert_each_loop existing [] nv ne index known p q f fs u fresh = record {
    new_vecs = nv;
    new_entries = ne;
    returned = refl;
    parallel = p;
    new_parallel = q;
    fitting = f;
    same_rows = refl;
  }
  upsert_each_loop existing (r ∷ rs) nv ne index known p q f fs u fresh =
      elim (Option-cases (lookup r.id existing)) [
        | inl new ↦
            let absent : place r.id index.manifest ≡ none = sym (known r.id) ∙ new in
            rw (new, upsert_each)
              (subst (IsDone _)
                (ap (insert_all np.to_row rs)
                  (all_rows-append r nv ne index p q absent (fresh r.id (ground arith))))
                (upsert_each_loop existing rs (nv ++ r.values ∷ []) (ne ++ entry_of r ∷ []) index
                  known p
                  (omega
                    (arith, length-append nv (r.values ∷ []), length-append ne (entry_of r ∷ [])))
                  (All-append _ nv (r.values ∷ []) f (fs.0, tt)) fs.1 u.1
                  (λ k h.
                    place-entry r ne k (fresh k (ground arith))
                      (contains-ne (record_ids rs) r.id k u.0 h))))
        | inr (idx, old) ↦
            let at : place r.id index.manifest ≡ some idx = sym (known r.id) ∙ old in
            let row = np.to_row r.values in
            rw (old, upsert_each, np.assign_fits r.values fs.0)
              (subst (IsDone _)
                (ap (insert_all np.to_row rs) (all_rows-set r nv ne index idx p q at))
                (upsert_each_loop existing rs nv ne (replaced idx r index)
                  (λ k. known k ∙ sym (place-set index.manifest r.id idx (entry_of r) k at refl))
                  (omega (
                    arith,
                    length-set index.vectors idx row,
                    length-set index.manifest idx (entry_of r),
                  ))
                  q f fs.1 u.1 (λ k h. fresh k (ground arith))))
      ]
