-- ===== src/VectorStore/Rows.antt =====
-- An upsert, as insertions into the dict of the rows.
use mathlib.Core.List.{append-nil}
use legallens.Prelude.{
  ◌≡◌, refl, ap, subst, true, List, [], ◌∷◌, ◌++◌, map, Text, text_eq, nat_eq, Outcome, ok, arith,
  length, All, IsDistinct,
}
use legallens.Prelude.Dict.{Dict, NodupKeys}
use legallens.VectorStore.{
  VectorRecord, Entry, Numpy, Json, Files, LocalNumpyIndex, ids_existing, append_new, persist,
  upsert, extend, conclude,
}
use legallens.VectorStore.Interface.{Fit, record_ids, insert_all, insert_all-NodupKeys}
use legallens.VectorStore.Inserting.{all_rows, IsDone, parallel-append, upsert_each_loop}
use legallens.VectorStore.Positions.{rows, lookup-ids_existing_all, NodupIds-rows}

module _ {Vec Row Score Npy Value Doc : Type 0} (np : Numpy Vec Row Score Npy)
    (json : Json Value Doc) where
  abbrev pub contents : LocalNumpyIndex Row Value → Dict Text (Row × Dict Text Value)
  contents index = rows index.vectors index.manifest

  -- A row for each line of the manifest, and each id once.
  pub record IsValid (index : LocalNumpyIndex Row Value) : Type 0 where
    pub parallel : length index.vectors ≡ length index.manifest
    pub nodup : NodupKeys (contents index)

  abbrev appended :
      List Vec → List (Entry Value) → LocalNumpyIndex Row Value → LocalNumpyIndex Row Value
  appended nv ne index = record {
    vectors = index.vectors ++ map np.to_row nv;
    manifest = index.manifest ++ ne;
  }

  append_new_lem :
      (nv : List Vec) (ne : List (Entry Value)) (index : LocalNumpyIndex Row Value)
      → length nv ≡ length ne
      → All (λ v. np.fits v ≡ true) nv
      → append_new np json nv ne index ≡ (ok tt, appended nv ne index)
  unfolding append_new
  append_new_lem [] [] index q f = simp append-nil
  append_new_lem [] (m ∷ ne) index q f = absurd (omega arith)
  append_new_lem (v ∷ nv) ne index q f = rw (np.stack_fits (v ∷ nv) f, append_new)

  finished :
      (r : Outcome (List Vec × List (Entry Value)) × LocalNumpyIndex Row Value)
      (d : Dict Text (Row × Dict Text Value)) (files : Files Npy Doc)
      → IsDone np json r d
      → NodupKeys d
      → (index : LocalNumpyIndex Row Value) × (conclude np json files (extend np json r)
          ≡ (ok tt, index, persist np json index))
        × IsValid index
        × (contents index ≡ d)
  unfolding conclude extend
  finished r d files done u =
      let whole = appended done.new_vecs done.new_entries r.1 in
      let e : r ≡ (ok (done.new_vecs, done.new_entries), r.1) = ap (λ o. (o, r.1)) done.returned in
      (
        whole,
        rw (e, append_new_lem done.new_vecs done.new_entries r.1 done.new_parallel done.fitting),
        record {
          parallel =
              parallel-append np json done.new_vecs done.new_entries r.1 done.parallel
                done.new_parallel;
          nodup = rw done.same_rows u;
        },
        done.same_rows,
      )

  -- On a valid index, with vectors of its dimension and without an id that comes twice, `upsert`
  -- returns, its rows are those from before with the records inserted one after another, the index is
  -- valid again, and the files hold it.
  pub upsert-contents :
      (records : List (VectorRecord Vec Value)) (index : LocalNumpyIndex Row Value)
      (files : Files Npy Doc)
      → IsValid index
      → Fit np.fits records
      → IsDistinct (record_ids records)
      → (new : LocalNumpyIndex Row Value) × (upsert np json records index files
          ≡ (ok tt, new, persist np json new))
        × IsValid new
        × (contents new ≡ insert_all np.to_row records (contents index))
  unfolding upsert
  upsert-contents records index files v fs u =
      let known = λ (k : Text).
        lookup-ids_existing_all index.manifest k
          (NodupIds-rows index.vectors index.manifest v.parallel v.nodup) in
      let all : all_rows np json [] [] index ≡ contents index = simp append-nil in
      finished _ _ files
        (subst (IsDone np json _) (ap (insert_all np.to_row records) all) (
          upsert_each_loop np json (ids_existing 0 index.manifest []) records [] [] index known
            v.parallel refl tt fs u (λ k _. refl)))
        (insert_all-NodupKeys np.to_row records (contents index) v.nodup)
