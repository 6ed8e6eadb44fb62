-- ===== src/VectorStore/Reopen.antt =====
-- What the files of an index hold after several processes have written them: each process reads them
-- once, and then overwrites them whole.
use legallens.Prelude.{
  ◌≡◌, refl, ap, ◌∙◌, false, List, [], ◌∷◌, Text, text_eq, ok, contains, arith, IsDistinct,
}
use legallens.Prelude.Dict.{Dict, lookup, lookup-insert}
use legallens.VectorStore.{
  VectorRecord, Numpy, Json, Files, LocalNumpyIndex, entry_of, open_index, persist, upsert,
}
use legallens.VectorStore.Interface.{Fit, record_ids, inserted, insert_all}
use legallens.VectorStore.Rows.{IsValid, contents, upsert-contents}

module _ {Vec Row Score Npy Value Doc : Type 0} (np : Numpy Vec Row Score Npy)
    (json : Json Value Doc) where
  -- The files after upserts of other processes, each with the index that it has in memory.
  abbrev pub written :
      List (List (VectorRecord Vec Value) × LocalNumpyIndex Row Value)
      → Files Npy Doc
      → Files Npy Doc
  written [] files = files
  written ((records, index) ∷ others) files = written others (upsert np json records index files).2

  open_index-persist :
      (index : LocalNumpyIndex Row Value) → open_index np json (persist np json index) ≡ ok index
  unfolding open_index persist
  open_index-persist index = rw (np.load-save index.vectors, json.loads-dumps index.manifest)

  lookup-insert_all :
      (records : List (VectorRecord Vec Value)) (d : Dict Text (Row × Dict Text Value)) (k : Text)
      → contains (record_ids records) k ≡ false
      → lookup k (insert_all np.to_row records d) ≡ lookup k d
  lookup-insert_all [] d k h = refl
  lookup-insert_all (r ∷ rs) d k h =
      lookup-insert_all rs (inserted np.to_row r d) k (ground arith)
      ∙ ground (arith, lookup-insert k r.id (np.to_row r.values, (entry_of r).metadata) d)

  -- A process upserts records into its valid index, with vectors of its dimension and without an id
  -- that comes twice, after other processes have written the files. Whatever those upserted, an index
  -- that is opened then holds the rows that this process had in memory, with its own records inserted,
  -- and no others: an id that was not in its memory and is not among its records is gone.
  pub open_index-upsert :
      (others : List (List (VectorRecord Vec Value) × LocalNumpyIndex Row Value))
      (records : List (VectorRecord Vec Value)) (index : LocalNumpyIndex Row Value)
      (files : Files Npy Doc)
      → IsValid np json index
      → Fit np.fits records
      → IsDistinct (record_ids records)
      → (opened : LocalNumpyIndex Row Value) × (open_index np json
            (upsert np json records index (written others files)).2
          ≡ ok opened)
        × (contents np json opened ≡ insert_all np.to_row records (contents np json index))
        × ((k : Text)
            → contains (record_ids records) k ≡ false
            → lookup k (contents np json opened) ≡ lookup k (contents np json index))
  open_index-upsert others records index files v f u =
      let (new, e, _, same) = upsert-contents np json records index (written others files) v f u in
      (
        new,
        rw e (open_index-persist new),
        same,
        λ k h. ap (lookup k) same ∙ lookup-insert_all records (contents np json index) k h,
      )
