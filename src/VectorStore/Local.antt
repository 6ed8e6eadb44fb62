-- ===== src/VectorStore/Local.antt =====
-- `LocalNumpyIndex` with its files is a `VectorStore`.
use legallens.Prelude.{◌≡◌, refl, List, text_eq, Outcome, ok, IsDistinct}
use legallens.VectorStore.{VectorRecord, Numpy, Json, Files, LocalNumpyIndex, upsert}
use legallens.VectorStore.Interface.{VectorStore, Fit, record_ids, insert_all}
use legallens.VectorStore.Rows.{IsValid, contents, upsert-contents}

module _ {Vec Row Score Npy Value Doc : Type 0} (np : Numpy Vec Row Score Npy)
    (json : Json Value Doc) where
  abbrev pub upsert_local :
      List (VectorRecord Vec Value)
      → LocalNumpyIndex Row Value × Files Npy Doc
      → Outcome (Unit {0}) × (LocalNumpyIndex Row Value × Files Npy Doc)
  upsert_local records s =
      let (r, index, files) = upsert np json records s.0 s.1 in (r, (index, files))

  pub upsert_local-contents :
      (records : List (VectorRecord Vec Value)) (s : LocalNumpyIndex Row Value × Files Npy Doc)
      → IsValid np json s.0
      → Fit np.fits records
      → IsDistinct (record_ids records)
      → ((upsert_local records s).0 ≡ ok tt)
        × IsValid np json (upsert_local records s).1.0
        × (contents np json (upsert_local records s).1.0
            ≡ insert_all np.to_row records (contents np json s.0))
  upsert_local-contents records s v f u =
      let (new, e, valid, same) = upsert-contents np json records s.0 s.1 v f u in
      rw e (refl, valid, same)

  abbrev pub local_store : VectorStore Vec Row Value
  local_store = record {
    Store = LocalNumpyIndex Row Value × Files Npy Doc;
    IsValid = λ s. IsValid np json s.0;
    fits = np.fits;
    to_row = np.to_row;
    contents = λ s. contents np json s.0;
    upsert = upsert_local;
    upsert-contents = upsert_local-contents;
  }
