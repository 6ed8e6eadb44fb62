-- ===== src/VectorStore.antt =====
-- ingestion/pinecone_writer.py: the records that a vector store takes and the matches that it gives,
-- and `LocalNumpyIndex`, the store in two files. numpy and `json` are parameters.
pub mod Interface
pub mod Pinecone
pub mod Query
pub mod Positions
pub mod Inserting
pub mod Rows
pub mod Scan
pub mod Ranking
pub mod Reopen
pub mod Local
pub mod Samples
mod Tests
use legallens.Prelude.{
  ℕ, zero, suc, ◌≡◌, Bool, true, false, ◌&&◌, List, [], ◌∷◌, ◌++◌, map, Text, text_eq, Option, some,
  none, Outcome, ok, raise, ◌>>=◌, get_at, All, set, take, length, is_empty, Eq, ◌==◌, range_from,
  if◌then◌else◌,
}
use legallens.Prelude.Dict.{Dict, lookup, insert}
use legallens.Prelude.Sorting.{sorted}

-- {'id': str, 'values': [float], 'metadata': {...}}, where the metadata may be missing
pub record VectorRecord (Vec Value : Type 0) : Type 0 where
  pub id : Text
  pub values : Vec
  pub metadata : Option (Dict Text Value)

-- {'id', 'score', 'metadata'}
pub record Match (Score Value : Type 0) : Type 0 where
  pub id : Text
  pub score : Score
  pub metadata : Dict Text Value

-- A line of the manifest.
pub record Entry (Value : Type 0) : Type 0 where
  pub id : Text
  pub metadata : Dict Text Value

-- What the program relies on of numpy. A vector that has the index's dimension fits; `Npy` is what a
-- file of an array holds.
pub record Numpy (Vec Row Score Npy : Type 0) : Type 0 where
  -- The row that `vectors[idx] = np.array(vec, dtype="float32")` writes.
  pub assign : Vec → Outcome Row
  -- The rows that `np.concatenate` puts behind the others.
  pub stack : List Vec → Outcome (List Row)
  -- `vectors @ np.array(vector, dtype="float32")`
  pub matmul : List Row → Vec → Outcome (List Score)
  pub save : List Row → Npy
  pub load : Npy → Outcome (List Row)
  -- `-a <= -b`
  pub higher : Score → Score → Bool
  pub fits : Vec → Bool
  pub to_row : Vec → Row
  pub dot : Row → Vec → Score
  pub assign_fits : (v : Vec) → fits v ≡ true → assign v ≡ ok (to_row v)
  pub stack_fits : (vs : List Vec) → All (λ v. fits v ≡ true) vs → stack vs ≡ ok (map to_row vs)
  pub matmul_fits :
      (rows : List Row) (v : Vec) → fits v ≡ true → matmul rows v ≡ ok (map (λ r. dot r v) rows)
  pub load-save : (rows : List Row) → load (save rows) ≡ ok rows

-- What the program relies on of `json`, for the manifest. `Doc` is what a file of JSON holds.
pub record Json (Value Doc : Type 0) : Type 0 where
  pub dumps : List (Entry Value) → Doc
  pub loads : Doc → Outcome (List (Entry Value))
  pub loads-dumps : (entries : List (Entry Value)) → loads (dumps entries) ≡ ok entries

-- vectors.npy and manifest.json; none where there is no such file.
pub record Files (Npy Doc : Type 0) : Type 0 where
  pub vectors : Option Npy
  pub manifest : Option Doc

pub record LocalNumpyIndex (Row Value : Type 0) : Type 0 where
  pub vectors : List Row
  pub manifest : List (Entry Value)

-- `{m["id"]: i for i, m in enumerate(manifest)}`, from the number `i` on.
unfoldable pub ids_existing : {Value : Type 0} → ℕ → List (Entry Value) → Dict Text ℕ → Dict Text ℕ
ids_existing i [] d = d
ids_existing i (m ∷ ms) d = ids_existing (suc i) ms (insert m.id i d)

-- {"id": r["id"], "metadata": r.get("metadata", {})}
unfoldable pub entry_of : {Vec Value : Type 0} → VectorRecord Vec Value → Entry Value
entry_of r = record { id = r.id; metadata = elim r.metadata [ none ↦ [] | some m ↦ m ] }

module _ {Vec Row Score Npy Value Doc : Type 0} (np : Numpy Vec Row Score Npy)
    (json : Json Value Doc) where
  open np use {assign, stack, matmul, save, load, higher}
  open json use {dumps, loads}

  -- `__init__`
  unfoldable pub open_index : Files Npy Doc → Outcome (LocalNumpyIndex Row Value)
  open_index files = elim files.vectors [
    | none ↦ ok (record { vectors = []; manifest = [] })
    | some npy ↦ elim files.manifest [
      | none ↦ ok (record { vectors = []; manifest = [] })
      | some text ↦ load npy >>= (λ vectors.
          loads text >>= (λ manifest. ok (record { vectors = vectors; manifest = manifest })))
    ]
  ]

  -- `_persist`
  unfoldable pub persist : LocalNumpyIndex Row Value → Files Npy Doc
  persist index = record {
    vectors = some (save index.vectors);
    manifest = some (dumps index.manifest);
  }

  -- A record whose id is there: its row and its entry are replaced, the row first.
  unfoldable pub replace_at :
      ℕ
      → VectorRecord Vec Value
      → LocalNumpyIndex Row Value
      → Outcome Row
      → Outcome (Unit {0}) × LocalNumpyIndex Row Value
  replace_at idx r index (raise e) = (raise e, index)
  replace_at idx r index (ok row) = (
    ok tt,
    record { vectors = set index.vectors idx row; manifest = set index.manifest idx (entry_of r) },
  )

  abbrev pub next {ℓ} :
      {A : Type ℓ}
      → Outcome (Unit {0}) × LocalNumpyIndex Row Value
      → (LocalNumpyIndex Row Value → Outcome A × LocalNumpyIndex Row Value)
      → Outcome A × LocalNumpyIndex Row Value
  next (raise e, index) k = (raise e, index)
  next (ok _, index) k = k index

  -- The loop over the records, with `new_vecs` and `new_entries`.
  unfoldable pub upsert_each :
      Dict Text ℕ
      → List (VectorRecord Vec Value)
      → List Vec
      → List (Entry Value)
      → LocalNumpyIndex Row Value
      → Outcome (List Vec × List (Entry Value)) × LocalNumpyIndex Row Value
  unfolding replace_at entry_of
  upsert_each existing [] new_vecs new_entries index = (ok (new_vecs, new_entries), index)
  upsert_each existing (r ∷ rs) new_vecs new_entries index = elim (lookup r.id existing) [
    | some idx ↦
        next (replace_at idx r index (assign r.values))
          (upsert_each existing rs new_vecs new_entries)
    | none ↦
        upsert_each existing rs (new_vecs ++ r.values ∷ []) (new_entries ++ entry_of r ∷ []) index
  ]

  -- `if new_vecs: ...`
  unfoldable pub append_new :
      List Vec
      → List (Entry Value)
      → LocalNumpyIndex Row Value
      → Outcome (Unit {0}) × LocalNumpyIndex Row Value
  append_new [] new_entries index = (ok tt, index)
  append_new (v ∷ vs) new_entries index = elim (stack (v ∷ vs)) [
    | raise e ↦ (raise e, index)
    | ok block ↦ (
      ok tt,
      record { vectors = index.vectors ++ block; manifest = index.manifest ++ new_entries },
    )
  ]

  extend :
      Outcome (List Vec × List (Entry Value)) × LocalNumpyIndex Row Value
      → Outcome (Unit {0}) × LocalNumpyIndex Row Value
  unfolding append_new
  extend (raise e, index) = (raise e, index)
  extend (ok (new_vecs, new_entries), index) = append_new new_vecs new_entries index

  -- The files are written at the end, if nothing was raised.
  conclude :
      Files Npy Doc
      → Outcome (Unit {0}) × LocalNumpyIndex Row Value
      → Outcome (Unit {0}) × LocalNumpyIndex Row Value × Files Npy Doc
  unfolding persist
  conclude files (raise e, index) = (raise e, index, files)
  conclude files (ok _, index) = (ok tt, index, persist index)

  unfoldable pub upsert :
      List (VectorRecord Vec Value)
      → LocalNumpyIndex Row Value
      → Files Npy Doc
      → Outcome (Unit {0}) × LocalNumpyIndex Row Value × Files Npy Doc
  unfolding ids_existing upsert_each extend conclude
  upsert records index files =
      conclude files (extend (upsert_each (ids_existing 0 index.manifest []) records [] [] index))
