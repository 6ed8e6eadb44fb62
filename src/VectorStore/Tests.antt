-- ===== src/VectorStore/Tests.antt =====
-- An index with one row, into which two records are put, and queries of it.
use mathlib.Core.List.{Perm}
use legallens.Prelude.{
  ℕ, ◌≡◌, refl, List, [], ◌∷◌, Text, codes, text_eq, nat_eq, some, none, ok, raise, value_error,
  take, length, IsDistinct, contains, false,
}
use legallens.Prelude.Dict.{Dict, lookup, insert}
use legallens.Prelude.Sorting.{sorted, IsSorted}
use legallens.VectorStore.{
  VectorRecord, Match, Files, LocalNumpyIndex, Entry, entry_of, ids_existing, replace_at,
  upsert_each, append_new, open_index, persist, upsert,
}
use legallens.VectorStore.Query.{satisfies, candidates, keyed, results, ranked, query}
use legallens.VectorStore.Samples.{plain_numpy, plain_json, higher-IsOrder}
use legallens.VectorStore.Interface.{record_ids, insert_all}
use legallens.VectorStore.Rows
use legallens.VectorStore.Reopen
use legallens.VectorStore.Ranking
use legallens.VectorStore.Scan

store_program : Unit {0}
unfolding lookup insert sorted text_eq nat_eq entry_of ids_existing replace_at upsert_each
    append_new open_index persist upsert satisfies candidates keyed results ranked query
store_program = tt

abbrev no_files : Files (List ℕ) (List (Entry Text))
no_files = record { vectors = none; manifest = none }

abbrev one_row : LocalNumpyIndex ℕ Text
one_row = record { vectors = 3 ∷ []; manifest = record { id = codes "a"; metadata = [] } ∷ [] }

abbrev of_kind : Text → Dict Text Text
of_kind kind = (codes "category", kind) ∷ []

abbrev two_records : List (VectorRecord ℕ Text)
two_records =
    record { id = codes "b"; values = 5; metadata = some (of_kind (codes "x")) }
    ∷ record { id = codes "a"; values = 7; metadata = some (of_kind (codes "y")) }
    ∷ []

abbrev two_rows : LocalNumpyIndex ℕ Text
two_rows = record {
  vectors = 7 ∷ 5 ∷ [];
  manifest =
      record { id = codes "a"; metadata = of_kind (codes "y") }
      ∷ record { id = codes "b"; metadata = of_kind (codes "x") }
      ∷ [];
}

upserted :
    upsert plain_numpy plain_json two_records one_row no_files
    ≡ (ok tt, two_rows, persist plain_numpy plain_json two_rows)
unfolding store_program
upserted = refl

-- A vector that does not fit raises, and the rows before it are replaced in memory only.
refused :
    upsert plain_numpy plain_json
      (record { id = codes "a"; values = 8; metadata = none }
        ∷ record { id = codes "c"; values = 100; metadata = none }
        ∷ [])
      one_row
      no_files
    ≡ (raise value_error, record one_row { vectors = 8 ∷ [] }, no_files)
unfolding store_program
refused = refl

-- An id that is new and comes twice gets two rows.
doubled :
    length
      (upsert plain_numpy plain_json
        (record { id = codes "b"; values = 5; metadata = none }
          ∷ record { id = codes "b"; values = 6; metadata = none }
          ∷ [])
        one_row
        no_files).1.vectors
    ≡ 3
unfolding store_program
doubled = refl

found :
    (query plain_numpy (codes "None") 1 1 [] two_rows
      ≡ ok (record { id = codes "a"; score = 7; metadata = of_kind (codes "y") } ∷ []))
    × (query plain_numpy (codes "None") 2 5 (of_kind (codes "x")) two_rows
        ≡ ok (record { id = codes "b"; score = 10; metadata = of_kind (codes "x") } ∷ []))
unfolding store_program
found = (refl, refl)

one_row-IsValid : Rows.IsValid plain_numpy plain_json one_row
unfolding lookup
one_row-IsValid = record { parallel = refl; nodup = (refl, tt) }

two_records-IsDistinct : IsDistinct (record_ids two_records)
unfolding text_eq
two_records-IsDistinct = (refl, (refl, tt))

upsert-contents_example :
    (new : LocalNumpyIndex ℕ Text) × (upsert plain_numpy plain_json two_records one_row no_files
      ≡ (ok tt, new, persist plain_numpy plain_json new))
    × Rows.IsValid plain_numpy plain_json new
    × (Rows.contents plain_numpy plain_json new
        ≡ insert_all plain_numpy.to_row two_records (Rows.contents plain_numpy plain_json one_row))
upsert-contents_example =
    Rows.upsert-contents plain_numpy plain_json two_records one_row no_files one_row-IsValid
      (refl, (refl, tt)) two_records-IsDistinct

-- Another process, that started from no files, has written "z".
abbrev other : List (List (VectorRecord ℕ Text) × LocalNumpyIndex ℕ Text)
other =
    (
      record { id = codes "z"; values = 4; metadata = none } ∷ [],
      record { vectors = []; manifest = [] },
    )
    ∷ []

there_before :
    open_index plain_numpy plain_json (Reopen.written plain_numpy plain_json other no_files)
    ≡ ok (record { vectors = 4 ∷ []; manifest = record { id = codes "z"; metadata = [] } ∷ [] })
unfolding store_program
there_before = refl

open_index-upsert_example :
    (opened : LocalNumpyIndex ℕ Text) × (open_index plain_numpy plain_json
        (upsert plain_numpy plain_json two_records one_row
          (Reopen.written plain_numpy plain_json other no_files)).2
      ≡ ok opened)
    × (Rows.contents plain_numpy plain_json opened
        ≡ insert_all plain_numpy.to_row two_records (Rows.contents plain_numpy plain_json one_row))
    × ((k : Text)
        → contains (record_ids two_records) k ≡ false
        → lookup k (Rows.contents plain_numpy plain_json opened)
          ≡ lookup k (Rows.contents plain_numpy plain_json one_row))
open_index-upsert_example =
    Reopen.open_index-upsert plain_numpy plain_json other two_records one_row no_files
      one_row-IsValid (refl, (refl, tt)) two_records-IsDistinct

query-ranking_example :
    (all : List (Match ℕ Text)) × (query plain_numpy (codes "None") 2 1 [] two_rows
      ≡ ok (take 1 all))
    × IsSorted (Scan.by_match plain_numpy (codes "None")) all
    × Perm all (Scan.hits plain_numpy (codes "None") 2 [] two_rows.vectors two_rows.manifest)
query-ranking_example =
    Ranking.query-ranking plain_numpy (codes "None") 2 1 [] two_rows higher-IsOrder refl refl
