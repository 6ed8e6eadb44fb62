-- ===== src/VectorStore/Interface.antt =====
-- The protocol `VectorStore`, as far as a client writes to it: an upsert inserts its records into the
-- dict of the rows.
use legallens.Prelude.{
  ◌≡◌, refl, ap, sym, ◌∙◌, subst, Bool, true, List, [], ◌∷◌, Text, text_eq, Option, Outcome, ok,
  IsDistinct,
}
use legallens.Prelude.Dict.{Dict, insert, NodupKeys, insert-NodupKeys}
use legallens.Prelude.Upserts.{put_all, Overrides, change_keys, insert-put, put_all_twice}
use legallens.VectorStore.{VectorRecord, entry_of}

module _ {Vec Value : Type 0} where
  abbrev pub Fit : (Vec → Bool) → List (VectorRecord Vec Value) → Type 0
  Fit fits [] = Unit
  Fit fits (r ∷ rs) = (fits r.values ≡ true) × Fit fits rs

  abbrev pub record_ids : List (VectorRecord Vec Value) → List Text
  record_ids [] = []
  record_ids (r ∷ rs) = r.id ∷ record_ids rs

module _ {Vec Row Value : Type 0} where
  abbrev pub inserted :
      (Vec → Row)
      → VectorRecord Vec Value
      → Dict Text (Row × Dict Text Value)
      → Dict Text (Row × Dict Text Value)
  inserted to_row r d = insert r.id (to_row r.values, (entry_of r).metadata) d

  -- The records, inserted one after another.
  abbrev pub insert_all :
      (Vec → Row)
      → List (VectorRecord Vec Value)
      → Dict Text (Row × Dict Text Value)
      → Dict Text (Row × Dict Text Value)
  insert_all to_row [] d = d
  insert_all to_row (r ∷ rs) d = insert_all to_row rs (inserted to_row r d)

  pub insert_all-NodupKeys :
      (to_row : Vec → Row) (rs : List (VectorRecord Vec Value))
      (d : Dict Text (Row × Dict Text Value))
      → NodupKeys d
      → NodupKeys (insert_all to_row rs d)
  insert_all-NodupKeys to_row [] d u = u
  insert_all-NodupKeys to_row (r ∷ rs) d u =
      insert_all-NodupKeys to_row rs (inserted to_row r d) (insert-NodupKeys r.id _ d u)

pub record VectorStore (Vec Row Value : Type 0) : Type 1 where
  pub Store : Type 0
  pub IsValid : Store → Type 0
  pub fits : Vec → Bool
  pub to_row : Vec → Row
  -- Each id with its row and its metadata.
  pub contents : Store → Dict Text (Row × Dict Text Value)
  pub upsert : List (VectorRecord Vec Value) → Store → Outcome (Unit {0}) × Store
  pub upsert-contents :
      (records : List (VectorRecord Vec Value)) (s : Store)
      → IsValid s
      → Fit fits records
      → IsDistinct (record_ids records)
      → ((upsert records s).0 ≡ ok tt)
        × IsValid (upsert records s).1
        × (contents (upsert records s).1 ≡ insert_all to_row records (contents s))

module _ {Vec Row Value : Type 0} (to_row : Vec → Row) where
  abbrev vector_changes :
      List (VectorRecord Vec Value)
      → List (Text × (Option (Row × Dict Text Value) → Row × Dict Text Value))
  vector_changes [] = []
  vector_changes (r ∷ rs) =
      (r.id, λ _. (to_row r.values, (entry_of r).metadata)) ∷ vector_changes rs

  insert_all-put_all :
      (rs : List (VectorRecord Vec Value)) (d : Dict Text (Row × Dict Text Value))
      → insert_all to_row rs d ≡ put_all (vector_changes rs) d
  unfolding put_all
  insert_all-put_all [] d = refl
  insert_all-put_all (r ∷ rs) d =
      insert_all-put_all rs (inserted to_row r d)
      ∙ ap (put_all (vector_changes rs)) (insert-put r.id _ d)

  vector_changes-Overrides :
      (rs qs : List (VectorRecord Vec Value))
      → record_ids rs ≡ record_ids qs
      → Overrides (vector_changes rs) (vector_changes qs)
  vector_changes-Overrides [] [] h = tt
  vector_changes-Overrides [] (q ∷ qs) h = cc
  vector_changes-Overrides (r ∷ rs) [] h = cc
  vector_changes-Overrides (r ∷ rs) (q ∷ qs) h =
      ((cc), (λ o. refl), vector_changes-Overrides rs qs (cc))

  change_keys-vector_changes :
      (rs : List (VectorRecord Vec Value)) → change_keys (vector_changes rs) ≡ record_ids rs
  change_keys-vector_changes [] = refl
  change_keys-vector_changes (r ∷ rs) = ap (◌∷◌ r.id) (change_keys-vector_changes rs)

  -- Records with the same ids replace one another.
  pub insert_all_twice :
      (rs qs : List (VectorRecord Vec Value)) (d : Dict Text (Row × Dict Text Value))
      → record_ids rs ≡ record_ids qs
      → IsDistinct (record_ids rs)
      → insert_all to_row qs (insert_all to_row rs d) ≡ insert_all to_row qs d
  insert_all_twice rs qs d same u =
      insert_all-put_all qs (insert_all to_row rs d)
      ∙ ap (put_all (vector_changes qs)) (insert_all-put_all rs d)
      ∙ put_all_twice (vector_changes rs) (vector_changes qs) d
          (vector_changes-Overrides rs qs same)
          (subst IsDistinct (sym (change_keys-vector_changes rs)) u)
      ∙ sym (insert_all-put_all qs d)
