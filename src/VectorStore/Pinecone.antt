-- ===== src/VectorStore/Pinecone.antt =====
-- ingestion/pinecone_writer.py, `PineconeIndex`: the managed index. The client of Pinecone is a parameter.
pub mod Opened
mod Tests
use legallens.Prelude.{
  ℕ, ◌≡◌, Bool, true, List, [], ◌∷◌, map, Text, text_eq, Option, some, none, Outcome, ok, raise,
  ◌>>=◌, ◌==◌, contains, is_some, if◌then◌else◌,
}
use legallens.Prelude.Dict.{Dict}
use legallens.VectorStore.{VectorRecord, Match}

-- A match of the response, where the metadata may be missing.
pub record RawMatch (Score Value : Type 0) : Type 0 where
  pub id : Text
  pub score : Score
  pub metadata : Option (Dict Text Value)

-- What the program relies on of the client: the names that it lists are those of the indexes, and an
-- index that it has created is there, with its dimension, beside the others.
pub record PineconeClient (Vec Score Value : Type 0) : Type 1 where
  pub Service : Type 0
  -- `[i.name for i in pc.list_indexes()]`
  pub index_names : Service → Outcome (List Text)
  -- with the dimension
  pub create_index : Text → ℕ → Service → Outcome (Unit {0}) × Service
  pub upsert : Text → List (VectorRecord Vec Value) → Service → Outcome (Unit {0}) × Service
  -- `resp.get("matches")`
  pub query :
      Text
      → Vec
      → ℕ
      → Option (Dict Text Value)
      → Service
      → Outcome (Option (List (RawMatch Score Value)))
  pub dimension_of : Text → Service → Option ℕ
  pub index_names-contains :
      (s : Service) (names : List Text) (name : Text)
      → index_names s ≡ ok names
      → contains names name ≡ is_some (dimension_of name s)
  pub dimension_of-create_index :
      (name : Text) (dimension : ℕ) (s : Service) (other_name : Text)
      → (create_index name dimension s).0 ≡ ok tt
      → dimension_of other_name (create_index name dimension s).1
        ≡ (if other_name == name then some dimension else dimension_of other_name s)

pub record PineconeIndex : Type 0 where
  pub index_name : Text

module _ {Vec Score Value : Type 0} (client : PineconeClient Vec Score Value) where
  open client use {Service, index_names, create_index}

  created : Text → Outcome (Unit {0}) × Service → Outcome PineconeIndex × Service
  created index_name (ok _, s) = (ok (record { index_name = index_name }), s)
  created index_name (raise e, s) = (raise e, s)

  open_listed : Text → ℕ → Service → Outcome (List Text) → Outcome PineconeIndex × Service
  unfolding created
  open_listed index_name dimension s (raise e) = (raise e, s)
  open_listed index_name dimension s (ok names) =
      if contains names index_name
      then (ok (record { index_name = index_name }), s)
      else created index_name (create_index index_name dimension s)

  -- `__init__`
  unfoldable pub open_pinecone : Text → ℕ → Service → Outcome PineconeIndex × Service
  unfolding open_listed
  open_pinecone index_name dimension s = open_listed index_name dimension s (index_names s)

  unfoldable pub upsert_pinecone :
      PineconeIndex → List (VectorRecord Vec Value) → Service → Outcome (Unit {0}) × Service
  upsert_pinecone index records s = client.upsert index.index_name records s

  -- `filter or None`
  abbrev filter_or_none : Option (Dict Text Value) → Option (Dict Text Value)
  filter_or_none none = none
  filter_or_none (some []) = none
  filter_or_none (some (kv ∷ filter)) = some (kv ∷ filter)

  -- A value that is missing is empty.
  abbrev or_empty {ℓ} : {A : Type ℓ} → Option (List A) → List A
  or_empty none = []
  or_empty (some xs) = xs

  abbrev matched : RawMatch Score Value → Match Score Value
  matched m = record { id = m.id; score = m.score; metadata = or_empty m.metadata }

  unfoldable pub query_pinecone :
      PineconeIndex
      → Vec
      → ℕ
      → Option (Dict Text Value)
      → Service
      → Outcome (List (Match Score Value))
  query_pinecone index vector top_k filter s =
      client.query index.index_name vector top_k (filter_or_none filter) s
      >>= (λ matches. ok (map matched (or_empty matches)))
