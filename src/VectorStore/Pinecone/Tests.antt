-- ===== src/VectorStore/Pinecone/Tests.antt =====
-- A service that holds the dimensions of its indexes, and answers each query with two matches.
use legallens.Prelude.{
  ℕ, ◌≡◌, refl, ap, sym, ◌∙◌, List, [], ◌∷◌, Text, codes, text_eq, nat_eq, some, none, ok, contains,
  is_some,
}
use legallens.Prelude.Dict.{Dict, lookup, insert, keys, lookup-insert, contains-keys}
use legallens.VectorStore.Pinecone.{PineconeClient, open_pinecone, query_pinecone}
use legallens.VectorStore.Pinecone.Opened.{Opened, open_pinecone-Opened}

listed-keys :
    (s : Dict Text ℕ) (names : List Text) (name : Text)
    → ok (keys s) ≡ ok names
    → contains names name ≡ is_some (lookup name s)
unfolding lookup
listed-keys s names name e =
    let same : keys s ≡ names = cc in ap (λ ns. contains ns name) (sym same) ∙ contains-keys s name

abbrev plain_client : PineconeClient ℕ ℕ Text
plain_client = record {
  Service = Dict Text ℕ;
  index_names = λ s. ok (keys s);
  create_index = λ name d s. (ok tt, insert name d s);
  upsert = λ name records s. (ok tt, s);
  query = λ name v k f s. ok (
      some (
        record { id = codes "a"; score = 9; metadata = none }
        ∷ record { id = codes "b"; score = 7; metadata = some ((codes "c", codes "d") ∷ []) }
        ∷ []));
  dimension_of = lookup;
  index_names-contains = listed-keys;
  dimension_of-create_index = λ name d s other h. lookup-insert other name d s;
}

abbrev clauses_index : Dict Text ℕ
clauses_index = (codes "legallens-clauses", 384) ∷ []

-- The dimension that is there stays.
other_dimension :
    open_pinecone plain_client (codes "legallens-clauses") 1024 clauses_index
    ≡ (ok (record { index_name = codes "legallens-clauses" }), clauses_index)
unfolding open_pinecone text_eq nat_eq
other_dimension = refl

matches :
    query_pinecone plain_client (record { index_name = codes "i" }) 0 5 (some []) clauses_index
    ≡ ok (
        record { id = codes "a"; score = 9; metadata = [] }
        ∷ record { id = codes "b"; score = 7; metadata = (codes "c", codes "d") ∷ [] }
        ∷ [])
unfolding query_pinecone
matches = refl

returned :
    (open_pinecone plain_client (codes "i") 1024 clauses_index).0
    ≡ ok (record { index_name = codes "i" })
unfolding open_pinecone text_eq nat_eq
returned = refl

open_pinecone-Opened_example :
    Opened plain_client
      (codes "i")
      1024
      clauses_index
      (open_pinecone plain_client (codes "i") 1024 clauses_index)
open_pinecone-Opened_example =
    open_pinecone-Opened plain_client (codes "i") 1024 clauses_index
      (record { index_name = codes "i" }) returned
