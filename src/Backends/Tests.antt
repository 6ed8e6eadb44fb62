-- ===== src/Backends/Tests.antt =====
-- A placeholder for the one key, and a key for the other; the service is down at first.
use legallens.Prelude.{
  ℕ, zero, suc, ◌≡◌, refl, [], ◌∷◌, List, codes, text_eq, nat_eq, none, Outcome, ok, raise,
  value_error, All,
}
use legallens.Python.Strings.{is_space, strip}
use legallens.Redis.{starts_with}
use legallens.Backends.{
  Settings, local_embedder, pinecone_index, is_real, make_embedder, make_vector_store, Object,
  embedder_object, index_object, Process, get_embedder, get_store,
}
use legallens.Backends.Cached.{
  Event, ask_embedder, ask_store, change, embedder_answer, store_answer, chosen_store, IsSettled,
  nothing_made, answers, IsCached, answers-IsCached,
}

abbrev settings : Settings
settings = record {
  cohere_api_key = codes " your_key";
  pinecone_api_key = codes "k";
  pinecone_index_name = codes "i";
  local_vector_root = codes "./data/vectors";
}

chosen :
    (make_embedder settings ≡ local_embedder (codes "all-MiniLM-L6-v2"))
    × (chosen_store settings ≡ pinecone_index (codes "i") 384)
unfolding is_space strip starts_with text_eq nat_eq is_real make_embedder make_vector_store
chosen = (refl, refl)

-- An index cannot be opened while the service is down.
abbrev construct : Object → ℕ → Outcome (Unit {0}) × ℕ
construct (embedder_object e) n = (ok tt, n)
construct (index_object v) zero = (raise value_error, zero)
construct (index_object v) (suc n) = (ok tt, suc n)

abbrev start : Process ℕ
start = record { constructed = []; outside = 0; embedder = none; vector_store = none }

abbrev events : List (Event ℕ)
events = ask_store ∷ ask_embedder ∷ change suc ∷ ask_store ∷ ask_embedder ∷ ask_store ∷ []

answered :
    (answers construct settings events start).0
    ≡ store_answer (raise value_error)
      ∷ embedder_answer (ok (0, make_embedder settings))
      ∷ store_answer (ok (1, chosen_store settings))
      ∷ embedder_answer (ok (0, make_embedder settings))
      ∷ store_answer (ok (1, chosen_store settings))
      ∷ []
unfolding get_embedder get_store
answered = refl

answers-IsCached_example :
    All (IsCached construct settings) (answers construct settings events start).0
    × IsSettled settings (answers construct settings events start).1
answers-IsCached_example =
    answers-IsCached construct settings events start (nothing_made refl refl refl)
