-- ===== src/Backends.antt =====
-- `make_embedder` of ingestion/embedder.py and `make_vector_store` of ingestion/pinecone_writer.py, which
-- choose the backends by the settings, and the cached ones of a process of scripts/ingest_worker.py.
-- A backend is its class, with the arguments of its constructor; its identity is its number.
pub mod Cached
mod Tests
use legallens.Prelude.{
  ℕ, Bool, not, ◌&&◌, List, [], ◌∷◌, ◌++◌, Text, codes, text_eq, Option, none, some, Outcome, ok,
  raise, ◌==◌, is_empty, length, if◌then◌else◌,
}
use legallens.Python.Strings.{is_space, strip}
use legallens.Redis.{starts_with}

-- The settings that the choice reads.
pub record Settings : Type 0 where
  pub cohere_api_key : Text
  pub pinecone_api_key : Text
  pub pinecone_index_name : Text
  pub local_vector_root : Text

pub data Embedder : Type 0 where
  cohere_embedder : Embedder
  -- with `model_name`
  local_embedder : Text → Embedder

abbrev pub dimension : Embedder → ℕ
dimension cohere_embedder = 1024
dimension (local_embedder model_name) = 384

pub data VectorIndex : Type 0 where
  -- with `index_name` and `dimension`
  pinecone_index : Text → ℕ → VectorIndex
  -- with `root` and `dimension`
  local_numpy_index : Text → ℕ → VectorIndex

-- `key and not key.startswith("your_") and key != "mock"`, where `key` is stripped
unfoldable pub is_real : Text → Bool
unfolding strip is_space starts_with
is_real api_key =
    let key = strip is_space api_key in
    not (is_empty key) && not (starts_with (codes "your_") key) && not (key == codes "mock")

unfoldable pub make_embedder : Settings → Embedder
unfolding is_real
make_embedder s =
    if is_real s.cohere_api_key then cohere_embedder else local_embedder (codes "all-MiniLM-L6-v2")

unfoldable pub make_vector_store : Settings → ℕ → VectorIndex
unfolding is_real
make_vector_store s dim =
    if is_real s.pinecone_api_key
    then pinecone_index s.pinecone_index_name dim
    else local_numpy_index s.local_vector_root dim

-- What a process constructs.
pub data Object : Type 0 where
  embedder_object : Embedder → Object
  index_object : VectorIndex → Object

-- A reference to an object: its number among the objects that the process has constructed, and what
-- it is. Two references with one number are to one object, with one state in memory.
abbrev pub Ref : Type 0 → Type 0
Ref A = ℕ × A

-- A process: its objects in the order in which they were constructed, what is outside of it, and the
-- module's `_embedder` and `_vector_store`.
pub record Process (X : Type 0) : Type 0 where
  pub constructed : List Object
  pub outside : X
  pub embedder : Option (Ref Embedder)
  pub vector_store : Option (Ref VectorIndex)

-- `construct` is what the constructor of an object does outside of the process: it reads the files, or
-- calls the services, and may raise. Those of the indexes are `open_index` and `open_pinecone` of
-- VectorStore; here any will do.
module _ {X : Type 0} (construct : Object → X → Outcome (Unit {0}) × X) where
  -- A call of a constructor.
  after_construct : Object → Outcome (Unit {0}) × X → Process X → Outcome ℕ × Process X
  after_construct object (raise e, x) p = (raise e, record p { outside = x })
  after_construct object (ok _, x) p = (
    ok (length p.constructed),
    record p { constructed = p.constructed ++ object ∷ []; outside = x },
  )

  new : Object → Process X → Outcome ℕ × Process X
  unfolding after_construct
  new object p = after_construct object (construct object p.outside) p

  -- `_embedder = make_embedder()`
  cache_embedder : Embedder → Outcome ℕ × Process X → Outcome (Ref Embedder) × Process X
  cache_embedder e (raise x, p) = (raise x, p)
  cache_embedder e (ok i, p) = (ok (i, e), record p { embedder = some (i, e) })

  -- `_get_embedder`, on what `_embedder` is
  embedder_or_new :
      Option (Ref Embedder) → Settings → Process X → Outcome (Ref Embedder) × Process X
  unfolding new cache_embedder
  embedder_or_new (some e) s p = (ok e, p)
  embedder_or_new none s p =
      cache_embedder (make_embedder s) (new (embedder_object (make_embedder s)) p)

  unfoldable pub get_embedder : Settings → Process X → Outcome (Ref Embedder) × Process X
  unfolding embedder_or_new
  get_embedder s p = embedder_or_new p.embedder s p

  -- `_vector_store = make_vector_store(...)`
  cache_store : VectorIndex → Outcome ℕ × Process X → Outcome (Ref VectorIndex) × Process X
  cache_store v (raise x, p) = (raise x, p)
  cache_store v (ok i, p) = (ok (i, v), record p { vector_store = some (i, v) })

  open_store : Settings → Outcome (Ref Embedder) × Process X → Outcome (Ref VectorIndex) × Process X
  unfolding cache_store new
  open_store s (raise x, p) = (raise x, p)
  open_store s (ok emb, p) =
      let v = make_vector_store s (dimension emb.1) in cache_store v (new (index_object v) p)

  -- `_get_store`, on what `_vector_store` is
  store_or_new :
      Option (Ref VectorIndex) → Settings → Process X → Outcome (Ref VectorIndex) × Process X
  unfolding get_embedder open_store
  store_or_new (some v) s p = (ok v, p)
  store_or_new none s p = open_store s (get_embedder s p)

  unfoldable pub get_store : Settings → Process X → Outcome (Ref VectorIndex) × Process X
  unfolding store_or_new
  get_store s p = store_or_new p.vector_store s p
