-- ===== src/Embedder/Tests.antt =====
-- A client that embeds a text as its length, and refuses batches that are too large.
use legallens.Prelude.{
  ℕ, ◌≡◌, ◌≤◌, List, [], ◌∷◌, map, Text, codes, length, leb, Outcome, ok, raise, value_error, arith,
  if◌then◌else◌,
}
use legallens.Embedder.{batch_size, embed}
use legallens.Embedder.Batches

abbrev client : List Text → Outcome (List ℕ)
client batch = if leb (length batch) batch_size then ok (map length batch) else raise value_error

client_answers :
    (batch : List Text) → length batch ≤ batch_size → client batch ≡ ok (map length batch)
client_answers batch h = ground arith

abbrev two_texts : List Text
two_texts = codes "first" ∷ codes "other" ∷ []

embed-map_example : embed client two_texts ≡ ok (map length two_texts)
embed-map_example = Batches.embed-map client length client_answers two_texts
