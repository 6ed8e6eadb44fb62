-- ===== src/Embedder.antt =====
-- ingestion/embedder.py, `CohereEmbedder.embed`: the texts are sent in batches. `client` stands for
-- `self.client.embed` and its `embeddings`.
pub mod Batches
pub mod Local
mod Tests
use legallens.Prelude.{
  ℕ, zero, suc, List, [], ◌∷◌, ◌++◌, Text, take, drop, length, is_empty, Outcome, ok, ◌>>=◌,
  if◌then◌else◌,
}

abbrev pub batch_size : ℕ
batch_size = 96

module _ {ℓ} {V : Type ℓ} (client : List Text → Outcome (List V)) where
  -- The rounds of the loop, where `rest` is `texts[i:]`; the fuel bounds the number of rounds.
  unfoldable pub embed_rest : ℕ → List Text → Outcome (List V)
  embed_rest zero rest = ok []
  embed_rest (suc fuel) rest =
      let round = client (take batch_size rest) >>= (λ embeddings.
        embed_rest fuel (drop batch_size rest) >>= (λ out. ok (embeddings ++ out))) in
      if is_empty rest then ok [] else round

  unfoldable pub embed : List Text → Outcome (List V)
  unfolding embed_rest
  embed texts = embed_rest (length texts) texts
