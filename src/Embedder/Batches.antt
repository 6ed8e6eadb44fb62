-- ===== src/Embedder/Batches.antt =====
-- The batches hold every text once, in order.
use legallens.Prelude.{
  ℕ, zero, suc, ◌≤◌, ◌≡◌, refl, ap, sym, ◌∙◌, List, [], ◌∷◌, ◌++◌, map, Text, take, drop, length,
  Outcome, ok, arith, take-append-drop, length-take, length-drop,
}
use legallens.Embedder.{batch_size, embed_rest, embed}

map-append {ℓ κ} :
    {A : Type ℓ} {B : Type κ} (f : A → B) (xs ys : List A) → map f (xs ++ ys) ≡ map f xs ++ map f ys
map-append f [] ys = refl
map-append f (x ∷ xs) ys = ap (λ zs. f x ∷ zs) (map-append f xs ys)

module _ {ℓ} {V : Type ℓ} (client : List Text → Outcome (List V)) (vector : Text → V) where
  embed_rest_fuel :
      (answers : (batch : List Text)
        → length batch ≤ batch_size
        → client batch ≡ ok (map vector batch))
      (fuel : ℕ) (rest : List Text)
      → length rest ≤ fuel
      → embed_rest client fuel rest ≡ ok (map vector rest)
  unfolding embed_rest
  embed_rest_fuel answers zero [] h = refl
  embed_rest_fuel answers zero (t ∷ rest) h = ground arith
  embed_rest_fuel answers (suc fuel) [] h = refl
  embed_rest_fuel answers (suc fuel) (t ∷ rest) h =
      let texts = t ∷ rest in
      let sent : client (take batch_size texts) ≡ ok (map vector (take batch_size texts)) =
        answers (take batch_size texts) (omega (arith, length-take batch_size texts)) in
      let more : embed_rest client fuel (drop batch_size texts)
          ≡ ok (map vector (drop batch_size texts)) =
        embed_rest_fuel answers fuel (drop batch_size texts)
          (omega (arith, length-drop batch_size texts)) in
      let whole : (map vector (take batch_size texts) ++ map vector (drop batch_size texts))
          ≡ map vector texts =
        sym (map-append vector (take batch_size texts) (drop batch_size texts))
        ∙ ap (map vector) (take-append-drop batch_size texts) in
      rw (sent, more) (ap ok whole)

  -- If the client answers each batch of at most 96 texts with the vectors of its texts in order, then
  -- `embed` returns the vectors of all the texts, in order.
  pub embed-map :
      ((batch : List Text) → length batch ≤ batch_size → client batch ≡ ok (map vector batch))
      → (texts : List Text) → embed client texts ≡ ok (map vector texts)
  unfolding embed
  embed-map answers texts = embed_rest_fuel answers (length texts) texts (omega arith)
