-- ===== src/Embedder/Local.antt =====
-- ingestion/embedder.py, `LocalEmbedder`: the model is loaded by the first call that needs it.
-- sentence-transformers is a parameter: `load` is its constructor, which reads and writes a cache of
-- files, and may raise; `encode` is a method of the model that it gives.
use legallens.Prelude.{
  ◌≡◌, refl, ap, List, [], ◌∷◌, map, Text, Option, none, some, Outcome, ok, raise,
}

-- The instance, with `_model`, and the files.
pub record LocalEmbedder (Model Files : Type 0) : Type 0 where
  pub model_name : Text
  pub model : Option Model
  pub files : Files

module _ {Model Files V : Type 0} (load : Text → Files → Outcome Model × Files)
    (encode : Model → List Text → Outcome (List V)) where
  loaded :
      LocalEmbedder Model Files → Outcome Model × Files → Outcome Model × LocalEmbedder Model Files
  loaded e (ok m, files) = (ok m, record e { model = some m; files = files })
  loaded e (raise x, files) = (raise x, record e { files = files })

  -- `_load`
  unfoldable pub load_model : LocalEmbedder Model Files → Outcome Model × LocalEmbedder Model Files
  unfolding loaded
  load_model e = elim e.model [ some m ↦ (ok m, e) | none ↦ loaded e (load e.model_name e.files) ]

  encoded :
      List Text
      → Outcome Model × LocalEmbedder Model Files
      → Outcome (List V) × LocalEmbedder Model Files
  encoded texts (ok m, e) = (encode m texts, e)
  encoded texts (raise x, e) = (raise x, e)

  -- `embed`
  unfoldable pub embed_local :
      List Text → LocalEmbedder Model Files → Outcome (List V) × LocalEmbedder Model Files
  unfolding load_model encoded
  embed_local texts e = encoded texts (load_model e)

  -- The answers of several calls, and the instance after them.
  abbrev pub embed_each :
      List (List Text)
      → LocalEmbedder Model Files
      → List (Outcome (List V)) × LocalEmbedder Model Files
  embed_each [] e = ([], e)
  embed_each (texts ∷ more) e =
      let (r, e') = embed_local texts e in let (rs, e'') = embed_each more e' in (r ∷ rs, e'')

  -- With a model, every call uses it, and nothing is loaded.
  embed_each-some :
      (calls : List (List Text)) (name : Text) (m : Model) (files : Files)
      → embed_each calls (record { model_name = name; model = some m; files = files })
        ≡ (map (encode m) calls, record { model_name = name; model = some m; files = files })
  unfolding embed_local
  embed_each-some [] name m files = refl
  embed_each-some (texts ∷ more) name m files =
      ap (λ r. (encode m texts ∷ r.0, r.1)) (embed_each-some more name m files)

  -- If the model can be loaded, one or more calls of a new embedder load it once, and all of them
  -- encode their texts with it.
  pub embed_each-new :
      (texts : List Text) (more : List (List Text)) (name : Text) (m : Model) (files files' : Files)
      → load name files ≡ (ok m, files')
      → embed_each (texts ∷ more) (record { model_name = name; model = none; files = files }) ≡ (
        map (encode m) (texts ∷ more),
        record { model_name = name; model = some m; files = files' },
      )
  unfolding embed_local
  embed_each-new texts more name m files files' h =
      rw h (ap (λ r. (encode m texts ∷ r.0, r.1)) (embed_each-some more name m files'))
