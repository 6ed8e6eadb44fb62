-- ===== src/Backends/Cached.antt =====
-- What the calls of `_get_embedder` and `_get_store` return, in any order.
use legallens.Prelude.{
  ◌≡◌, ◌⊎◌, inl, inr, refl, ap, ◌∙◌, List, [], ◌∷◌, ◌++◌, Option, none, some, Outcome, ok, raise,
  Error, All, length,
}
use legallens.Backends.{
  Settings, Embedder, dimension, VectorIndex, make_embedder, make_vector_store, Object,
  embedder_object, index_object, Ref, Process, after_construct, new, cache_embedder,
  embedder_or_new, get_embedder, cache_store, open_store, store_or_new, get_store,
}

-- What happens in a process: it asks for one of the two, or something changes outside.
pub data Event (X : Type 0) : Type 0 where
  ask_embedder ask_store : Event X
  change : (X → X) → Event X

pub data Answer : Type 0 where
  embedder_answer : Outcome (Ref Embedder) → Answer
  store_answer : Outcome (Ref VectorIndex) → Answer

abbrev pub chosen_store : Settings → VectorIndex
chosen_store s = make_vector_store s (dimension (make_embedder s))

-- What a process has constructed and cached: nothing; the embedder that the settings choose; or this
-- one and then the vector store that they choose for its dimension. Each is constructed once.
pub data IsSettled {X : Type 0} (s : Settings) (p : Process X) : Type 0 where
  nothing_made : p.constructed ≡ [] → p.embedder ≡ none → p.vector_store ≡ none → IsSettled s p
  embedder_made :
      p.constructed ≡ embedder_object (make_embedder s) ∷ []
      → p.embedder ≡ some (0, make_embedder s)
      → p.vector_store ≡ none
      → IsSettled s p
  both_made :
      p.constructed ≡ embedder_object (make_embedder s) ∷ index_object (chosen_store s) ∷ []
      → p.embedder ≡ some (0, make_embedder s)
      → p.vector_store ≡ some (1, chosen_store s)
      → IsSettled s p

module _ {X : Type 0} (construct : Object → X → Outcome (Unit {0}) × X) where
  -- The answers to what a process asks for, and the process after all of it.
  abbrev pub answers : Settings → List (Event X) → Process X → List Answer × Process X
  answers s [] p = ([], p)
  answers s (ask_embedder ∷ es) p =
      let (r, p') = get_embedder construct s p in
      let (rs, p'') = answers s es p' in (embedder_answer r ∷ rs, p'')
  answers s (ask_store ∷ es) p =
      let (r, p') = get_store construct s p in
      let (rs, p'') = answers s es p' in (store_answer r ∷ rs, p'')
  answers s (change f ∷ es) p = answers s es (record p { outside = f p.outside })

  -- An answer is the one embedder, or the one vector store, or what a constructor raised.
  abbrev pub IsRaised : Error → Type 0
  IsRaised e = (object : Object) × (x : X) × ((construct object x).0 ≡ raise e)

  abbrev pub IsCached : Settings → Answer → Type 0
  IsCached s (embedder_answer (ok r)) = r ≡ (0, make_embedder s)
  IsCached s (embedder_answer (raise e)) = IsRaised e
  IsCached s (store_answer (ok r)) = r ≡ (1, chosen_store s)
  IsCached s (store_answer (raise e)) = IsRaised e

  abbrev with_object : Object → X → Process X → Process X
  with_object object x p = record p { constructed = p.constructed ++ object ∷ []; outside = x }

  -- A constructor raises and the process has no new object, or it returns the next one.
  new_cases :
      (object : Object) (p : Process X)
      → ((e : Error) × (x : X) × (new construct object p ≡ (raise e, record p { outside = x }))
          × IsRaised e)
        ⊎ ((x : X) × (new construct object p ≡ (ok (length p.constructed), with_object object x p)))
  unfolding new after_construct
  new_cases object p = go (construct object p.outside) refl
    where
      go :
          (r : Outcome (Unit {0}) × X)
          → construct object p.outside ≡ r
          → ((e : Error) × (x : X) × (after_construct construct object r p
                ≡ (raise e, record p { outside = x }))
              × IsRaised e)
            ⊎ ((x : X) × (after_construct construct object r p
                  ≡ (ok (length p.constructed), with_object object x p)))
      go (raise e, x) h = inl (e, x, refl, (object, p.outside, ap (λ r. r.0) h))
      go (ok _, x) h = inr (x, refl)

  Settled-none :
      (s : Settings) (p : Process X)
      → IsSettled s p
      → p.embedder ≡ none
      → (p.constructed ≡ []) × (p.vector_store ≡ none)
  Settled-none s p (nothing_made c e v) h = (c, v)
  Settled-none s p (embedder_made c e v) h = cc
  Settled-none s p (both_made c e v) h = cc

  Settled-some :
      (s : Settings) (p : Process X) (r : Ref Embedder)
      → IsSettled s p
      → p.embedder ≡ some r
      → r ≡ (0, make_embedder s)
  Settled-some s p r (nothing_made c e v) h = cc
  Settled-some s p r (embedder_made c e v) h = cc
  Settled-some s p r (both_made c e v) h = cc

  -- A call of `_get_embedder` on a settled process.
  abbrev Embedded : Settings → Process X → Outcome (Ref Embedder) × Process X → Type 0
  Embedded s p (ok r, p') =
      (r ≡ (0, make_embedder s))
      × (p'.embedder ≡ some (0, make_embedder s))
      × (p'.vector_store ≡ p.vector_store)
      × IsSettled s p'
  Embedded s p (raise e, p') = IsRaised e × IsSettled s p'

  get_embedder-Embedded :
      (s : Settings) (p : Process X) → IsSettled s p → Embedded s p (get_embedder construct s p)
  unfolding get_embedder cache_embedder embedder_or_new
  get_embedder-Embedded s p h = go p.embedder refl
    where
      go :
          (o : Option (Ref Embedder))
          → p.embedder ≡ o
          → Embedded s p (embedder_or_new construct o s p)
      go (some r) e = let same = Settled-some s p r h e in (same, e ∙ ap some same, refl, h)
      go none e =
          let (c, v) = Settled-none s p h e in
          elim (new_cases (embedder_object (make_embedder s)) p) [
            | inl (x, out, q, raised) ↦ rw q (raised, nothing_made c e v)
            | inr (out, q) ↦ rw q (
              ap (λ l. (length l, make_embedder s)) c,
              ap (λ l. some (length l, make_embedder s)) c,
              refl,
              embedder_made (ap (λ l. l ++ embedder_object (make_embedder s) ∷ []) c)
                  (ap (λ l. some (length l, make_embedder s)) c) v,
            )
          ]

  Settled-one :
      (s : Settings) (p : Process X)
      → IsSettled s p
      → p.embedder ≡ some (0, make_embedder s)
      → p.vector_store ≡ none
      → p.constructed ≡ embedder_object (make_embedder s) ∷ []
  Settled-one s p (nothing_made c e v) h k = cc
  Settled-one s p (embedder_made c e v) h k = c
  Settled-one s p (both_made c e v) h k = cc

  Settled-store :
      (s : Settings) (p : Process X) (r : Ref VectorIndex)
      → IsSettled s p
      → p.vector_store ≡ some r
      → r ≡ (1, chosen_store s)
  Settled-store s p r (nothing_made c e v) h = cc
  Settled-store s p r (embedder_made c e v) h = cc
  Settled-store s p r (both_made c e v) h = cc

  abbrev Stored : Settings → Outcome (Ref VectorIndex) × Process X → Type 0
  Stored s (ok r, p') = (r ≡ (1, chosen_store s)) × IsSettled s p'
  Stored s (raise e, p') = IsRaised e × IsSettled s p'

  open_store-Stored :
      (s : Settings) (p : Process X) (r : Outcome (Ref Embedder) × Process X)
      → p.vector_store ≡ none
      → Embedded s p r
      → Stored s (open_store construct s r)
  unfolding open_store cache_store
  open_store-Stored s p (raise e, p') h k = k
  open_store-Stored s p (ok r, p') h (same, emb, kept, settled) =
      let v = chosen_store s in
      let made : make_vector_store s (dimension r.1) ≡ v =
        ap (λ (q : Ref Embedder). make_vector_store s (dimension q.1)) same in
      let one = Settled-one s p' settled emb (kept ∙ h) in
      rw made (elim (new_cases (index_object v) p') [
        | inl (x, out, q, raised) ↦ rw q (raised, embedder_made one emb (kept ∙ h))
        | inr (out, q) ↦ rw q (
          ap (λ l. (length l, v)) one,
          both_made (ap (λ l. l ++ index_object v ∷ []) one) emb (ap (λ l. some (length l, v)) one),
        )
      ])

  get_store-Stored :
      (s : Settings) (p : Process X) → IsSettled s p → Stored s (get_store construct s p)
  unfolding get_store store_or_new
  get_store-Stored s p h = go p.vector_store refl
    where
      go :
          (o : Option (Ref VectorIndex))
          → p.vector_store ≡ o
          → Stored s (store_or_new construct o s p)
      go (some r) e = (Settled-store s p r h e, h)
      go none e = open_store-Stored s p (get_embedder construct s p) e (get_embedder-Embedded s p h)

  Embedded-Settled :
      (s : Settings) (p : Process X) (r : Outcome (Ref Embedder) × Process X)
      → Embedded s p r
      → IsCached s (embedder_answer r.0) × IsSettled s r.1
  Embedded-Settled s p (ok r, p') (same, _, _, settled) = (same, settled)
  Embedded-Settled s p (raise e, p') h = h

  Stored-Settled :
      (s : Settings) (r : Outcome (Ref VectorIndex) × Process X)
      → Stored s r
      → IsCached s (store_answer r.0) × IsSettled s r.1
  Stored-Settled s (ok r, p') h = h
  Stored-Settled s (raise e, p') h = h

  changed :
      (s : Settings) (p : Process X) (x : X)
      → IsSettled s p
      → IsSettled s (record p { outside = x })
  changed s p x (nothing_made c e v) = nothing_made c e v
  changed s p x (embedder_made c e v) = embedder_made c e v
  changed s p x (both_made c e v) = both_made c e v

  -- In whatever order a settled process, such as a new one, asks for its embedder and its vector store,
  -- and whatever changes outside of it: every answer is one and the same embedder, the one that the
  -- settings choose, or one and the same vector store, the one that they choose for its dimension; or
  -- it is an exception of a constructor. No object is constructed twice: in the end there is at most
  -- one of either kind.
  pub answers-IsCached :
      (s : Settings) (es : List (Event X)) (p : Process X)
      → IsSettled s p
      → All (IsCached s) (answers s es p).0 × IsSettled s (answers s es p).1
  answers-IsCached s [] p h = (tt, h)
  answers-IsCached s (ask_embedder ∷ es) p h =
      let (a, k) =
        Embedded-Settled s p (get_embedder construct s p) (get_embedder-Embedded s p h) in
      let (rest, last) = answers-IsCached s es (get_embedder construct s p).1 k in ((a, rest), last)
  answers-IsCached s (ask_store ∷ es) p h =
      let (a, k) = Stored-Settled s (get_store construct s p) (get_store-Stored s p h) in
      let (rest, last) = answers-IsCached s es (get_store construct s p).1 k in ((a, rest), last)
  answers-IsCached s (change f ∷ es) p h =
      answers-IsCached s es (record p { outside = f p.outside }) (changed s p (f p.outside) h)
