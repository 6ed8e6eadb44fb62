-- ===== src/Ring/Replicas.antt =====
-- `replace_workers`: every process that sees the same workers routes alike.
use legallens.Prelude.{
  ℕ, zero, suc, ◌<◌, ◌≡◌, ◌≢◌, ◌↔◌, refl, ap, sym, ◌∙◌, true, inl, inr, List, [], ◌∷◌, Option, none,
  some, Text, nat_eq, text_eq, text_leb, arith, contains, length, Option-cases, range_from,
  if◌then◌else◌, set_of, contains-set_of,
}
use legallens.Prelude.Dict.{
  Dict, values, lookup, lookup-nil, contains-values, lookup_of_contains-values,
}
use legallens.Prelude.Sorting.{contains-sorted, length-sorted}
use legallens.Ring.{
  Ring, rebuild, vnode_hash, put_nodes, put_workers, replace_workers, get_worker, workers, size,
}
use legallens.Ring.Owner.{IsValid}
use legallens.Ring.Nodes.{nodes, lookup-put_nodes, methods-IsValid}
use legallens.Ring.Routing.{get_worker-congr}

module _ (md5_hexdigest : List ℕ → Text) where
  -- No two of the workers have a hash in common.
  abbrev pub NoCollision : ℕ → List Text → Type 0
  NoCollision n ws =
      (u v : Text) (k : ℕ)
      → contains ws u ≡ true
      → contains ws v ≡ true
      → contains (nodes md5_hexdigest u n) k ≡ true
      → contains (nodes md5_hexdigest v n) k ≡ true
      → u ≡ v

  -- The last of the workers that has the hash.
  pub last_owner : ℕ → List Text → ℕ → Option Text
  last_owner n [] k = none
  last_owner n (w ∷ ws) k = elim (last_owner n ws k) [
    | some u ↦ some u
    | none ↦ if contains (nodes md5_hexdigest w n) k then some w else none
  ]

  or_else : Option Text → Option Text → Option Text
  or_else (some u) o = some u
  or_else none o = o

  lookup-put_workers :
      (n : ℕ) (ws : List Text) (d : Dict ℕ Text) (k : ℕ)
      → lookup k (put_workers md5_hexdigest n ws d) ≡ or_else (last_owner n ws k) (lookup k d)
  unfolding put_workers last_owner or_else
  lookup-put_workers n [] d k = refl
  lookup-put_workers n (w ∷ ws) d k = ground (
    arith,
    lookup-put_workers n ws (put_nodes md5_hexdigest w (range_from 0 n) d) k,
    lookup-put_nodes md5_hexdigest w (range_from 0 n) d k,
  )

  pub lookup-replace_workers :
      (r : Ring) (ws : List Text) (k : ℕ)
      → lookup k (replace_workers md5_hexdigest r ws).ring ≡ last_owner r.virtual_nodes ws k
  unfolding replace_workers rebuild or_else
  lookup-replace_workers r ws k =
      ground (arith, lookup-put_workers r.virtual_nodes ws [] k, lookup-nil {V = Text} k)

  pub contains_of_last_owner :
      (n : ℕ) (ws : List Text) (k : ℕ) (u : Text)
      → last_owner n ws k ≡ some u
      → (contains ws u ≡ true) × (contains (nodes md5_hexdigest u n) k ≡ true)
  unfolding last_owner
  contains_of_last_owner n [] k u h = absurd (ground arith)
  contains_of_last_owner n (w ∷ ws) k u h = ground (arith, contains_of_last_owner n ws k u)

  last_owner_of_contains :
      (n : ℕ) (ws : List Text) (k : ℕ) (u : Text)
      → contains ws u ≡ true
      → contains (nodes md5_hexdigest u n) k ≡ true
      → last_owner n ws k ≢ none
  unfolding last_owner
  last_owner_of_contains n [] k u m h = absurd (ground arith)
  last_owner_of_contains n (w ∷ ws) k u m h = ground (arith, last_owner_of_contains n ws k u)

  -- Without collisions the owner of a hash is the one worker that has it.
  last_owner_unique :
      (n : ℕ) (ws : List Text) (k : ℕ) (u : Text)
      → NoCollision n ws
      → contains ws u ≡ true
      → contains (nodes md5_hexdigest u n) k ≡ true
      → last_owner n ws k ≡ some u
  last_owner_unique n ws k u free m h = elim (Option-cases (last_owner n ws k)) [
    | inl nobody ↦ absurd (last_owner_of_contains n ws k u m h nobody)
    | inr (v, found) ↦
        let (mv, hv) = contains_of_last_owner n ws k v found in
        found ∙ ap some (free v u k mv m hv h)
  ]

  last_owner-congr :
      (n : ℕ) (ws ws' : List Text) (k : ℕ)
      → NoCollision n ws
      → ((u : Text) → contains ws u ≡ contains ws' u)
      → last_owner n ws k ≡ last_owner n ws' k
  last_owner-congr n ws ws' k free same = elim (Option-cases (last_owner n ws' k)) [
    | inl nobody ↦ elim (Option-cases (last_owner n ws k)) [
      | inl nobody' ↦ nobody' ∙ sym nobody
      | inr (u, found) ↦
          let (m, h) = contains_of_last_owner n ws k u found in
          absurd (last_owner_of_contains n ws' k u (sym (same u) ∙ m) h nobody)
    ]
    | inr (u, found) ↦
        let (m, h) = contains_of_last_owner n ws' k u found in
        last_owner_unique n ws k u free (same u ∙ m) h ∙ sym found
  ]

  -- Two rings rebuilt from lists with the same workers route every key alike, whatever they held
  -- before and in whatever order and how often the lists name the workers, if no two workers
  -- have a hash in common.
  pub replace_workers-routes :
      (r s : Ring) (ws ws' : List Text) (key : Text)
      → IsValid r
      → IsValid s
      → r.virtual_nodes ≡ s.virtual_nodes
      → NoCollision r.virtual_nodes ws
      → ((u : Text) → contains ws u ≡ contains ws' u)
      → get_worker md5_hexdigest (replace_workers md5_hexdigest r ws) key
        ≡ get_worker md5_hexdigest (replace_workers md5_hexdigest s ws') key
  replace_workers-routes r s ws ws' key v w same_n free same =
      get_worker-congr md5_hexdigest (replace_workers md5_hexdigest r ws)
        (replace_workers md5_hexdigest s ws') key (methods-IsValid md5_hexdigest r [] ws v).2.0
        (methods-IsValid md5_hexdigest s [] ws' w).2.0
        (λ k.
          lookup-replace_workers r ws k
          ∙ last_owner-congr r.virtual_nodes ws ws' k free same
          ∙ ap (λ n. last_owner n ws' k) same_n
          ∙ sym (lookup-replace_workers s ws' k))

  contains-workers : (r : Ring) (u : Text) → contains (workers r) u ≡ contains (values r.ring) u
  unfolding workers
  contains-workers r u =
      contains-sorted text_leb (set_of (values r.ring)) u ∙ contains-set_of (values r.ring) u

  -- After `replace_workers(ws)` the ring's `workers()` are exactly those of `ws`, if there is at
  -- least one virtual node for each and no two workers have a hash in common.
  pub contains-workers-replace_workers :
      (r : Ring) (ws : List Text) (u : Text)
      → IsValid r
      → 0 < r.virtual_nodes
      → NoCollision r.virtual_nodes ws
      → (contains (workers (replace_workers md5_hexdigest r ws)) u ≡ true) ↔ (contains ws u ≡ true)
  contains-workers-replace_workers r ws u v pos free = (
    λ m.
        let (k, found) =
          lookup_of_contains-values r'.ring u v'.nodup (sym (contains-workers r' u) ∙ m) in
        (contains_of_last_owner r.virtual_nodes ws k u
          (sym (lookup-replace_workers r ws k) ∙ found)).0,
    λ m.
        contains-workers r' u
        ∙ contains-values first r'.ring (
            lookup-replace_workers r ws first
            ∙ last_owner_unique r.virtual_nodes ws first u free m (has_first r.virtual_nodes pos)),
  )
    where
      r' : Ring
      r' = replace_workers md5_hexdigest r ws

      v' : IsValid r'
      v' = (methods-IsValid md5_hexdigest r [] ws v).2.0

      first : ℕ
      first = vnode_hash md5_hexdigest u 0

      has_first : (n : ℕ) → 0 < n → contains (nodes md5_hexdigest u n) first ≡ true
      has_first zero h = absurd (omega arith)
      has_first (suc n) h = ground arith

-- `len(ring)` is the length of `ring.workers()`.
pub size-length-workers : (r : Ring) → size r ≡ length (workers r)
unfolding size workers
size-length-workers r = sym (length-sorted text_leb (set_of (values r.ring)))
