-- ===== src/Ring/Membership.antt =====
-- Joining and leaving: which keys `add_worker` and `remove_worker` move.
use legallens.Prelude.{
  ℕ, ◌≡◌, ◌≢◌, ap, sym, ◌∙◌, Bool, true, ◌⊎◌, inl, inr, List, [], none, some, Text, nat_eq, text_eq,
  ok, arith, contains, Bool-cases, is_some,
}
use legallens.Prelude.Dict.{Dict, lookup, has}
use legallens.Ring.{Ring, hash_key, add_worker, remove_worker, get_worker}
use legallens.Ring.Owner.{IsValid, IsSuccessor, Owns, Owns-unique}
use legallens.Ring.Nodes.{
  nodes, lookup-add_worker, lookup-remove_worker, lookup-remove_worker-add_worker, methods-IsValid,
}
use legallens.Ring.Routing.{
  get_worker-Owns, get_worker_of_Owns, Owns-of_get_worker, get_worker-congr,
}

IsSuccessor-sub :
    (p q : ℕ → Bool) (h s : ℕ)
    → ((k : ℕ) → p k ≡ true → q k ≡ true)
    → p s ≡ true
    → IsSuccessor q h s
    → IsSuccessor p h s
IsSuccessor-sub p q h s sub m (_, inl (lt, least)) = (m, inl (lt, λ k mk. least k (sub k mk)))
IsSuccessor-sub p q h s sub m (_, inr (below, least)) =
    (m, inr (λ k mk. below k (sub k mk), λ k mk. least k (sub k mk)))

module _ (md5_hexdigest : List ℕ → Text) where
  -- A hash that is put in takes over only what lies in front of it.
  Owns-put :
      (d d' : Dict ℕ Text) (h : ℕ) (w v : Text)
      → ((k : ℕ) → (lookup k d' ≡ some w) ⊎ (lookup k d' ≡ lookup k d))
      → ((k : ℕ) → has d k ≡ true → has d' k ≡ true)
      → Owns d' h v
      → (v ≡ w) ⊎ Owns d h v
  Owns-put d d' h w v e grows (s, next, at) = elim (e s) [
    | inl new ↦ inl (cc (new, at))
    | inr old ↦
        inr (s, IsSuccessor-sub (has d) (has d') h s grows (cc (next.0, old)) next, sym old ∙ at)
  ]

  add_worker-cases :
      (r : Ring) (w : Text) (k : ℕ)
      → (lookup k (add_worker md5_hexdigest r w).ring ≡ some w)
        ⊎ (lookup k (add_worker md5_hexdigest r w).ring ≡ lookup k r.ring)
  add_worker-cases r w k = elim (Bool-cases (contains (nodes md5_hexdigest w r.virtual_nodes) k)) [
    | inl new ↦ inl (lookup-add_worker md5_hexdigest r w k ∙ rw new)
    | inr old ↦ inr (lookup-add_worker md5_hexdigest r w k ∙ rw old)
  ]

  add_worker_grows :
      (r : Ring) (w : Text) (k : ℕ)
      → has r.ring k ≡ true
      → has (add_worker md5_hexdigest r w).ring k ≡ true
  add_worker_grows r w k h = ground (arith, add_worker-cases r w k)

  -- Adding a worker moves keys only to that worker: whoever owned the key before owns it still,
  -- or the new worker does.
  pub add_worker-routes :
      (r : Ring) (w key u : Text)
      → IsValid r
      → get_worker md5_hexdigest r key ≡ ok (some u)
      → (get_worker md5_hexdigest (add_worker md5_hexdigest r w) key ≡ ok (some u))
        ⊎ (get_worker md5_hexdigest (add_worker md5_hexdigest r w) key ≡ ok (some w))
  add_worker-routes r w key u v e =
      let (s, next, at) = Owns-of_get_worker md5_hexdigest r key u v e in
      elim (get_worker-Owns md5_hexdigest (add_worker md5_hexdigest r w) key
        (methods-IsValid md5_hexdigest r w [] v).0.0) [
          | inl (empty, _) ↦ absurd (ground (arith, add_worker_grows r w s next.0, empty s))
          | inr (x, found, owns) ↦
              elim (Owns-put r.ring (add_worker md5_hexdigest r w).ring (hash_key md5_hexdigest key)
                w x (add_worker-cases r w) (add_worker_grows r w) owns) [
                  | inl new ↦ inr (found ∙ ap (λ y. ok (some y)) new)
                  | inr old ↦
                      let same =
                        Owns-unique r.ring (hash_key md5_hexdigest key) x u old (s, next, at) in
                      inl (found ∙ ap (λ y. ok (some y)) same)
                ]
        ]

  -- No virtual node of `w` stands where another worker's is.
  abbrev pub OwnsItsNodes : Ring → Text → Type 0
  OwnsItsNodes r w =
      (k : ℕ) (o : Text)
      → contains (nodes md5_hexdigest w r.virtual_nodes) k ≡ true
      → lookup k r.ring ≡ some o
      → o ≡ w

  -- Removing a worker moves only its own keys, if no virtual node of it stands where another's is.
  pub remove_worker-routes :
      (r : Ring) (w key u : Text)
      → IsValid r
      → OwnsItsNodes r w
      → u ≢ w
      → get_worker md5_hexdigest r key ≡ ok (some u)
      → get_worker md5_hexdigest (remove_worker md5_hexdigest r w) key ≡ ok (some u)
  remove_worker-routes r w key u v own ne e =
      let (s, next, at) = Owns-of_get_worker md5_hexdigest r key u v e in
      let r' = remove_worker md5_hexdigest r w in
      let kept : lookup s r'.ring ≡ some u = ground (
        arith,
        lookup-remove_worker md5_hexdigest r w s,
        λ (h : contains (nodes md5_hexdigest w r.virtual_nodes) s ≡ true). own s u h at,
      ) in
      let shrinks : (k : ℕ) → has r'.ring k ≡ true → has r.ring k ≡ true =
        λ k h. ground (arith, lookup-remove_worker md5_hexdigest r w k) in
      get_worker_of_Owns md5_hexdigest r' key u (methods-IsValid md5_hexdigest r w [] v).1.0 (
        s,
        IsSuccessor-sub (has r'.ring) (has r.ring) (hash_key md5_hexdigest key) s shrinks
            (ap is_some kept) next,
        kept,
      )

  -- A worker that joins with fresh hashes and leaves again changes no route.
  pub remove_worker-add_worker :
      (r : Ring) (w key : Text)
      → IsValid r
      → ((k : ℕ)
          → contains (nodes md5_hexdigest w r.virtual_nodes) k ≡ true
          → lookup k r.ring ≡ none)
      → get_worker md5_hexdigest (remove_worker md5_hexdigest (add_worker md5_hexdigest r w) w) key
        ≡ get_worker md5_hexdigest r key
  remove_worker-add_worker r w key v fresh =
      let v' = (methods-IsValid md5_hexdigest r w [] v).0.0 in
      get_worker-congr md5_hexdigest (remove_worker md5_hexdigest (add_worker md5_hexdigest r w) w)
        r key (methods-IsValid md5_hexdigest (add_worker md5_hexdigest r w) w [] v').1.0 v
        (λ k. ground (arith, lookup-remove_worker-add_worker md5_hexdigest r w k, fresh k))
