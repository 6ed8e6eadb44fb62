-- ===== src/Ring/Nodes.antt =====
-- The loops over virtual nodes: what they leave in the dict, and that the ring stays valid.
use mathlib.Core.List.{Perm}
use legallens.Prelude.{
  ℕ, ◌≡◌, refl, List, [], ◌∷◌, none, some, Text, nat_eq, text_eq, arith, leb, contains, map,
  range_from, if◌then◌else◌,
}
use legallens.Prelude.Dict.{
  Dict, keys, lookup, lookup-insert, lookup-erase, insert, erase, NodupKeys, insert-NodupKeys,
  erase-NodupKeys,
}
use legallens.Prelude.Sorting.{sorted-Perm}
use legallens.Ring.{
  Ring, init, rebuild, vnode_hash, put_nodes, drop_nodes, put_workers, add_worker, remove_worker,
  replace_workers,
}
use legallens.Ring.Owner.{IsValid, rebuild-IsValid}

pub init-IsValid : (n : ℕ) → IsValid (init n)
unfolding init lookup
init-IsValid n = record { ascending = tt; same_keys = λ k. refl; nodup = tt }

-- The sorted list holds the keys of the dict, each as often as the dict does.
abbrev pub HoldsKeys : Ring → Type 0
HoldsKeys r = Perm r.sorted_hashes (keys r.ring)

module _ (md5_hexdigest : List ℕ → Text) where
  -- The hashes at which `add_worker` puts `w`.
  abbrev pub nodes : Text → ℕ → List ℕ
  nodes w n = map (vnode_hash md5_hexdigest w) (range_from 0 n)

  pub lookup-put_nodes :
      (w : Text) (is : List ℕ) (d : Dict ℕ Text) (k : ℕ)
      → lookup k (put_nodes md5_hexdigest w is d)
        ≡ (if contains (map (vnode_hash md5_hexdigest w) is) k then some w else lookup k d)
  unfolding put_nodes
  lookup-put_nodes w [] d k = refl
  lookup-put_nodes w (i ∷ is) d k = ground (
    arith,
    lookup-put_nodes w is (insert (vnode_hash md5_hexdigest w i) w d) k,
    lookup-insert k (vnode_hash md5_hexdigest w i) w d,
  )

  pub lookup-drop_nodes :
      (w : Text) (is : List ℕ) (d : Dict ℕ Text) (k : ℕ)
      → lookup k (drop_nodes md5_hexdigest w is d)
        ≡ (if contains (map (vnode_hash md5_hexdigest w) is) k then none else lookup k d)
  unfolding drop_nodes
  lookup-drop_nodes w [] d k = refl
  lookup-drop_nodes w (i ∷ is) d k = ground (
    arith,
    lookup-drop_nodes w is (erase (vnode_hash md5_hexdigest w i) d) k,
    lookup-erase k (vnode_hash md5_hexdigest w i) d,
  )

  put_nodes-NodupKeys :
      (w : Text) (is : List ℕ) (d : Dict ℕ Text)
      → NodupKeys d
      → NodupKeys (put_nodes md5_hexdigest w is d)
  unfolding put_nodes
  put_nodes-NodupKeys w [] d u = u
  put_nodes-NodupKeys w (i ∷ is) d u = put_nodes-NodupKeys w is _ (insert-NodupKeys _ w d u)

  drop_nodes-NodupKeys :
      (w : Text) (is : List ℕ) (d : Dict ℕ Text)
      → NodupKeys d
      → NodupKeys (drop_nodes md5_hexdigest w is d)
  unfolding drop_nodes
  drop_nodes-NodupKeys w [] d u = u
  drop_nodes-NodupKeys w (i ∷ is) d u = drop_nodes-NodupKeys w is _ (erase-NodupKeys _ d u)

  put_workers-NodupKeys :
      (n : ℕ) (ws : List Text) (d : Dict ℕ Text)
      → NodupKeys d
      → NodupKeys (put_workers md5_hexdigest n ws d)
  unfolding put_workers
  put_workers-NodupKeys n [] d u = u
  put_workers-NodupKeys n (w ∷ ws) d u =
      put_workers-NodupKeys n ws _ (put_nodes-NodupKeys w (range_from 0 n) d u)

  -- `add_worker`, `remove_worker` and `replace_workers` keep a ring valid: the sorted list is in order,
  -- and it holds exactly the keys of the dict, each of them once.
  pub methods-IsValid :
      (r : Ring) (w : Text) (ws : List Text)
      → IsValid r
      → (IsValid (add_worker md5_hexdigest r w) × HoldsKeys (add_worker md5_hexdigest r w))
        × (IsValid (remove_worker md5_hexdigest r w) × HoldsKeys (remove_worker md5_hexdigest r w))
        × (IsValid (replace_workers md5_hexdigest r ws)
            × HoldsKeys (replace_workers md5_hexdigest r ws))
  unfolding add_worker remove_worker replace_workers rebuild
  methods-IsValid r w ws v =
      let added = put_nodes-NodupKeys w (range_from 0 r.virtual_nodes) r.ring v.nodup in
      let dropped = drop_nodes-NodupKeys w (range_from 0 r.virtual_nodes) r.ring v.nodup in
      let replaced = put_workers-NodupKeys r.virtual_nodes ws [] tt in
      (
        (rebuild-IsValid r _ added, sorted-Perm leb _),
        (rebuild-IsValid r _ dropped, sorted-Perm leb _),
        (rebuild-IsValid r _ replaced, sorted-Perm leb _),
      )

  pub lookup-add_worker :
      (r : Ring) (w : Text) (k : ℕ)
      → lookup k (add_worker md5_hexdigest r w).ring
        ≡ (if contains (nodes w r.virtual_nodes) k then some w else lookup k r.ring)
  unfolding add_worker rebuild
  lookup-add_worker r w k = lookup-put_nodes w (range_from 0 r.virtual_nodes) r.ring k

  pub lookup-remove_worker :
      (r : Ring) (w : Text) (k : ℕ)
      → lookup k (remove_worker md5_hexdigest r w).ring
        ≡ (if contains (nodes w r.virtual_nodes) k then none else lookup k r.ring)
  unfolding remove_worker rebuild
  lookup-remove_worker r w k = lookup-drop_nodes w (range_from 0 r.virtual_nodes) r.ring k

  pub lookup-remove_worker-add_worker :
      (r : Ring) (w : Text) (k : ℕ)
      → lookup k (remove_worker md5_hexdigest (add_worker md5_hexdigest r w) w).ring
        ≡ (if contains (nodes w r.virtual_nodes) k then none else lookup k r.ring)
  unfolding add_worker remove_worker rebuild
  lookup-remove_worker-add_worker r w k =
      let is = range_from 0 r.virtual_nodes in
      ground (
        arith,
        lookup-drop_nodes w is (put_nodes md5_hexdigest w is r.ring) k,
        lookup-put_nodes w is r.ring k,
      )
