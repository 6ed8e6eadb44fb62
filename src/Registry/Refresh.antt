-- ===== src/Registry/Refresh.antt =====
-- `refresh_ring`: the dispatcher routes to live workers, and every dispatcher routes alike.
use legallens.Prelude.{ℕ, ◌≡◌, ◌∙◌, sym, true, ok, some, Text, List, text_eq, codes}
use legallens.Redis.{Redis}
use legallens.Ring.{Ring, replace_workers, get_worker}
use legallens.Ring.Owner.{IsValid}
use legallens.Ring.Nodes.{methods-IsValid}
use legallens.Ring.Routing.{Owns-of_get_worker}
use legallens.Ring.Replicas.{
  NoCollision, replace_workers-routes, lookup-replace_workers, contains_of_last_owner,
}
use legallens.Registry.{hb_key, list_workers, refresh_ring}
use legallens.Registry.Beats.{contains-list_workers}

module _ (redis : Redis) (md5_hexdigest : List ℕ → Text) where
  open redis use {Store, live}

  pub refresh_ring-IsValid :
      (r : Ring) (s : Store) (now : ℕ)
      → IsValid r
      → IsValid (refresh_ring redis md5_hexdigest r s now).0
  unfolding refresh_ring
  refresh_ring-IsValid r s now v =
      (methods-IsValid md5_hexdigest r (codes "") (list_workers redis s now) v).2.0

  -- Right after `refresh_ring` every key that has an owner is routed to a worker whose heartbeat
  -- key is there.
  pub refresh_ring-live :
      (r : Ring) (s : Store) (now : ℕ) (key w : Text)
      → IsValid r
      → get_worker md5_hexdigest (refresh_ring redis md5_hexdigest r s now).0 key ≡ ok (some w)
      → live s now (hb_key w) ≡ true
  unfolding refresh_ring
  refresh_ring-live r s now key w v e =
      let ws = list_workers redis s now in
      let v' = (methods-IsValid md5_hexdigest r (codes "") ws v).2.0 in
      let (k, _, found) =
        Owns-of_get_worker md5_hexdigest (replace_workers md5_hexdigest r ws) key w v' e in
      let (m, _) =
        contains_of_last_owner md5_hexdigest r.virtual_nodes ws k w
          (sym (lookup-replace_workers md5_hexdigest r ws k) ∙ found) in
      sym (contains-list_workers redis s now w) ∙ m

  -- Two processes that refresh from the same heartbeat keys route every key alike, whatever
  -- their rings held before, if no two live workers have a hash in common.
  pub refresh_ring-agree :
      (r r' : Ring) (s s' : Store) (now now' : ℕ) (key : Text)
      → IsValid r
      → IsValid r'
      → r.virtual_nodes ≡ r'.virtual_nodes
      → NoCollision md5_hexdigest r.virtual_nodes (list_workers redis s now)
      → ((u : Text) → live s now (hb_key u) ≡ live s' now' (hb_key u))
      → get_worker md5_hexdigest (refresh_ring redis md5_hexdigest r s now).0 key
        ≡ get_worker md5_hexdigest (refresh_ring redis md5_hexdigest r' s' now').0 key
  unfolding refresh_ring
  refresh_ring-agree r r' s s' now now' key v v' same_n free same =
      replace_workers-routes md5_hexdigest r r' (list_workers redis s now)
        (list_workers redis s' now') key v v' same_n free
        (λ u.
          contains-list_workers redis s now u
          ∙ same u
          ∙ sym (contains-list_workers redis s' now' u))
