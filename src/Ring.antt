-- ===== src/Ring.antt =====
pub mod Owner
pub mod Nodes
pub mod Routing
pub mod Membership
pub mod Replicas
pub mod Samples
mod Tests
-- workers/hash_ring.py: `ConsistentHashRing`.
-- `md5_hexdigest` stands for `hashlib.md5(bytes).hexdigest()`.
use legallens.Prelude.{
  ℕ, Bool, true, false, List, [], ◌∷◌, ◌++◌, Text, codes, text_eq, nat_eq, Option, none, some,
  Outcome, ok, ◌>>=◌, leb, nat_beq, length, range_from, if◌then◌else◌, get_at, get_item, is_empty,
  set_of, text_leb,
}
use legallens.Prelude.Dict.{Dict, keys, values, insert, erase}
use legallens.Prelude.Sorting.{sorted}
use legallens.Python.Bisect.{bisect_right}
use legallens.Python.Encoding.{encode_utf8, decimal, int_16}

pub record Ring : Type 0 where
  pub virtual_nodes : ℕ
  pub ring : Dict ℕ Text
  pub sorted_hashes : List ℕ

-- `ConsistentHashRing(virtual_nodes)`
unfoldable pub init : ℕ → Ring
init n = record { virtual_nodes = n; ring = []; sorted_hashes = [] }

-- f"{worker_id}#{i}"
unfoldable pub vnode_label : Text → ℕ → Text
vnode_label worker_id i = worker_id ++ codes "#" ++ decimal i

-- Every method that changes the dict ends by sorting its keys anew.
unfoldable pub rebuild : Ring → Dict ℕ Text → Ring
rebuild r d = record r { ring = d; sorted_hashes = sorted leb (keys d) }

-- `workers()` and `__len__()`
unfoldable pub workers : Ring → List Text
workers r = sorted text_leb (set_of (values r.ring))

unfoldable pub size : Ring → ℕ
size r = length (set_of (values r.ring))

module _ (md5_hexdigest : List ℕ → Text) where
  -- `_hash`
  unfoldable pub hash_key : Text → ℕ
  hash_key key = int_16 (md5_hexdigest (encode_utf8 key))

  unfoldable pub vnode_hash : Text → ℕ → ℕ
  vnode_hash worker_id i = hash_key (vnode_label worker_id i)

  -- The loop of `add_worker`, and the inner loop of `replace_workers`.
  unfoldable pub put_nodes : Text → List ℕ → Dict ℕ Text → Dict ℕ Text
  put_nodes worker_id [] d = d
  put_nodes worker_id (i ∷ rest) d =
      put_nodes worker_id rest (insert (vnode_hash worker_id i) worker_id d)

  -- The loop of `remove_worker`.
  unfoldable pub drop_nodes : Text → List ℕ → Dict ℕ Text → Dict ℕ Text
  drop_nodes worker_id [] d = d
  drop_nodes worker_id (i ∷ rest) d = drop_nodes worker_id rest (erase (vnode_hash worker_id i) d)

  unfoldable pub add_worker : Ring → Text → Ring
  add_worker r worker_id = rebuild r (put_nodes worker_id (range_from 0 r.virtual_nodes) r.ring)

  unfoldable pub remove_worker : Ring → Text → Ring
  remove_worker r worker_id = rebuild r (drop_nodes worker_id (range_from 0 r.virtual_nodes) r.ring)

  -- The outer loop of `replace_workers`, over `n` virtual nodes for each worker.
  unfoldable pub put_workers : ℕ → List Text → Dict ℕ Text → Dict ℕ Text
  put_workers n [] d = d
  put_workers n (wid ∷ rest) d = put_workers n rest (put_nodes wid (range_from 0 n) d)

  unfoldable pub replace_workers : Ring → List Text → Ring
  replace_workers r worker_ids = rebuild r (put_workers r.virtual_nodes worker_ids [])

  -- The owner of the first hash behind `h`, or of the first one of all.
  unfoldable pub owner_at : Ring → ℕ → Outcome (Option Text)
  owner_at r h = do
    let idx = bisect_right r.sorted_hashes h
    s ← get_at r.sorted_hashes (if nat_beq idx (length r.sorted_hashes) then 0 else idx)
    w ← get_item s r.ring
    ok (some w)

  unfoldable pub get_worker : Ring → Text → Outcome (Option Text)
  unfolding owner_at
  get_worker r key = if is_empty r.sorted_hashes then ok none else owner_at r (hash_key key)
