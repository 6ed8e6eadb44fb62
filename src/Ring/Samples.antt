-- ===== src/Ring/Samples.antt =====
-- A digest without collisions and small rings over it, for the examples.
use legallens.Prelude.{
  ℕ, ◌+◌, ◌-◌, ◌/◌, ◌%◌, ◌≡◌, refl, true, List, [], ◌∷◌, Text, codes, nat_eq, text_eq, text_leb,
  arith, contains, ltb, if◌then◌else◌, set_of,
}
use legallens.Prelude.Dict.{lookup, insert, erase}
use legallens.Prelude.Sorting.{sorted}
use legallens.Python.Bisect.{bisect_right}
use legallens.Python.Encoding.{encode_utf8, decimal, int_16}
use legallens.Ring.{
  Ring, init, rebuild, vnode_label, vnode_hash, hash_key, put_nodes, drop_nodes, put_workers,
  add_worker, remove_worker, replace_workers, owner_at, get_worker, workers, size,
}
use legallens.Ring.Owner.{IsValid}
use legallens.Ring.Nodes
use legallens.Ring.Nodes.{nodes}
use legallens.Ring.Replicas

abbrev pub hex_char : ℕ → ℕ
hex_char n = if ltb n 10 then b'0' + n else b'a' + n - 10

-- Each byte as two hexadecimal digits: a digest without collisions.
abbrev pub plain_digest : List ℕ → Text
plain_digest [] = []
plain_digest (c ∷ s) = hex_char (c / 16) ∷ hex_char (c % 16) ∷ plain_digest s

abbrev pub one : Ring
one = add_worker plain_digest (init 2) (codes "b")

abbrev pub two : Ring
two = add_worker plain_digest one (codes "d")

unfoldable pub program : Unit {0}
unfolding encode_utf8 decimal int_16 bisect_right sorted lookup insert erase nat_eq text_eq text_leb
    set_of init rebuild vnode_label vnode_hash hash_key put_nodes drop_nodes put_workers add_worker
    remove_worker replace_workers owner_at get_worker workers size
program = tt

pub one-IsValid : IsValid one
one-IsValid =
    (Nodes.methods-IsValid plain_digest (init 2) (codes "b") [] (Nodes.init-IsValid 2)).0.0

pub two-IsValid : IsValid two
two-IsValid = (Nodes.methods-IsValid plain_digest one (codes "d") [] one-IsValid).0.0

abbrev pub pair : List Text
pair = codes "b" ∷ codes "d" ∷ []

nodes_disjoint :
    (k : ℕ)
    → contains (nodes plain_digest (codes "b") 2) k ≡ true
    → contains (nodes plain_digest (codes "d") 2) k ≡ true
    → ⊥
unfolding program
nodes_disjoint k m h = ground arith

pub two_nodes : two.virtual_nodes ≡ 2
unfolding program
two_nodes = refl

no_collision : Replicas.NoCollision plain_digest 2 pair
no_collision u v k mu mv hu hv = grind (arith, nodes_disjoint)

pub pair-NoCollision : Replicas.NoCollision plain_digest two.virtual_nodes pair
pair-NoCollision = rw two_nodes no_collision
