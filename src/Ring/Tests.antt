-- ===== src/Ring/Tests.antt =====
-- The hash ring on a small digest, and the theorems at concrete rings.
use legallens.Prelude.{
  ℕ, ◌≡◌, refl, sym, ◌∙◌, true, ◌⊎◌, [], ◌∷◌, none, some, Text, codes, nat_eq, text_eq, ok, arith,
  contains,
}
use legallens.Prelude.Dict.{lookup}
use legallens.Python.Encoding.{encode_utf8, decimal, int_16}
use legallens.Ring.{
  init, hash_key, add_worker, remove_worker, replace_workers, get_worker, workers, size,
}
use legallens.Ring.Samples.{
  plain_digest, two, program, two-IsValid, pair, two_nodes, pair-NoCollision,
}
use legallens.Ring.Owner.{IsValid, Owns}
use legallens.Ring.Nodes
use legallens.Ring.Nodes.{nodes}
use legallens.Ring.Routing
use legallens.Ring.Membership
use legallens.Ring.Replicas

-- "a" lies in front of b's nodes, "c" in front of d's, and "e" wraps around to the first.
routes :
    (get_worker plain_digest two (codes "a#x") ≡ ok (some (codes "b")))
    × (get_worker plain_digest two (codes "c#x") ≡ ok (some (codes "d")))
    × (get_worker plain_digest two (codes "e#x") ≡ ok (some (codes "b")))
    × (get_worker plain_digest (init 2) (codes "a#x") ≡ ok none)
unfolding program
routes = (refl, refl, refl, refl)

members : (workers two ≡ codes "b" ∷ codes "d" ∷ []) × (size two ≡ 2)
unfolding program
members = (refl, refl)

encodings :
    (decimal 1207 ≡ codes "1207")
    × (int_16 (codes "fF0") ≡ 4080)
    × (encode_utf8 (0xe9 ∷ []) ≡ 0xc3 ∷ 0xa9 ∷ [])
unfolding program
encodings = (refl, refl, refl)

methods-IsValid_example :
    (IsValid (add_worker plain_digest two (codes "a"))
      × Nodes.HoldsKeys (add_worker plain_digest two (codes "a")))
    × (IsValid (remove_worker plain_digest two (codes "a"))
        × Nodes.HoldsKeys (remove_worker plain_digest two (codes "a")))
    × (IsValid (replace_workers plain_digest two (codes "b" ∷ []))
        × Nodes.HoldsKeys (replace_workers plain_digest two (codes "b" ∷ [])))
methods-IsValid_example =
    Nodes.methods-IsValid plain_digest two (codes "a") (codes "b" ∷ []) two-IsValid

get_worker-Owns_example :
    (((k : ℕ) → lookup k two.ring ≡ none) × (get_worker plain_digest two (codes "c#x") ≡ ok none))
    ⊎ ((w : Text) × (get_worker plain_digest two (codes "c#x") ≡ ok (some w))
        × Owns two.ring (hash_key plain_digest (codes "c#x")) w)
get_worker-Owns_example = Routing.get_worker-Owns plain_digest two (codes "c#x") two-IsValid

add_worker-routes_example :
    (get_worker plain_digest (add_worker plain_digest two (codes "a")) (codes "c#x")
      ≡ ok (some (codes "d")))
    ⊎ (get_worker plain_digest (add_worker plain_digest two (codes "a")) (codes "c#x")
        ≡ ok (some (codes "a")))
add_worker-routes_example =
    Membership.add_worker-routes plain_digest two (codes "a") (codes "c#x") (codes "d") two-IsValid
      routes.1

b_owns :
    (k : ℕ) (o : Text)
    → contains (nodes plain_digest (codes "b") two.virtual_nodes) k ≡ true
    → lookup k two.ring ≡ some o
    → o ≡ codes "b"
unfolding program
b_owns k o m h = ground arith

remove_worker-routes_example :
    get_worker plain_digest (remove_worker plain_digest two (codes "b")) (codes "c#x")
    ≡ ok (some (codes "d"))
remove_worker-routes_example =
    Membership.remove_worker-routes plain_digest two (codes "b") (codes "c#x") (codes "d")
      two-IsValid b_owns (ground arith) routes.1

a_fresh :
    (k : ℕ)
    → contains (nodes plain_digest (codes "a") two.virtual_nodes) k ≡ true
    → lookup k two.ring ≡ none
unfolding program
a_fresh k m = ground arith

remove_worker-add_worker_example :
    get_worker plain_digest
      (remove_worker plain_digest (add_worker plain_digest two (codes "a")) (codes "a"))
      (codes "c#x")
    ≡ get_worker plain_digest two (codes "c#x")
remove_worker-add_worker_example =
    Membership.remove_worker-add_worker plain_digest two (codes "a") (codes "c#x") two-IsValid
      a_fresh

init_nodes : (init 2).virtual_nodes ≡ 2
unfolding program
init_nodes = refl

replace_workers-routes_example :
    get_worker plain_digest (replace_workers plain_digest two pair) (codes "c#x")
    ≡ get_worker plain_digest
        (replace_workers plain_digest (init 2) (codes "d" ∷ codes "d" ∷ codes "b" ∷ []))
        (codes "c#x")
replace_workers-routes_example =
    Replicas.replace_workers-routes plain_digest two (init 2) pair
      (codes "d" ∷ codes "d" ∷ codes "b" ∷ []) (codes "c#x") two-IsValid (Nodes.init-IsValid 2)
      (two_nodes ∙ sym init_nodes) pair-NoCollision (λ u. ground arith)
