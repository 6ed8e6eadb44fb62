-- ===== src/Prelude/Upserts.antt =====
-- `INSERT ... ON CONFLICT DO UPDATE` on a table that is a dict: what it makes of the value that is
-- there, or of none. A second pass over the same keys replaces the first.
use legallens.Prelude.Tests.{Eq, ◌==◌, contains, if◌then◌else◌}
use legallens.Prelude.Lists.{IsDistinct}
use legallens.Prelude.Dict.{Dict, lookup, insert, has}
use mathlib.Core.Path.{◌≡◌, refl, ap, sym, ◌∙◌}
use mathlib.Core.Bool.{true, false}
use mathlib.Core.Option.{Option, none, some}
use mathlib.Core.List.{List, [], ◌∷◌}
use native.Mathlib.Omega.{arith}

module _ {K V : Type 0} ⦃e : Eq K⦄ where
  unfoldable pub put : K → (Option V → V) → Dict K V → Dict K V
  put k f [] = (k, f none) ∷ []
  put k f ((j, w) ∷ d) = if k == j then (j, f (some w)) ∷ d else (j, w) ∷ put k f d

  unfoldable pub put_all : List (K × (Option V → V)) → Dict K V → Dict K V
  unfolding put
  put_all [] d = d
  put_all ((k, f) ∷ cs) d = put_all cs (put k f d)

  abbrev pub change_keys : List (K × (Option V → V)) → List K
  change_keys [] = []
  change_keys ((k, _) ∷ cs) = k ∷ change_keys cs

  -- The same keys in the same order, and the second change forgets the first.
  abbrev pub Overrides : List (K × (Option V → V)) → List (K × (Option V → V)) → Type 0
  Overrides [] [] = Unit
  Overrides [] (d ∷ ds) = ⊥
  Overrides (c ∷ cs) [] = ⊥
  Overrides ((k, f) ∷ cs) ((j, g) ∷ ds) =
      (k ≡ j) × ((o : Option V) → g (some (f o)) ≡ g o) × Overrides cs ds

  pub insert-put : (k : K) (v : V) (d : Dict K V) → insert k v d ≡ put k (λ _. v) d
  unfolding insert put
  insert-put k v [] = refl
  insert-put k v ((j, w) ∷ d) = ground (arith, insert-put k v d)

  has-put : (k : K) (f : Option V → V) (d : Dict K V) → has (put k f d) k ≡ true
  unfolding put lookup
  has-put k f [] = ground arith
  has-put k f ((j, w) ∷ d) = ground (arith, has-put k f d)

  has-put_other :
      (k : K) (f : Option V → V) (d : Dict K V) (j : K) → has d j ≡ true → has (put k f d) j ≡ true
  unfolding put lookup
  has-put_other k f [] j h = absurd (ground arith)
  has-put_other k f ((i, w) ∷ d) j h = ground (arith, has-put_other k f d j)

  put-put :
      (k : K) (f g : Option V → V) (d : Dict K V)
      → ((o : Option V) → g (some (f o)) ≡ g o)
      → put k g (put k f d) ≡ put k g d
  unfolding put
  put-put k f g [] h = ground (arith, h none)
  put-put k f g ((j, w) ∷ d) h = ground (arith, h (some w), put-put k f g d h)

  pub insert-insert : (k : K) (v w : V) (d : Dict K V) → insert k v (insert k w d) ≡ insert k v d
  unfolding insert
  insert-insert k v w [] = ground arith
  insert-insert k v w ((j, _) ∷ d) = ground (arith, insert-insert k v w d)

  put_comm :
      (k j : K) (f g : Option V → V) (d : Dict K V)
      → has d k ≡ true
      → (k == j) ≡ false
      → put k f (put j g d) ≡ put j g (put k f d)
  unfolding put lookup
  put_comm k j f g [] h n = absurd (ground arith)
  put_comm k j f g ((i, w) ∷ d) h n = ground (arith, put_comm k j f g d)

  put-put_all :
      (k : K) (f : Option V → V) (cs : List (K × (Option V → V))) (d : Dict K V)
      → has d k ≡ true
      → contains (change_keys cs) k ≡ false
      → put k f (put_all cs d) ≡ put_all cs (put k f d)
  unfolding put_all
  put-put_all k f [] d h n = refl
  put-put_all k f ((j, g) ∷ cs) d h n =
      put-put_all k f cs (put j g d) (has-put_other j g d k h) (ground arith)
      ∙ ap (put_all cs) (put_comm k j f g d h (ground arith))

  -- A pass that overrides an earlier one over the same keys, none of which comes twice, leaves
  -- what it would have left without it.
  pub put_all_twice :
      (cs ds : List (K × (Option V → V))) (d : Dict K V)
      → Overrides cs ds
      → IsDistinct (change_keys cs)
      → put_all ds (put_all cs d) ≡ put_all ds d
  unfolding put_all
  put_all_twice [] [] d o u = refl
  put_all_twice [] (_ ∷ ds) d o u = elim o [ ]
  put_all_twice (_ ∷ cs) [] d o u = elim o [ ]
  put_all_twice ((k, f) ∷ cs) ((j, g) ∷ ds) d o u =
      ap (λ i. put_all ds (put i g (put_all cs (put k f d)))) (sym o.0)
      ∙ ap (put_all ds) (put-put_all k g cs (put k f d) (has-put k f d) u.0)
      ∙ put_all_twice cs ds (put k g (put k f d)) o.2 u.1
      ∙ ap (put_all ds) (put-put k f g d o.1)
      ∙ ap (λ i. put_all ds (put i g d)) o.0
