-- ===== src/Ring/Owner.antt =====
-- The ring's invariant, and the owner of a key said without sorting or searching.
use legallens.Prelude.{
  ℕ, ◌≤◌, ◌<◌, ◌≡◌, ◌∙◌, Bool, true, false, ◌⊎◌, inl, inr, List, [], ◌∷◌, some, Text, nat_eq, ok,
  arith, leb, nat_beq, contains, length, get_elem?, All, is_empty, Bool-cases, subst, Option-cases,
  if◌then◌else◌,
}
use mathlib.Core.Path.{fun_ext}
use legallens.Prelude.Dict.{Dict, keys, lookup, has, contains-keys, NodupKeys}
use legallens.Prelude.Sorting.{contains-sorted, IsOrder, IsSorted, sorted-IsSorted}
use legallens.Python.Bisect.{bisect_right-count_le, count_le, count_le-le-length, count_le_of_above}
use legallens.Ring.{Ring, rebuild, owner_at}

-- The sorted list is in order and holds the keys of the dict, which has each key once.
pub record IsValid (r : Ring) : Type 0 where
  pub ascending : IsSorted leb r.sorted_hashes
  pub same_keys : (k : ℕ) → contains r.sorted_hashes k ≡ has r.ring k
  pub nodup : NodupKeys r.ring

-- `s` is the first of the hashes in `p` behind `h`; where none is, the first of all.
abbrev pub IsSuccessor : (ℕ → Bool) → ℕ → ℕ → Type 0
IsSuccessor p h s =
    (p s ≡ true)
    × ((h < s) × ((k : ℕ) → p k ≡ true → h < k → s ≤ k)
        ⊎ ((k : ℕ) → p k ≡ true → k ≤ h) × ((k : ℕ) → p k ≡ true → s ≤ k))

-- `w` owns the hash `h`: it has put the first virtual node behind it.
abbrev pub Owns : Dict ℕ Text → ℕ → Text → Type 0
Owns d h w = (s : ℕ) × IsSuccessor (has d) h s × (lookup s d ≡ some w)

pub leb-IsOrder : IsOrder leb
leb-IsOrder = record { total = λ a b. ground arith; trans = λ a b c p q. ground arith }

pub rebuild-IsValid : (r : Ring) (d : Dict ℕ Text) → NodupKeys d → IsValid (rebuild r d)
unfolding rebuild
rebuild-IsValid r d u = record {
  ascending = sorted-IsSorted leb leb-IsOrder (keys d);
  same_keys = λ k. contains-sorted leb (keys d) k ∙ contains-keys d k;
  nodup = u;
}

IsSuccessor-unique : (p : ℕ → Bool) (h s t : ℕ) → IsSuccessor p h s → IsSuccessor p h t → s ≡ t
IsSuccessor-unique p h s t (ps, inl (hs, s_least)) (pt, inl (ht, t_least)) =
    omega (arith, s_least t pt ht, t_least s ps hs)
IsSuccessor-unique p h s t (ps, inl (hs, _)) (pt, inr (below, _)) =
    absurd (omega (arith, below s ps))
IsSuccessor-unique p h s t (ps, inr (below, _)) (pt, inl (ht, _)) =
    absurd (omega (arith, below t pt))
IsSuccessor-unique p h s t (ps, inr (_, s_least)) (pt, inr (_, t_least)) =
    omega (arith, s_least t pt, t_least s ps)

-- A hash has one owner.
pub Owns-unique : (d : Dict ℕ Text) (h : ℕ) (v w : Text) → Owns d h v → Owns d h w → v ≡ w
Owns-unique d h v w (s, ps, es) (t, pt, et) = cc (IsSuccessor-unique (has d) h s t ps pt, es, et)

le_of_contains :
    (x : ℕ) (xs : List ℕ) → All (λ y. leb x y ≡ true) xs → (k : ℕ) → contains xs k ≡ true → x ≤ k
le_of_contains x [] a k m = absurd (ground arith)
le_of_contains x (y ∷ ys) a k m = ground (arith, le_of_contains x ys a.1 k)

le_of_count_le :
    (h : ℕ) (xs : List ℕ) → count_le h xs ≡ length xs → (k : ℕ) → contains xs k ≡ true → k ≤ h
le_of_count_le h [] e k m = absurd (ground arith)
le_of_count_le h (y ∷ ys) e k m = ground (
  arith,
  le_of_count_le h ys,
  count_le-le-length h ys,
  le_of_count_le h ys (ground (arith, count_le-le-length h ys)) k,
)

-- What the search picks from an ascending list `xs`: the hash at its index.
abbrev index_of : List ℕ → ℕ → ℕ
index_of xs h = if nat_beq (count_le h xs) (length xs) then 0 else count_le h xs

-- The first entry above `h` stands behind those that are at most `h`.
get_elem?-count_le :
    (h : ℕ) (xs : List ℕ)
    → IsSorted leb xs
    → count_le h xs < length xs
    → (s : ℕ) × (get_elem? xs (count_le h xs) ≡ some s)
      × (contains xs s ≡ true)
      × (h < s)
      × ((k : ℕ) → contains xs k ≡ true → h < k → s ≤ k)
get_elem?-count_le h [] a e = absurd (omega arith)
get_elem?-count_le h (y ∷ ys) a e = elim (Bool-cases (leb y h)) [
  | inl le ↦
      let (s, at, m, lt, least) = get_elem?-count_le h ys a.1 (ground arith) in
      (s, rw le at, ground arith, lt, λ k mk hk. ground (arith, least k))
  | inr gt ↦ (
    y,
    rw (gt, count_le_of_above h y ys (ground arith) a.0),
    ground arith,
    ground arith,
    λ k mk hk. ground (arith, le_of_contains y ys a.0 k),
  )
]

index_of-IsSuccessor :
    (h : ℕ) (xs : List ℕ)
    → IsSorted leb xs
    → is_empty xs ≡ false
    → (s : ℕ) × (get_elem? xs (index_of xs h) ≡ some s) × IsSuccessor (contains xs) h s
index_of-IsSuccessor h [] a ne = absurd (ground arith)
index_of-IsSuccessor h (y ∷ ys) a ne =
    elim (Bool-cases (nat_beq (count_le h (y ∷ ys)) (length (y ∷ ys)))) [
      | inl end ↦ (
        y,
        rw end,
        (
          ground arith,
          inr (
            le_of_count_le h (y ∷ ys) (ground arith),
            λ k mk. ground (arith, le_of_contains y ys a.0 k),
          ),
        ),
      )
      | inr found ↦
          let (s, at, m, lt, least) =
            get_elem?-count_le h (y ∷ ys) a (ground (arith, count_le-le-length h (y ∷ ys))) in
          (s, rw found at, (m, inl (lt, least)))
    ]

IsSuccessor-congr :
    (p q : ℕ → Bool) (h s : ℕ) → ((k : ℕ) → p k ≡ q k) → IsSuccessor p h s → IsSuccessor q h s
IsSuccessor-congr p q h s e = subst (λ f. IsSuccessor f h s) (fun_ext e)

module _ (md5_hexdigest : List ℕ → Text) where
  -- On a valid ring that is not empty the search never leaves the list, and finds the owner.
  pub owner_at-Owns :
      (r : Ring) (h : ℕ)
      → IsValid r
      → is_empty r.sorted_hashes ≡ false
      → (w : Text) × (owner_at md5_hexdigest r h ≡ ok (some w)) × Owns r.ring h w
  unfolding owner_at
  owner_at-Owns r h v ne =
      let (s, at, is_next) = index_of-IsSuccessor h r.sorted_hashes v.ascending ne in
      let next =
        IsSuccessor-congr (contains r.sorted_hashes) (has r.ring) h s v.same_keys is_next in
      elim (Option-cases (lookup s r.ring)) [
        | inl missing ↦ absurd (ground (arith, next.0))
        | inr (w, found) ↦ (
          w,
          rw (bisect_right-count_le r.sorted_hashes h v.ascending, at, found),
          (s, next, found),
        )
      ]
