-- ===== src/Python/Bisect.antt =====
-- `bisect.bisect_right`, the binary search by which the hash ring looks up a key.
use legallens.Prelude.{
  ℕ, zero, suc, ◌+◌, ◌/◌, ◌≤◌, ◌<◌, ◌≡◌, refl, Bool, true, false, Option, none, some, List, [], ◌∷◌,
  arith, ltb, leb, length, get_elem?, All, if◌then◌else◌,
}
use legallens.Prelude.Sorting.{IsSorted}

-- `x < a[mid]`; the search reads no index out of range.
abbrev is_above : ℕ → Option ℕ → Bool
is_above x none = false
is_above x (some y) = ltb x y

-- `while lo < hi`. The interval shrinks in every round, so its length is fuel enough.
bisect_loop : ℕ → List ℕ → ℕ → ℕ → ℕ → ℕ
bisect_loop zero xs x lo hi = lo
bisect_loop (suc fuel) xs x lo hi =
    let mid = (lo + hi) / 2 in
    let left = bisect_loop fuel xs x lo mid in
    let right = bisect_loop fuel xs x (mid + 1) hi in
    if ltb lo hi then (if is_above x (get_elem? xs mid) then left else right) else lo

unfoldable pub bisect_right : List ℕ → ℕ → ℕ
unfolding bisect_loop
bisect_right xs x = bisect_loop (length xs) xs x 0 (length xs)

-- How many entries are at most `x`.
abbrev pub count_le : ℕ → List ℕ → ℕ
count_le x [] = 0
count_le x (y ∷ ys) = if leb y x then suc (count_le x ys) else count_le x ys

pub count_le_of_above :
    (x y : ℕ) (ys : List ℕ) → x < y → All (λ z. leb y z ≡ true) ys → count_le x ys ≡ 0
count_le_of_above x y [] h hs = refl
count_le_of_above x y (z ∷ ys) h hs = ground (arith, count_le_of_above x y ys h hs.1)

pub count_le-le-length : (x : ℕ) (xs : List ℕ) → count_le x xs ≤ length xs
count_le-le-length x [] = omega arith
count_le-le-length x (y ∷ ys) = ground (arith, count_le-le-length x ys)

is_above-count_le :
    (x : ℕ) (xs : List ℕ) (i : ℕ)
    → IsSorted leb xs
    → i < length xs
    → is_above x (get_elem? xs i) ≡ leb (count_le x xs) i
is_above-count_le x [] i s h = absurd (omega arith)
is_above-count_le x (y ∷ ys) zero s h =
    ground (arith, λ (p : x < y). count_le_of_above x y ys p s.0)
is_above-count_le x (y ∷ ys) (suc i) s h =
    ground (arith, is_above-count_le x ys i s.1, λ (p : x < y). count_le_of_above x y ys p s.0)

bisect_loop-count_le :
    (fuel : ℕ) (xs : List ℕ) (x lo hi : ℕ)
    → IsSorted leb xs
    → lo ≤ count_le x xs
    → count_le x xs ≤ hi
    → hi ≤ length xs
    → hi ≤ lo + fuel
    → bisect_loop fuel xs x lo hi ≡ count_le x xs
unfolding bisect_loop
bisect_loop-count_le zero xs x lo hi s a b c d = omega arith
bisect_loop-count_le (suc fuel) xs x lo hi s a b c d = ground (
  arith,
  is_above-count_le x xs ((lo + hi) / 2) s,
  bisect_loop-count_le fuel xs x lo ((lo + hi) / 2) s,
  bisect_loop-count_le fuel xs x ((lo + hi) / 2 + 1) hi s,
)

-- On an ascending list the binary search returns the number of entries that are at most `x`.
pub bisect_right-count_le :
    (xs : List ℕ) (x : ℕ) → IsSorted leb xs → bisect_right xs x ≡ count_le x xs
unfolding bisect_right
bisect_right-count_le xs x s =
    bisect_loop-count_le (length xs) xs x 0 (length xs) s (omega arith) (count_le-le-length x xs)
      (omega arith) (omega arith)
