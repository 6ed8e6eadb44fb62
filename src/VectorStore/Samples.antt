-- ===== src/VectorStore/Samples.antt =====
-- A numpy of vectors of one number below 100, for the examples.
use legallens.Prelude.{
  ◌⊎◌, ℕ, ◌*◌, ◌≡◌, refl, true, List, [], ◌∷◌, map, Text, Outcome, ok, raise, value_error, ◌>>=◌,
  ltb, leb, All, arith, if◌then◌else◌,
}
use legallens.Prelude.Sorting.{IsOrder}
use legallens.VectorStore.{Entry, Numpy, Json}

abbrev assign_one : ℕ → Outcome ℕ
assign_one v = if ltb v 100 then ok v else raise value_error

abbrev stack_all : List ℕ → Outcome (List ℕ)
stack_all [] = ok []
stack_all (v ∷ vs) = assign_one v >>= (λ row. stack_all vs >>= (λ rest. ok (row ∷ rest)))

pub assign_one_fits : (v : ℕ) → ltb v 100 ≡ true → assign_one v ≡ ok v
assign_one_fits v h = rw h refl

pub stack_all_fits :
    (vs : List ℕ) → All (λ v. ltb v 100 ≡ true) vs → stack_all vs ≡ ok (map (λ v. v) vs)
stack_all_fits [] h = refl
stack_all_fits (v ∷ vs) h = rw (h.0, stack_all_fits vs h.1) refl

abbrev pub plain_numpy : Numpy ℕ ℕ ℕ (List ℕ)
plain_numpy = record {
  assign = assign_one;
  stack = stack_all;
  matmul = λ rows v. ok (map (λ r. r * v) rows);
  save = λ rows. rows;
  load = λ rows. ok rows;
  higher = λ a b. leb b a;
  fits = λ v. ltb v 100;
  to_row = λ v. v;
  dot = λ r v. r * v;
  assign_fits = assign_one_fits;
  stack_fits = stack_all_fits;
  matmul_fits = λ rows v h. refl;
  load-save = λ rows. refl;
}

abbrev pub plain_json : Json Text (List (Entry Text))
plain_json = record {
  dumps = λ entries. entries;
  loads = λ entries. ok entries;
  loads-dumps = λ entries. refl;
}

leb_total : (a b : ℕ) → (leb b a ≡ true) ⊎ (leb a b ≡ true)
leb_total a b = ground arith

pub higher-IsOrder : IsOrder plain_numpy.higher
higher-IsOrder = record { total = λ a b. leb_total a b; trans = λ a b c h g. ground arith }
