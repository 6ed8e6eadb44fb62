-- ===== src/Monitor/Changes.antt =====
-- What `on_change` is told of: the changes of the membership, and nothing else.
use legallens.Prelude.{
  ℕ, ◌≡◌, inl, inr, refl, sym, true, false, List, [], ◌∷◌, ◌++◌, Text, arith, Bool-cases, text_eq,
}
use legallens.Redis.{Redis}
use legallens.Ring.{Ring}
use legallens.Registry.{list_workers, refresh_ring}
use legallens.Monitor.{same_workers, run}

-- The newest of the lists, where `last` is the one before them.
abbrev pub newest : List Text → List (List Text) → List Text
newest last [] = last
newest last (workers ∷ changes) = newest workers changes

-- Each list differs from the one before it.
abbrev pub IsChanging : List Text → List (List Text) → Type 0
IsChanging last [] = Unit
IsChanging last (workers ∷ changes) =
    (same_workers workers last ≡ false) × IsChanging workers changes

same_workers_sound : (xs ys : List Text) → same_workers xs ys ≡ true → xs ≡ ys
unfolding same_workers
same_workers_sound [] [] h = refl
same_workers_sound [] (y ∷ ys) h = ground arith
same_workers_sound (x ∷ xs) [] h = ground arith
same_workers_sound (x ∷ xs) (y ∷ ys) h = grind (arith, same_workers_sound xs ys)

module _ (redis : Redis) (md5_hexdigest : List ℕ → Text) where
  open redis use {Store}

  -- After a scan, the list that `on_change` was last told of is the list of the live workers, and no
  -- call of `on_change` repeats the list before it.
  pub run-newest :
      (ring : Ring) (last : List Text) (scans : List (Store × ℕ)) (replica : Store) (now : ℕ)
      → (newest last (run redis md5_hexdigest ring last (scans ++ (replica, now) ∷ [])).1
          ≡ list_workers redis replica now)
        × IsChanging last (run redis md5_hexdigest ring last (scans ++ (replica, now) ∷ [])).1
  unfolding run refresh_ring
  run-newest ring last [] replica now =
      elim (Bool-cases (same_workers (list_workers redis replica now) last)) [
        | inl same ↦
            rw same (sym (same_workers_sound (list_workers redis replica now) last same), tt)
        | inr new ↦ rw new (refl, (new, tt))
      ]
  run-newest ring last ((earlier, before) ∷ scans) replica now =
      let workers = list_workers redis earlier before in
      let refreshed = (refresh_ring redis md5_hexdigest ring earlier before).0 in
      elim (Bool-cases (same_workers workers last)) [
        | inl same ↦ rw same (run-newest refreshed last scans replica now)
        | inr new ↦
            let (told, changing) = run-newest refreshed workers scans replica now in
            rw new (told, (new, changing))
      ]
