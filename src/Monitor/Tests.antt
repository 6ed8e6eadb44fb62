-- ===== src/Monitor/Tests.antt =====
-- A monitor over a server in memory: both workers are up, then one of them is gone.
use legallens.Prelude.{◌≡◌, refl, [], ◌∷◌, ◌++◌, codes, nat_eq, text_eq}
use legallens.Redis.{starts_with}
use legallens.Redis.Memory.{memory, Data, nothing}
use legallens.Ring.Samples.{plain_digest, two, program, pair}
use legallens.Registry.{hb_key, register, list_workers, refresh_ring}
use legallens.Monitor.{same_workers, run}
use legallens.Monitor.Changes

abbrev both_up : Data
both_up = register memory (codes "d") 1 (register memory (codes "b") 0 nothing)

monitored :
    (run memory plain_digest two [] ((both_up, 2) ∷ (both_up, 5) ∷ (both_up, 10) ∷ [])).1
    ≡ pair ∷ (codes "d" ∷ []) ∷ []
unfolding program hb_key register list_workers refresh_ring starts_with same_workers run
monitored = refl

run-newest_example :
    (Changes.newest []
        (run memory plain_digest two []
          (((both_up, 2) ∷ (both_up, 5) ∷ []) ++ (both_up, 10) ∷ [])).1
      ≡ list_workers memory both_up 10)
    × Changes.IsChanging []
        (run memory plain_digest two []
          (((both_up, 2) ∷ (both_up, 5) ∷ []) ++ (both_up, 10) ∷ [])).1
run-newest_example =
    Changes.run-newest memory plain_digest two [] ((both_up, 2) ∷ (both_up, 5) ∷ []) both_up 10
