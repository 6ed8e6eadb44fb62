-- ===== src/Registry/Tests.antt =====
-- The registry on a server in memory.
use legallens.Prelude.{
  ℕ, ◌+◌, List, Option, none, Text, ◌≡◌, refl, [], ◌∷◌, some, ok, raise, value_error, true, codes,
  text_eq, nat_eq, arith,
}
use legallens.Redis.{starts_with}
use legallens.Redis.Memory.{memory, Data, nothing}
use legallens.Ring.{get_worker}
use legallens.Ring.Samples.{plain_digest, two, two-IsValid, program, pair}
use legallens.Registry.{hb_key, register, heartbeat, deregister, beat, list_workers, refresh_ring}
use legallens.Registry.Beats
use legallens.Registry.Refresh
use legallens.Registry.Watch

registry_program : Unit {0}
unfolding program hb_key register heartbeat deregister beat list_workers refresh_ring starts_with
registry_program = tt

abbrev both_up : Data
both_up = register memory (codes "d") 1 (register memory (codes "b") 0 nothing)

listed : (list_workers memory both_up 5 ≡ pair) × (list_workers memory both_up 10 ≡ codes "d" ∷ [])
unfolding registry_program
listed = (refl, refl)

live-beat_example : memory.live (beat memory 3 (codes "b") 0 nothing) 15 (hb_key (codes "b")) ≡ true
live-beat_example = Beats.live-beat memory 2 (codes "b") 0 15 nothing (omega arith)

routed_to_d :
    get_worker plain_digest (refresh_ring memory plain_digest two both_up 10).0 (codes "a#x")
    ≡ ok (some (codes "d"))
unfolding registry_program
routed_to_d = refl

refresh_ring-live_example : memory.live both_up 10 (hb_key (codes "d")) ≡ true
refresh_ring-live_example =
    Refresh.refresh_ring-live memory plain_digest two both_up 10 (codes "a#x") (codes "d")
      two-IsValid routed_to_d

-- Counts the calls, and fails when only one worker is left.
abbrev counting : Watch.OnChange ℕ
counting workers n = elim workers [
  | [] ↦ (ok tt, n + 1)
  | w ∷ rest ↦ elim rest [ [] ↦ (raise value_error, n + 1) | _ ↦ (ok tt, n + 1) ]
]

abbrev feed : List (Option Text × Data × ℕ)
feed =
    (none, both_up, 2)
    ∷ (some (codes "message"), both_up, 5)
    ∷ (some (codes "message"), both_up, 10)
    ∷ (some (codes "message"), both_up, 20)
    ∷ []

-- The second message finds one worker: the callback raises, and the third is not read.
watched :
    ((Watch.watch_events memory plain_digest (some counting) two feed 0).0 ≡ raise value_error)
    × ((Watch.watch_events memory plain_digest (some counting) two feed 0).2 ≡ 2)
unfolding registry_program Watch.watch_events
watched = (refl, refl)

watch_events-Watched_example :
    let (o, final, w') = Watch.watch_events memory plain_digest (some counting) two feed 0 in
    Watch.Watched memory plain_digest (some counting) final w' o two feed 0
watch_events-Watched_example =
    Watch.watch_events-Watched memory plain_digest (some counting) two feed 0 two-IsValid
