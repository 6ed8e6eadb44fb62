-- ===== src/Monitor.antt =====
-- orchestration/heartbeat.py: the scans of `HeartbeatMonitor.run` until its task is cancelled. Each
-- scan reads what the replica holds, at a time. The result is the registry's ring and the lists
-- that `on_change` is called with.
pub mod Changes
mod Tests
use legallens.Prelude.{
  ℕ, Bool, true, false, ◌&&◌, List, [], ◌∷◌, Text, text_eq, ◌==◌, if◌then◌else◌,
}
use legallens.Redis.{Redis}
use legallens.Ring.{Ring}
use legallens.Registry.{refresh_ring}

-- The comparison of two lists of workers.
unfoldable pub same_workers : List Text → List Text → Bool
same_workers [] [] = true
same_workers [] (y ∷ ys) = false
same_workers (x ∷ xs) [] = false
same_workers (x ∷ xs) (y ∷ ys) = x == y && same_workers xs ys

module _ (redis : Redis) (md5_hexdigest : List ℕ → Text) where
  open redis use {Store}

  unfoldable pub run : Ring → List Text → List (Store × ℕ) → Ring × List (List Text)
  unfolding refresh_ring same_workers
  run ring last_workers [] = (ring, [])
  run ring last_workers ((replica, now) ∷ scans) =
      let (refreshed, workers) = refresh_ring redis md5_hexdigest ring replica now in
      let unchanged = run refreshed last_workers scans in
      let (final, changes) = run refreshed workers scans in
      if same_workers workers last_workers then unchanged else (final, workers ∷ changes)
