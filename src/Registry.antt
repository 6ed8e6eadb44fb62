-- ===== src/Registry.antt =====
-- coordination/worker_registry.py: the heartbeat keys in Redis, and the ring that is rebuilt from them.
pub mod Beats
pub mod Refresh
pub mod Watch
mod Tests
use legallens.Prelude.{
  ℕ, zero, suc, ◌+◌, Bool, true, false, List, [], ◌∷◌, ◌++◌, map, Text, codes, text_leb, drop,
  length, Option, some, none,
}
use legallens.Prelude.Sorting.{sorted}
use legallens.Redis.{Redis}
use legallens.Ring.{Ring, init, replace_workers}

abbrev pub hb_key_prefix : Text
hb_key_prefix = codes "worker:hb:"

abbrev pub hb_ttl_seconds : ℕ
hb_ttl_seconds = 10

abbrev pub heartbeat_interval : ℕ
heartbeat_interval = 3

abbrev pub events_channel : Text
events_channel = codes "worker:events"

-- f"{HB_KEY_PREFIX}{worker_id}"
unfoldable pub hb_key : Text → Text
hb_key worker_id = hb_key_prefix ++ worker_id

module _ (redis : Redis) where
  open redis use {Store, set_ex, delete, publish, scan}

  unfoldable pub register : Text → ℕ → Store → Store
  register worker_id now s =
      publish events_channel (codes "join:" ++ worker_id)
        (set_ex now (hb_key worker_id) hb_ttl_seconds s)

  unfoldable pub heartbeat : Text → ℕ → Store → Store
  heartbeat worker_id now s = set_ex now (hb_key worker_id) hb_ttl_seconds s

  unfoldable pub deregister : Text → Store → Store
  deregister worker_id s =
      publish events_channel (codes "leave:" ++ worker_id) (delete (hb_key worker_id) s)

  -- The `while True` of `heartbeat_loop`, for as many rounds as the task lives.
  unfoldable pub beat : ℕ → Text → ℕ → Store → Store
  unfolding heartbeat
  beat zero worker_id now s = s
  beat (suc rounds) worker_id now s =
      beat rounds worker_id (now + heartbeat_interval) (heartbeat worker_id now s)

  -- `heartbeat_loop`, cancelled after some rounds.
  unfoldable pub heartbeat_loop : ℕ → Text → ℕ → Store → Store
  unfolding beat deregister
  heartbeat_loop rounds worker_id now s = deregister worker_id (beat rounds worker_id now s)

  -- `list_workers`, on what the replica holds.
  unfoldable pub list_workers : Store → ℕ → List Text
  list_workers replica now =
      sorted text_leb (map (drop (length hb_key_prefix)) (scan replica now hb_key_prefix))

  -- The ring that `WorkerRegistry.__init__` makes.
  abbrev pub new_ring : Ring
  new_ring = init 150

  module _ (md5_hexdigest : List ℕ → Text) where
    -- `refresh_ring`: the new ring, and the list that it returns.
    unfoldable pub refresh_ring : Ring → Store → ℕ → Ring × List Text
    unfolding list_workers
    refresh_ring ring replica now =
        let workers = list_workers replica now in
        (replace_workers md5_hexdigest ring workers, workers)
