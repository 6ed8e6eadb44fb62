-- ===== src/Sentinel.antt =====
-- coordination/sentinel_client.py, `SentinelClient`: the addresses of the sentinels are read from one
-- setting. redis-py's `Sentinel` is a parameter.
pub mod Addresses
mod Tests
use legallens.Prelude.{
  Bool, true, false, not, List, [], ◌∷◌, map, keep, Text, Outcome, ok, raise, value_error, ◌>>=◌,
  is_empty, if◌then◌else◌,
}
use legallens.Python.Strings.{is_space, strip, split}
use legallens.Python.Integers.{ℤ, pos, int}

pub record SentinelClient : Type 0 where
  pub sentinels : List (Text × ℤ)
  pub master_name : Text

-- `h, p = ...`
unfoldable pub unpack : List Text → Outcome (Text × Text)
unpack (h ∷ p ∷ []) = ok (h, p)
unpack _ = raise value_error

-- `int(p) if p else 26379`
unfoldable pub port : Text → Outcome ℤ
unfolding int
port [] = ok (pos 26379)
port (c ∷ s) = int (c ∷ s)

-- The second comprehension.
unfoldable pub addresses : List (List Text) → Outcome (List (Text × ℤ))
unfolding unpack port
addresses [] = ok []
addresses (parts ∷ more) = do
  hp ← unpack parts
  p ← port hp.1
  rest ← addresses more
  ok ((hp.0, p) ∷ rest)

unfoldable pub from_settings : Text → Text → Outcome SentinelClient
unfolding addresses split strip is_space
from_settings redis_sentinels redis_master_name = do
  sentinels ← addresses (
      map (split b':') (keep (λ h. not (is_empty (strip is_space h))) (split b',' redis_sentinels)))
  ok (record { sentinels = sentinels; master_name = redis_master_name })

-- What the client uses of redis-py.
pub record SentinelLibrary (Connection : Type 0) : Type 0 where
  pub master_for : List (Text × ℤ) → Text → Connection
  pub slave_for : List (Text × ℤ) → Text → Connection
  pub ping : Connection → Outcome Bool

module _ {Connection : Type 0} (library : SentinelLibrary Connection) where
  unfoldable pub master : SentinelClient → Connection
  master client = library.master_for client.sentinels client.master_name

  unfoldable pub replica : SentinelClient → Connection
  replica client = library.slave_for client.sentinels client.master_name

  or_false : Outcome Bool → Bool
  or_false (ok b) = b
  or_false (raise e) = false

  -- An exception is logged, and the answer is no.
  unfoldable pub ping : SentinelClient → Bool
  unfolding or_false master
  ping client = or_false (library.ping (master client))
