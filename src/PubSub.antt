-- ===== src/PubSub.antt =====
-- orchestration/pub_sub.py: events as JSON over the channels of Redis.
pub mod Delivery
mod Tests
use legallens.Prelude.{
  ◌≡◌, Bool, true, false, List, [], ◌∷◌, ◌++◌, Text, codes, text_eq, Option, some, none, is_empty,
  ◌==◌, if◌then◌else◌,
}
use legallens.Redis.{Redis}

-- What the program relies on of `json` for payloads; `loads` is none on a `JSONDecodeError`.
pub record PayloadJson (V : Type 0) : Type 0 where
  pub dumps : V → Text
  pub loads : Text → Option V
  pub loads-dumps : (v : V) → loads (dumps v) ≡ some v
  pub dumps_full : (v : V) → is_empty (dumps v) ≡ false

-- A message of `pubsub.listen()`, with the keys that the code reads.
pub record Message : Type 0 where
  pub type : Option Text
  pub payload : Option Text

unfoldable pub agent_stream_channel : Text → Text
agent_stream_channel stream_id = codes "agent:stream:" ++ stream_id

module _ {V : Type 0} (json : PayloadJson V) where
  open json use {dumps, loads}

  unfoldable pub publish_event : (redis : Redis) → Text → V → redis.Store → redis.Store
  publish_event redis channel payload s = redis.publish channel (dumps payload) s

  -- What one message yields.
  unfoldable pub yielded : Option Text → Option Text → List V
  yielded none payload = []
  yielded (some type) none = []
  yielded (some type) (some text) =
      if type == codes "message"
      then (if is_empty text then [] else elim (loads text) [ none ↦ [] | some v ↦ v ∷ [] ])
      else []

  -- `subscribe`, on the messages that come until the caller closes it.
  unfoldable pub subscribe : List Message → List V
  unfolding yielded
  subscribe [] = []
  subscribe (msg ∷ msgs) = yielded msg.type msg.payload ++ subscribe msgs
