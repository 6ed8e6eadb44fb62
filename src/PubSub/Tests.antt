-- ===== src/PubSub/Tests.antt =====
-- Texts as payloads, in quotation marks, over a server in memory.
use mathlib.Core.List.{Sublist}
use legallens.Prelude.{
  ◌+◌, length, arith, ◌≡◌, refl, List, [], ◌∷◌, Text, codes, text_eq, Option, some, none,
}
use legallens.Redis.Memory.{memory, nothing}
use legallens.PubSub.{PayloadJson, Message, publish_event, subscribe}
use legallens.PubSub.Delivery

abbrev unquote : Text → Option Text
unquote [] = none
unquote (c ∷ s) = some s

abbrev quoted : PayloadJson Text
quoted = record {
  dumps = λ s. 34 ∷ s;
  loads = unquote;
  loads-dumps = λ s. refl;
  dumps_full = λ s. refl;
}

abbrev three_events : List (Text × Text)
three_events = (codes "a", codes "x") ∷ (codes "b", codes "y") ∷ (codes "a", codes "z") ∷ []

-- A message without data and one of another type are skipped.
skipped :
    subscribe quoted (
      record { type = some (codes "message"); payload = some [] }
      ∷ record { type = some (codes "pong"); payload = some (34 ∷ []) }
      ∷ record { type = some (codes "message"); payload = some (34 ∷ codes "v") }
      ∷ [])
    ≡ codes "v" ∷ []
unfolding subscribe text_eq
skipped = refl

-- The confirmation comes, the first message is lost, and the second arrives.
abbrev heard : List Message
heard =
    record { type = some (codes "subscribe"); payload = some (codes "1") }
    ∷ record { type = some (codes "message"); payload = some (34 ∷ codes "z") }
    ∷ []

heard-Arrives :
    Delivery.Arrives
      (codes "a")
      1
      ((codes "a", 34 ∷ codes "x") ∷ (codes "b", 34 ∷ codes "y") ∷ (codes "a", 34 ∷ codes "z") ∷ [])
      heard
heard-Arrives =
    Delivery.notice _ (λ e. ground arith)
      (Delivery.lost refl (
        Delivery.elsewhere (λ e. ground arith)
          (Delivery.arrived _ refl refl refl Delivery.nothing_sent)))

subscribe-publish_example :
    Sublist (subscribe quoted heard) (Delivery.sent_to quoted memory (codes "a") three_events)
    × (length (subscribe quoted heard) + 1
        ≡ length (Delivery.sent_to quoted memory (codes "a") three_events))
unfolding publish_event
subscribe-publish_example =
    Delivery.subscribe-publish quoted memory (codes "a") three_events nothing
      ((codes "a", 34 ∷ codes "x") ∷ (codes "b", 34 ∷ codes "y") ∷ (codes "a", 34 ∷ codes "z") ∷ [])
      1 heard refl heard-Arrives
