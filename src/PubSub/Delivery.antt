-- ===== src/PubSub/Delivery.antt =====
-- What a subscription yields of the events that are published on its channel. Redis sends what is
-- published to whoever listens at that moment, at most once: a message may get lost.
use mathlib.Core.List.{append_assoc, append-nil, append_cancel_left, Sublist}
use mathlib.Core.List.Sublist
use legallens.Prelude.{
  ℕ, suc, ◌+◌, ◌≡◌, ◌≢◌, refl, ap, sym, ◌∙◌, inl, inr, List, [], ◌∷◌, ◌++◌, Text, codes, text_eq,
  Option, some, none, arith, length, ==_iff, ◌==◌, Bool-cases, if◌then◌else◌,
}
use legallens.Redis.{Redis}
use legallens.PubSub.{PayloadJson, Message, publish_event, yielded, subscribe}

-- What may arrive at the subscriber of a channel, of what is published from then on: notices of
-- other types, and what is published on the channel, in order, each at most once. The number counts
-- what was lost.
pub data Arrives (channel : Text) : ℕ → List (Text × Text) → List Message → Type 0 where
  nothing_sent : Arrives channel 0 [] []
  notice :
      {n : ℕ} {sent : List (Text × Text)} {msgs : List Message} (msg : Message)
      → msg.type ≢ some (codes "message")
      → Arrives channel n sent msgs
      → Arrives channel n sent (msg ∷ msgs)
  elsewhere :
      {n : ℕ} {sent : List (Text × Text)} {msgs : List Message} {c text : Text}
      → c ≢ channel
      → Arrives channel n sent msgs
      → Arrives channel n ((c, text) ∷ sent) msgs
  lost :
      {n : ℕ} {sent : List (Text × Text)} {msgs : List Message} {c text : Text}
      → c ≡ channel
      → Arrives channel n sent msgs
      → Arrives channel (suc n) ((c, text) ∷ sent) msgs
  arrived :
      {n : ℕ} {sent : List (Text × Text)} {msgs : List Message} {c text : Text} (msg : Message)
      → c ≡ channel
      → msg.type ≡ some (codes "message")
      → msg.payload ≡ some text
      → Arrives channel n sent msgs
      → Arrives channel n ((c, text) ∷ sent) (msg ∷ msgs)

module _ {V : Type 0} (json : PayloadJson V) (redis : Redis) where
  open redis use {Store, published, published-publish}

  abbrev pub publish_all : List (Text × V) → Store → Store
  publish_all [] s = s
  publish_all ((c, v) ∷ events) s = publish_all events (publish_event json redis c v s)

  abbrev dumped : List (Text × V) → List (Text × Text)
  dumped [] = []
  dumped ((c, v) ∷ events) = (c, json.dumps v) ∷ dumped events

  -- The events of a channel.
  abbrev pub sent_to : Text → List (Text × V) → List V
  sent_to channel [] = []
  sent_to channel ((c, v) ∷ events) =
      let rest = sent_to channel events in if c == channel then v ∷ rest else rest

  published-publish_all :
      (events : List (Text × V)) (s : Store)
      → published (publish_all events s) ≡ published s ++ dumped events
  unfolding publish_event
  published-publish_all [] s = sym (append-nil (published s))
  published-publish_all ((c, v) ∷ events) s =
      published-publish_all events (redis.publish c (json.dumps v) s)
      ∙ ap (λ p. p ++ dumped events) (published-publish s c (json.dumps v))
      ∙ append_assoc (published s) ((c, json.dumps v) ∷ []) (dumped events)

  -- A notice yields nothing, and a message with a payload that was dumped yields it.
  yielded_notice :
      (type payload : Option Text) → type ≢ some (codes "message") → yielded json type payload ≡ []
  unfolding yielded
  yielded_notice none payload h = refl
  yielded_notice (some type) none h = refl
  yielded_notice (some type) (some text) h = elim (Bool-cases (type == codes "message")) [
    | inl e ↦ absurd (h (ap some ((==_iff type (codes "message")).0 e)))
    | inr e ↦ rw e refl
  ]

  yielded_message :
      (type payload : Option Text) (v : V)
      → type ≡ some (codes "message")
      → payload ≡ some (json.dumps v)
      → yielded json type payload ≡ v ∷ []
  unfolding yielded text_eq
  yielded_message type payload v t p = rw (t, p, json.dumps_full v, json.loads-dumps v) refl

  abbrev Heard : Text → ℕ → List (Text × V) → List Message → Type 0
  Heard channel n events msgs =
      Sublist (subscribe json msgs) (sent_to channel events)
      × (length (subscribe json msgs) + n ≡ length (sent_to channel events))

  sent_to-other :
      (channel c : Text) (v : V) (events : List (Text × V))
      → c ≢ channel
      → sent_to channel ((c, v) ∷ events) ≡ sent_to channel events
  sent_to-other channel c v events h = elim (Bool-cases (c == channel)) [
    | inl e ↦ absurd (h ((==_iff c channel).0 e))
    | inr e ↦ rw e refl
  ]

  sent_to-same :
      (channel c : Text) (v : V) (events : List (Text × V))
      → c ≡ channel
      → sent_to channel ((c, v) ∷ events) ≡ v ∷ sent_to channel events
  sent_to-same channel c v events h = rw ((==_iff c channel).1 h) refl

  Arrives-Heard :
      {channel : Text} {n : ℕ} {sent : List (Text × Text)} {msgs : List Message}
      → Arrives channel n sent msgs
      → (events : List (Text × V)) → sent ≡ dumped events
      → Heard channel n events msgs
  unfolding subscribe
  Arrives-Heard nothing_sent [] e = (Sublist.refl [], refl)
  Arrives-Heard nothing_sent (x ∷ events) e = cc
  Arrives-Heard (notice msg h a) events e =
      rw (yielded_notice msg.type msg.payload h) (Arrives-Heard a events e)
  Arrives-Heard (elsewhere h a) [] e = cc
  Arrives-Heard {channel} (elsewhere {c = c} h a) ((d, v) ∷ events) e =
      let same : c ≡ d = cc in
      rw (sent_to-other channel d v events (λ q. h (same ∙ q))) (Arrives-Heard a events cc)
  Arrives-Heard (lost h a) [] e = cc
  Arrives-Heard {channel} (lost {c = c} h a) ((d, v) ∷ events) e =
      let same : c ≡ d = cc in
      let (part, count) = Arrives-Heard a events cc in
      rw (sent_to-same channel d v events (sym same ∙ h)) (Sublist.cons v part, omega arith)
  Arrives-Heard (arrived msg h t p a) [] e = cc
  Arrives-Heard {channel} (arrived {c = c} {text = text} msg h t p a) ((d, v) ∷ events) e =
      let same : c ≡ d = cc in
      let dump : text ≡ json.dumps v = cc in
      let (part, count) = Arrives-Heard a events cc in
      rw
        (
          sent_to-same channel d v events (sym same ∙ h),
          yielded_message msg.type msg.payload v t (p ∙ ap some dump),
        )
        (Sublist.cons-cons v part, omega arith)

  -- Events are published one after another, and of what is published a subscriber of a channel gets
  -- what the server does not lose, with notices between. Then the subscription yields events of this
  -- channel, in the order in which they were published and each at most once, and none of other
  -- channels; and it yields all but as many as the server lost.
  pub subscribe-publish :
      (channel : Text) (events : List (Text × V)) (s : Store) (after : List (Text × Text)) (n : ℕ)
      (msgs : List Message)
      → published (publish_all events s) ≡ published s ++ after
      → Arrives channel n after msgs
      → Sublist (subscribe json msgs) (sent_to channel events)
        × (length (subscribe json msgs) + n ≡ length (sent_to channel events))
  subscribe-publish channel events s after n msgs e a = Arrives-Heard a events (
      append_cancel_left (published s) after (dumped events)
        (sym e ∙ published-publish_all events s))
