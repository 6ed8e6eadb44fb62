-- ===== src/Registry/Watch.antt =====
-- `watch_events`: a refresh for every message on the events channel, until the task ends or a callback
-- raises. What `pubsub.listen` gives is a list, each with what the replica holds then, and the time.
use legallens.Prelude.{
  ℕ, ◌≡◌, ◌≢◌, refl, inl, inr, Bool, true, false, List, [], ◌∷◌, Text, codes, text_eq, Option, some,
  none, Outcome, ok, raise, Error, ◌==◌, contains, arith, Bool-cases, if◌then◌else◌,
}
use legallens.Redis.{Redis}
use legallens.Ring.{Ring, replace_workers, get_worker}
use legallens.Ring.Owner.{IsValid}
use legallens.Registry.{hb_key, refresh_ring}
use legallens.Registry.Beats.{contains-list_workers}
use legallens.Registry.Refresh.{refresh_ring-IsValid, refresh_ring-live}

-- `msg.get("type") != "message"` skips the confirmations of a subscription.
unfoldable pub is_message : Option Text → Bool
is_message none = false
is_message (some type) = type == codes "message"

is_message_sound : (type : Option Text) → is_message type ≡ true → type ≡ some (codes "message")
unfolding is_message
is_message_sound none h = cc
is_message_sound (some t) h = ground arith

is_message_complete : (type : Option Text) → is_message type ≡ false → type ≢ some (codes "message")
unfolding is_message text_eq
is_message_complete none h = λ e. cc
is_message_complete (some t) h = λ e. ground arith

-- `on_change`, which works on a `W` and may raise.
abbrev pub OnChange : Type 0 → Type 0
OnChange W = List Text → W → Outcome (Unit {0}) × W

-- `if on_change: ...`
unfoldable pub call_change : {W : Type 0} → Option (OnChange W) → OnChange W
call_change none workers w = (ok tt, w)
call_change (some on_change) workers w = on_change workers w

module _ (redis : Redis) (md5_hexdigest : List ℕ → Text) {W : Type 0}
    (on_change : Option (OnChange W)) where
  open redis use {Store, live}

  -- What the callback raises leaves the loop; `rest` is the loop over the other messages.
  after_change :
      Ring
      → (W → Outcome (Unit {0}) × Ring × W)
      → Outcome (Unit {0}) × W
      → Outcome (Unit {0}) × Ring × W
  after_change ring rest (raise e, w) = (raise e, ring, w)
  after_change ring rest (ok _, w) = rest w

  -- How the loop ends, the ring then, and what the callback left.
  unfoldable pub watch_events :
      Ring → List (Option Text × Store × ℕ) → W → Outcome (Unit {0}) × Ring × W
  unfolding refresh_ring is_message call_change after_change
  watch_events ring [] w = (ok tt, ring, w)
  watch_events ring ((type, replica, now) ∷ msgs) w =
      let (refreshed, workers) = refresh_ring redis md5_hexdigest ring replica now in
      let told =
        after_change refreshed (watch_events refreshed msgs) (call_change on_change workers w) in
      let skipped = watch_events ring msgs w in if is_message type then told else skipped

  -- A ring rebuilt from a list of exactly the workers whose heartbeat key is there: it gives keys
  -- only to them.
  pub record IsRefreshed (ring : Ring) (replica : Store) (now : ℕ) (workers : List Text)
      (next : Ring) : Type 0 where
    pub are_live : (v : Text) → contains workers v ≡ live replica now (hb_key v)
    pub rebuilt : next ≡ replace_workers md5_hexdigest ring workers
    pub routes :
        (key v : Text)
        → get_worker md5_hexdigest next key ≡ ok (some v)
        → live replica now (hb_key v) ≡ true

  -- What may come of the messages, from one ring and state to others: anything but a message is
  -- passed over; at a message `on_change` is called once with the workers that are live then, if there
  -- is one, and the ring routes to live workers from then on; and what it raises ends the loop.
  pub data Watched (final : Ring) (w' : W) (o : Outcome (Unit {0}))
      : Ring → List (Option Text × Store × ℕ) → W → Type 0 where
    ended : o ≡ ok tt → Watched final w' o final [] w'
    passed :
        {ring : Ring} {type : Option Text} {replica : Store} {now : ℕ}
        {msgs : List (Option Text × Store × ℕ)} {w : W}
        → type ≢ some (codes "message")
        → Watched final w' o ring msgs w
        → Watched final w' o ring ((type, replica, now) ∷ msgs) w
    refreshed :
        {ring next : Ring} {type : Option Text} {replica : Store} {now : ℕ}
        {msgs : List (Option Text × Store × ℕ)} {w : W} (workers : List Text)
        → type ≡ some (codes "message")
        → on_change ≡ none
        → IsRefreshed ring replica now workers next
        → Watched final w' o next msgs w
        → Watched final w' o ring ((type, replica, now) ∷ msgs) w
    told :
        {ring next : Ring} {type : Option Text} {replica : Store} {now : ℕ}
        {msgs : List (Option Text × Store × ℕ)} {w v : W} (call : OnChange W) (workers : List Text)
        → type ≡ some (codes "message")
        → on_change ≡ some call
        → IsRefreshed ring replica now workers next
        → call workers w ≡ (ok tt, v)
        → Watched final w' o next msgs v
        → Watched final w' o ring ((type, replica, now) ∷ msgs) w
    raised :
        {ring : Ring} {type : Option Text} {replica : Store} {now : ℕ}
        {msgs : List (Option Text × Store × ℕ)} {w : W} (call : OnChange W) (workers : List Text)
        (e : Error)
        → type ≡ some (codes "message")
        → on_change ≡ some call
        → IsRefreshed ring replica now workers final
        → call workers w ≡ (raise e, w')
        → o ≡ raise e
        → Watched final w' o ring ((type, replica, now) ∷ msgs) w

  abbrev EndsWatched :
      Ring → List (Option Text × Store × ℕ) → W → Outcome (Unit {0}) × Ring × W → Type 0
  EndsWatched ring msgs w r = Watched r.1 r.2 r.0 ring msgs w

  refresh_ring-IsRefreshed :
      (ring : Ring) (replica : Store) (now : ℕ)
      → IsValid ring
      → IsRefreshed ring replica now
          (refresh_ring redis md5_hexdigest ring replica now).1
          (refresh_ring redis md5_hexdigest ring replica now).0
  unfolding refresh_ring
  refresh_ring-IsRefreshed ring replica now v = record {
    are_live = contains-list_workers redis replica now;
    rebuilt = refl;
    routes = λ key u e. refresh_ring-live redis md5_hexdigest ring replica now key u v e;
  }

  -- A message, where the loop goes on from the new ring as it should.
  message-Watched :
      (o : Option (OnChange W)) (ring next : Ring) (type : Option Text) (replica : Store) (now : ℕ)
      (msgs : List (Option Text × Store × ℕ)) (w : W) (workers : List Text)
      (rest : W → Outcome (Unit {0}) × Ring × W)
      → on_change ≡ o
      → type ≡ some (codes "message")
      → IsRefreshed ring replica now workers next
      → ((v : W) → EndsWatched next msgs v (rest v))
      → EndsWatched ring
          ((type, replica, now) ∷ msgs)
          w
          (after_change next rest (call_change o workers w))
  unfolding after_change call_change
  message-Watched none ring next type replica now msgs w workers rest e t fresh h =
      refreshed workers t e fresh (h w)
  message-Watched (some call) ring next type replica now msgs w workers rest e t fresh h =
      go (call workers w) refl
    where
      go :
          (r : Outcome (Unit {0}) × W)
          → call workers w ≡ r
          → EndsWatched ring ((type, replica, now) ∷ msgs) w (after_change next rest r)
      go (raise x, v) answer = raised call workers x t e fresh answer refl
      go (ok _, v) answer = told call workers t e fresh answer (h v)

  -- On a valid ring, `watch_events` passes over whatever is no message. At each message it rebuilds the
  -- ring from a list of exactly the workers whose heartbeat key is there then, and calls `on_change`, if
  -- there is one, once with this list; every key that has an owner is then routed to one of them. It
  -- goes on with what the callback left, and ends where a callback raises, with what that raised, or
  -- after the last message.
  pub watch_events-Watched :
      (ring : Ring) (msgs : List (Option Text × Store × ℕ)) (w : W)
      → IsValid ring
      → let (o, final, w') = watch_events ring msgs w in Watched final w' o ring msgs w
  unfolding watch_events
  watch_events-Watched ring [] w v = ended refl
  watch_events-Watched ring ((type, replica, now) ∷ msgs) w v =
      let next = refresh_ring redis md5_hexdigest ring replica now in
      elim (Bool-cases (is_message type)) [
        | inl t ↦ rw t (
            message-Watched on_change ring next.0 type replica now msgs w next.1
              (watch_events next.0 msgs) refl (is_message_sound type t)
              (refresh_ring-IsRefreshed ring replica now v)
              (λ u.
                watch_events-Watched next.0 msgs u
                  (refresh_ring-IsValid redis md5_hexdigest ring replica now v)))
        | inr t ↦ rw t (passed (is_message_complete type t) (watch_events-Watched ring msgs w v))
      ]
