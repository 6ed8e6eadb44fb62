-- ===== src/Registry/Beats.antt =====
-- How long a heartbeat key lives, and what `list_workers` reads from the keys.
use legallens.Prelude.{
  ℕ, zero, suc, ◌+◌, ◌*◌, ◌≤◌, ◌≡◌, ◌≢◌, refl, sym, ap, ◌∙◌, true, [], ◌∷◌, ◌++◌, map, Text,
  text_leb, text_eq, nat_eq, drop, length, arith, contains, ltb, subst, contains-map,
  contains-map_inv,
}
use legallens.Prelude.Sorting.{contains-sorted}
use legallens.Redis.{Redis, starts_with}
use legallens.Registry.{hb_key, hb_key_prefix, heartbeat, beat, list_workers}

-- Heartbeat keys of different workers are different keys.
pub hb_key-injective : (u v : Text) → hb_key u ≡ hb_key v → u ≡ v
unfolding hb_key
hb_key-injective u v e = ap (drop 10) e

starts_with-hb_key : (u : Text) → starts_with hb_key_prefix (hb_key u) ≡ true
unfolding starts_with hb_key
starts_with-hb_key u = refl

drop-hb_key : (u : Text) → drop (length hb_key_prefix) (hb_key u) ≡ u
unfolding hb_key
drop-hb_key u = refl

append-drop_of_starts_with : (p k : Text) → starts_with p k ≡ true → p ++ drop (length p) k ≡ k
unfolding starts_with
append-drop_of_starts_with [] k h = refl
append-drop_of_starts_with (a ∷ p) [] h = absurd (ground arith)
append-drop_of_starts_with (a ∷ p) (b ∷ k) h = ground (arith, append-drop_of_starts_with p k)

hb_key-drop :
    (k : Text) → starts_with hb_key_prefix k ≡ true → hb_key (drop (length hb_key_prefix) k) ≡ k
unfolding hb_key
hb_key-drop k h = append-drop_of_starts_with hb_key_prefix k h

module _ (redis : Redis) where
  open redis use {Store, live, scan}

  -- The beats of one worker touch no other worker's key.
  pub live-beat_other :
      (n : ℕ) (w u : Text) (now t : ℕ) (s : Store)
      → now + 3 * n ≤ t + 3
      → u ≢ w
      → live (beat redis n w now s) t (hb_key u) ≡ live s t (hb_key u)
  unfolding beat
  live-beat_other zero w u now t s h ne = refl
  live-beat_other (suc n) w u now t s h ne = ground (
    arith,
    live-beat_other n w u (now + 3) t (heartbeat redis w now s),
    redis.live-set_ex s now 10 t (hb_key w) (hb_key u),
    hb_key-injective u w,
  )

  live-heartbeat :
      (w : Text) (now t : ℕ) (s : Store)
      → now ≤ t
      → live (heartbeat redis w now s) t (hb_key w) ≡ ltb t (now + 10)
  unfolding heartbeat
  live-heartbeat w now t s h = ground (arith, redis.live-set_ex s now 10 t (hb_key w) (hb_key w) h)

  -- A worker that beats every three seconds is seen at every moment since its last beat until ten
  -- seconds after it, and no longer; `n` is the number of beats after the first.
  pub live-beat :
      (n : ℕ) (w : Text) (now t : ℕ) (s : Store)
      → now + 3 * n ≤ t
      → live (beat redis (suc n) w now s) t (hb_key w) ≡ ltb t (now + 3 * n + 10)
  unfolding beat
  live-beat zero w now t s h = ground (arith, live-heartbeat w now t s)
  live-beat (suc n) w now t s h =
      live-beat n w (now + 3) t (heartbeat redis w now s) (omega arith)
      ∙ ap (λ e. ltb t e) (omega arith)

  list_workers→live :
      (s : Store) (now : ℕ) (u : Text)
      → contains (list_workers redis s now) u ≡ true
      → live s now (hb_key u) ≡ true
  unfolding list_workers
  list_workers→live s now u m =
      let (k, mk, e) = contains-map_inv (drop (length hb_key_prefix)) (scan s now hb_key_prefix) u (
        sym (
          contains-sorted text_leb (map (drop (length hb_key_prefix)) (scan s now hb_key_prefix)) u)
        ∙ m) in
      ground (arith, redis.contains-scan s now hb_key_prefix k, hb_key-drop k)

  live→list_workers :
      (s : Store) (now : ℕ) (u : Text)
      → live s now (hb_key u) ≡ true
      → contains (list_workers redis s now) u ≡ true
  unfolding list_workers
  live→list_workers s now u h =
      let found : contains (scan s now hb_key_prefix) (hb_key u) ≡ true =
        ground (arith, redis.contains-scan s now hb_key_prefix (hb_key u), starts_with-hb_key u) in
      contains-sorted text_leb (map (drop (length hb_key_prefix)) (scan s now hb_key_prefix)) u
      ∙ subst
          (λ v. contains (map (drop (length hb_key_prefix)) (scan s now hb_key_prefix)) v ≡ true)
          (drop-hb_key u)
          (contains-map (drop (length hb_key_prefix)) (scan s now hb_key_prefix) (hb_key u) found)

  -- `list_workers` has exactly the workers whose key is there.
  pub contains-list_workers :
      (s : Store) (now : ℕ) (u : Text)
      → contains (list_workers redis s now) u ≡ live s now (hb_key u)
  contains-list_workers s now u =
      ground (arith, list_workers→live s now u, live→list_workers s now u)
