-- ===== src/Ring/Routing.antt =====
-- `get_worker`: where a key goes.
use legallens.Prelude.{
  ℕ, ◌≡◌, ap, sym, ◌∙◌, true, ◌⊎◌, inl, inr, List, [], ◌∷◌, none, some, Text, nat_eq, text_eq, ok,
  arith, contains, is_empty, Bool-cases, subst, is_some,
}
use mathlib.Core.Path.{fun_ext}
use legallens.Prelude.Dict.{lookup, has}
use legallens.Ring.{Ring, hash_key, get_worker}
use legallens.Ring.Owner.{IsValid, IsSuccessor, Owns, Owns-unique, owner_at-Owns}

empty_of_IsValid :
    (r : Ring) → IsValid r → is_empty r.sorted_hashes ≡ true → (k : ℕ) → lookup k r.ring ≡ none
empty_of_IsValid r v e k = go r.sorted_hashes e (v.same_keys k)
  where
    go : (xs : List ℕ) → is_empty xs ≡ true → contains xs k ≡ has r.ring k → lookup k r.ring ≡ none
    go [] e h = ground arith
    go (x ∷ xs) e h = absurd (ground arith)

module _ (md5_hexdigest : List ℕ → Text) where
  -- On a valid ring `get_worker` never raises: it returns none if the dict is empty, and otherwise
  -- the worker of the first virtual node behind the hash of the key, or of the first one of all.
  pub get_worker-Owns :
      (r : Ring) (key : Text)
      → IsValid r
      → (((k : ℕ) → lookup k r.ring ≡ none) × (get_worker md5_hexdigest r key ≡ ok none))
        ⊎ ((w : Text) × (get_worker md5_hexdigest r key ≡ ok (some w))
            × Owns r.ring (hash_key md5_hexdigest key) w)
  unfolding get_worker
  get_worker-Owns r key v = elim (Bool-cases (is_empty r.sorted_hashes)) [
    | inl e ↦ inl (empty_of_IsValid r v e, rw e)
    | inr ne ↦
        let (w, found, owns) = owner_at-Owns md5_hexdigest r (hash_key md5_hexdigest key) v ne in
        inr (w, rw ne found, owns)
  ]

  pub get_worker_of_Owns :
      (r : Ring) (key w : Text)
      → IsValid r
      → Owns r.ring (hash_key md5_hexdigest key) w
      → get_worker md5_hexdigest r key ≡ ok (some w)
  get_worker_of_Owns r key w v o = elim (get_worker-Owns r key v) [
    | inl (empty, _) ↦ let (s, _, found) = o in absurd (cc (empty s, found))
    | inr (u, found, owns) ↦ found ∙ ap (λ x. ok (some x)) (Owns-unique r.ring _ u w owns o)
  ]

  pub Owns-of_get_worker :
      (r : Ring) (key w : Text)
      → IsValid r
      → get_worker md5_hexdigest r key ≡ ok (some w)
      → Owns r.ring (hash_key md5_hexdigest key) w
  Owns-of_get_worker r key w v e = elim (get_worker-Owns r key v) [
    | inl (_, nothing) ↦ absurd (cc (nothing, e))
    | inr (u, found, owns) ↦
        let same : u ≡ w = cc (found, e) in
        subst (λ x. Owns r.ring (hash_key md5_hexdigest key) x) same owns
  ]

  -- Two valid rings with equal dicts route alike, whatever the order of their entries.
  pub get_worker-congr :
      (r s : Ring) (key : Text)
      → IsValid r
      → IsValid s
      → ((k : ℕ) → lookup k r.ring ≡ lookup k s.ring)
      → get_worker md5_hexdigest r key ≡ get_worker md5_hexdigest s key
  get_worker-congr r s key v w e = elim (get_worker-Owns r key v) [
    | inl (empty, nothing) ↦ elim (get_worker-Owns s key w) [
      | inl (_, nothing') ↦ nothing ∙ sym nothing'
      | inr (u, _, (k, _, found)) ↦ absurd (cc (empty k, e k, found))
    ]
    | inr (u, found, (k, next, at)) ↦
        let next' : IsSuccessor (has s.ring) (hash_key md5_hexdigest key) k =
          subst (λ f. IsSuccessor f (hash_key md5_hexdigest key) k)
            (fun_ext (λ x. ap is_some (e x))) next in
        found ∙ sym (get_worker_of_Owns s key u w (k, next', sym (e k) ∙ at))
  ]
