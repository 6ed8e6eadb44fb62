-- ===== src/Agent/Retries.antt =====
-- `_call_cohere` of agents/loop.py, with the decorator around it.
use legallens.Prelude.{
  ℕ, zero, suc, ◌+◌, ◌≡◌, inl, inr, ap, Outcome, ok, raise, Error, Outcome-cases, arith,
}

-- What the program relies on of tenacity's `@retry(stop=stop_after_attempt(n), ...)`: the call is made
-- again while it raises, at most `n` times in all, and then `RetryError` is raised.
pub record Tenacity : Type 1 where
  pub retry : {A World : Type 0} → ℕ → (World → Outcome A × World) → World → Outcome A × World
  pub retry_error : Error
  pub returned :
      {A World : Type 0} (n : ℕ) (f : World → Outcome A × World) (w : World) (r : A × World)
      → f w ≡ (ok r.0, r.1)
      → retry (suc n) f w ≡ (ok r.0, r.1)
  pub again :
      {A World : Type 0} (n : ℕ) (f : World → Outcome A × World) (w w' : World) (e : Error)
      → f w ≡ (raise e, w')
      → retry (suc (suc n)) f w ≡ retry (suc n) f w'
  pub gave_up :
      {A World : Type 0} (f : World → Outcome A × World) (w w' : World) (e : Error)
      → f w ≡ (raise e, w')
      → retry 1 f w ≡ (raise retry_error, w')

abbrev pub attempts : ℕ
attempts = 3

module _ (tenacity : Tenacity) {Query A World : Type 0}
    (chat : Query → World → Outcome A × World) where
  open tenacity use {retry, retry_error, returned, again, gave_up}

  unfoldable pub call_cohere : Query → World → Outcome A × World
  call_cohere q = retry attempts (chat q)

  -- A call costs as much as its attempts, where `Reaches n w w'` says that `w` becomes `w'` at a cost
  -- of at most `n`.
  module _ (Reaches : ℕ → World → World → Type 0) (stay : (n : ℕ) (w : World) → Reaches n w w)
      (follow : (m n k : ℕ) (u v w : World)
        → m + n ≡ k
        → Reaches m u v
        → Reaches n v w
        → Reaches k u w)
      (one_call : (q : Query) (w : World) → Reaches 1 w (chat q w).1) where
    retry-returned :
        (n : ℕ) (q : Query) (w : World) (a : A)
        → (chat q w).0 ≡ ok a
        → Reaches (suc n) w (retry (suc n) (chat q) w).1
    retry-returned n q w a h =
        let v = (chat q w).1 in
        rw (returned n (chat q) w (a, v) (ap (λ o. (o, v)) h))
          (follow 1 n (suc n) w v v (omega arith) (one_call q w) (stay n v))

    retry-Reaches : (n : ℕ) (q : Query) (w : World) → Reaches (suc n) w (retry (suc n) (chat q) w).1
    retry-Reaches zero q w = elim (Outcome-cases (chat q w).0) [
      | inl (a, h) ↦ retry-returned zero q w a h
      | inr (e, h) ↦
          rw (gave_up (chat q) w (chat q w).1 e (ap (λ o. (o, (chat q w).1)) h)) (one_call q w)
    ]
    retry-Reaches (suc m) q w = elim (Outcome-cases (chat q w).0) [
      | inl (a, h) ↦ retry-returned (suc m) q w a h
      | inr (e, h) ↦
          let v = (chat q w).1 in
          rw (again m (chat q) w v e (ap (λ o. (o, v)) h)) (
            follow 1 (suc m) (suc (suc m)) w v (retry (suc m) (chat q) v).1 (omega arith)
              (one_call q w) (retry-Reaches m q v))
    ]

    pub call_cohere-Reaches : (q : Query) (w : World) → Reaches attempts w (call_cohere q w).1
    unfolding call_cohere
    call_cohere-Reaches q w = retry-Reaches 2 q w
