-- ===== src/Database/Sessions.antt =====
-- The ways in which a statement and a session end.
use legallens.Prelude.{
  ◌≡◌, ◌⊎◌, ap, inl, inr, Outcome, ok, raise, Error, Option-cases, Outcome-cases,
}
use legallens.Prelude.Dict.{Dict}
use legallens.Database.{
  Tables, Statement, Server, ClauseKey, ClauseColumns, apply, select, execute, session,
}

pub execute_result :
    (server : Server) (statement : Statement) (t : Tables)
    (r : Dict ClauseKey ClauseColumns × Tables)
    → execute server statement t ≡ ok r
    → r ≡ (select server.collate statement t, apply statement t)
unfolding execute
execute_result server statement t r h = elim (Option-cases (server.refuses statement)) [
  | inl none_of ↦
      let run : execute server statement t
          ≡ ok (select server.collate statement t, apply statement t) =
        rw (none_of, execute) in
      cc
  | inr (e, refused) ↦ let run : execute server statement t ≡ raise e = rw (refused, execute) in cc
]

pub execute_effect :
    (server : Server) (statement : Statement) (t : Tables)
    (r : Dict ClauseKey ClauseColumns × Tables)
    → execute server statement t ≡ ok r
    → r.1 ≡ apply statement t
execute_effect server statement t r h = ap (λ p. p.1) (execute_result server statement t r h)

-- A session changes nothing and raises, or its body is done and committed.
pub session_cases {ℓ} :
    {A : Type ℓ} (server : Server) (body : Tables → Outcome (A × Tables)) (t : Tables)
    → ((e : Error) × (session server body t ≡ (raise e, t)))
      ⊎ ((r : A × Tables) × (body t ≡ ok r) × (session server body t ≡ (ok r.0, r.1)))
unfolding session
session_cases server body t = elim (Outcome-cases (body t)) [
  | inl (r, done) ↦ elim (Option-cases (server.refuses_commit r.1)) [
    | inl committed ↦ inr (r, done, rw (done, session, committed))
    | inr (e, refused) ↦ inl (e, rw (done, session, refused))
  ]
  | inr (e, failed) ↦ inl (e, rw (failed, session))
]
