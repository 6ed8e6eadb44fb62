-- ===== src/Assistant/Frame.antt =====
-- What a run of the agent may change: nothing but the risk of clauses.
use legallens.Prelude.{
  ℕ, ◌+◌, ◌≤◌, ◌≡◌, ◌⊎◌, inl, inr, refl, sym, ◌∙◌, subst, List, [], ◌∷◌, Text, text_eq, codes,
  Option, some, none, Outcome, ok, raise, arith, ◌==◌, Bool-cases,
}
use legallens.Prelude.Dict.{lookup}
use legallens.Database.{Tables, ClauseKey, ClauseColumns, key_eq}
use legallens.Tools.{
  RiskLevel, level_name, rationale, Scored, extract_clauses, extract_null, search_similar_clauses,
  score_clause_risk, score_null,
}
use legallens.Tools.Reads.{
  extract_clauses-tables, extract_null-tables, score_null-tables, search_similar_clauses-tables,
}
use legallens.Tools.Risk
use legallens.Tools.Risk.{Ending, rescored}
use legallens.Tools.Schema.{Argument, str, int, null, other_value, bind_tool}
use legallens.Agent.{Request}
use legallens.Agent.Frame.{IsFrame, run-Reaches}
use legallens.Agent.Retries.{call_cohere-Reaches, attempts}
use legallens.Assistant.{
  Arguments, Answer, Services, World, client_chat, with_text, answered, no_clauses, no_clause,
  extract_body, search_body, score_body, env, review,
}

-- The row of a key stays, but for its risk: that may become a level, with the rationale of that level.
abbrev pub RowKept : Option ClauseColumns → Option ClauseColumns → Type 0
RowKept none after = after ≡ none
RowKept (some row) after =
    (after ≡ some row)
    ⊎ ((level : RiskLevel) × (after
          ≡ some (record row {
            risk_level = some (level_name level);
            risk_rationale = some (rationale level);
          })))

-- The contracts are the same, and the clauses but for their risk.
abbrev pub SameButRisk : Tables → Tables → Type 0
SameButRisk t t' =
    (t'.contracts ≡ t.contracts)
    × ((k : ClauseKey) → RowKept (lookup k t.clauses) (lookup k t'.clauses))

RowKept-refl : (o : Option ClauseColumns) → RowKept o o
RowKept-refl none = refl
RowKept-refl (some row) = inl refl

RowKept-trans : (o p q : Option ClauseColumns) → RowKept o p → RowKept p q → RowKept o q
RowKept-trans none p q h g = subst (λ o. RowKept o q) h g
RowKept-trans (some row) p q (inl e) g = subst (λ o. RowKept o q) e g
RowKept-trans (some row) p q (inr (level, e)) g = elim (subst (λ o. RowKept o q) e g) [
  | inl same ↦ inr (level, same)
  | inr (newer, e') ↦ inr (newer, e')
]

rescored-RowKept :
    (level : RiskLevel) (clause_id : Text) (k : ClauseKey) (o : Option ClauseColumns)
    → RowKept o (rescored level clause_id k o)
rescored-RowKept level clause_id k none = refl
rescored-RowKept level clause_id k (some row) = elim (Bool-cases (k.1 == clause_id)) [
  | inl same ↦ rw same (inr (level, refl))
  | inr other ↦ rw other (inl refl)
]

same_tables : (t t' : Tables) → t' ≡ t → SameButRisk t t'
same_tables t t' e = subst (SameButRisk t) (sym e) (refl, λ k. RowKept-refl (lookup k t.clauses))

Ending-SameButRisk :
    (clause_id : Text) (t : Tables) (r : Outcome Scored × Tables)
    → Ending clause_id t r
    → SameButRisk t r.1
Ending-SameButRisk clause_id t r (Risk.raised e) = same_tables t t refl
Ending-SameButRisk clause_id t r (Risk.absent answer none_there) = same_tables t t refl
Ending-SameButRisk clause_id t r (Risk.updated key row others t' found contracts rows) = (
  contracts,
  λ k.
      subst (RowKept (lookup k t.clauses)) (sym (rows k))
        (rescored-RowKept _ clause_id k (lookup k t.clauses)),
)

module _ {Vec Score Model : Type 0} (services : Services Vec Score Model) where
  open services use {server, embed, query, tenacity, refused}

  -- The tables are the same but for the risk, and the API was called at most `n` times.
  abbrev Reaches : ℕ → World Model → World Model → Type 0
  Reaches n w w' = SameButRisk w.tables w'.tables × (w'.calls ≤ w.calls + n)

  stay : (n : ℕ) (w : World Model) → Reaches n w w
  stay n w = (same_tables w.tables w.tables refl, omega arith)

  follow :
      (m n k : ℕ) (u v w : World Model) → m + n ≡ k → Reaches m u v → Reaches n v w → Reaches k u w
  follow m n k u v w e ((contracts, rows), h) ((contracts', rows'), h') = (
    (
      contracts' ∙ contracts,
      λ i.
          RowKept-trans (lookup i u.tables.clauses) (lookup i v.tables.clauses)
            (lookup i w.tables.clauses) (rows i) (rows' i),
    ),
    omega arith,
  )

  client_chat-Reaches :
      (q : Request Arguments (Answer Score)) (w : World Model)
      → Reaches 1 w (client_chat services q w).1
  unfolding client_chat
  client_chat-Reaches q w = (same_tables w.tables w.tables refl, omega arith)

  answered-Reaches :
      {A : Type 0} (f : A → Answer Score) (w : World Model) (r : Outcome A × Tables)
      → SameButRisk w.tables r.1
      → Reaches 0 w (answered services f w r).1
  unfolding answered
  answered-Reaches f w (raise e, t) h = (h, omega arith)
  answered-Reaches f w (ok a, t) h = (h, omega arith)

  with_text-Reaches :
      (a : Argument) (nothing : World Model → Outcome (Answer Score) × World Model)
      (k : Text → World Model → Outcome (Answer Score) × World Model) (w : World Model)
      → Reaches 0 w (nothing w).1
      → ((t : Text) → Reaches 0 w (k t w).1)
      → Reaches 0 w (with_text services a nothing k w).1
  unfolding with_text
  with_text-Reaches (str t) nothing k w g h = h t
  with_text-Reaches (int n) nothing k w g h = stay 0 w
  with_text-Reaches null nothing k w g h = g
  with_text-Reaches other_value nothing k w g h = stay 0 w

  no_clauses-Reaches : (w : World Model) → Reaches 0 w (no_clauses services w).1
  unfolding no_clauses
  no_clauses-Reaches w =
      answered-Reaches _ w (extract_null server w.tables)
        (same_tables w.tables _ (extract_null-tables server w.tables))

  no_clause-Reaches : (w : World Model) → Reaches 0 w (no_clause services w).1
  unfolding no_clause
  no_clause-Reaches w =
      answered-Reaches _ w (score_null server w.tables)
        (same_tables w.tables _ (score_null-tables server w.tables))

  extract_body-Reaches :
      (values : Outcome (List Argument)) (w : World Model)
      → Reaches 0 w (extract_body services values w).1
  unfolding extract_body
  extract_body-Reaches (ok (contract_id ∷ category ∷ [])) w =
      with_text-Reaches contract_id _ _ w
        (with_text-Reaches category _ _ w (no_clauses-Reaches w) (λ k. no_clauses-Reaches w))
        (λ c. with_text-Reaches category _ _ w (no_clauses-Reaches w) (λ k.
          answered-Reaches _ w (extract_clauses server c k w.tables)
            (same_tables w.tables _ (extract_clauses-tables server c k w.tables))))
  extract_body-Reaches (ok []) w = stay 0 w
  extract_body-Reaches (ok (a ∷ [])) w = stay 0 w
  extract_body-Reaches (ok (a ∷ b ∷ c ∷ more)) w = stay 0 w
  extract_body-Reaches (raise e) w = stay 0 w

  search_body-Reaches :
      (values : Outcome (List Argument)) (w : World Model)
      → Reaches 0 w (search_body services values w).1
  unfolding search_body
  search_body-Reaches (ok (text ∷ top_k ∷ [])) w = with_text-Reaches text _ _ w (stay 0 w) (λ q.
      answered-Reaches _ w (search_similar_clauses server embed query q top_k w.tables) (
        same_tables w.tables _ (search_similar_clauses-tables server embed query q top_k w.tables)))
  search_body-Reaches (ok []) w = stay 0 w
  search_body-Reaches (ok (a ∷ [])) w = stay 0 w
  search_body-Reaches (ok (a ∷ b ∷ c ∷ more)) w = stay 0 w
  search_body-Reaches (raise e) w = stay 0 w

  score_body-Reaches :
      (values : Outcome (List Argument)) (w : World Model)
      → Reaches 0 w (score_body services values w).1
  unfolding score_body
  score_body-Reaches (ok (clause_id ∷ [])) w =
      with_text-Reaches clause_id _ _ w (no_clause-Reaches w) (λ c.
        answered-Reaches _ w (score_clause_risk server c w.tables) (
          Ending-SameButRisk c w.tables (score_clause_risk server c w.tables)
            (Risk.score_clause_risk-Ending server c w.tables)))
  score_body-Reaches (ok []) w = stay 0 w
  score_body-Reaches (ok (a ∷ b ∷ more)) w = stay 0 w
  score_body-Reaches (raise e) w = stay 0 w

  env-IsFrame : IsFrame (env services) attempts Reaches
  env-IsFrame = record {
    stay = stay;
    follow = follow;
    chat =
        call_cohere-Reaches tenacity (client_chat services) Reaches stay follow client_chat-Reaches;
    extract_clauses = λ a w. extract_body-Reaches (bind_tool (codes "extract_clauses") a) w;
    search_similar_clauses =
        λ a w. search_body-Reaches (bind_tool (codes "search_similar_clauses") a) w;
    score_clause_risk = λ a w. score_body-Reaches (bind_tool (codes "score_clause_risk") a) w;
  }

  -- Whatever the model answers and asks for, a run of the agent with the program's tools adds and
  -- removes no contract and no clause and changes none, but for the risk of clauses: it may become a
  -- level with the rationale of that level. And it calls the API of the model at most 24 times.
  pub review-SameButRisk :
      (user_query : Text) (w : World Model)
      → SameButRisk w.tables (review services user_query w).world.tables
        × ((review services user_query w).world.calls ≤ w.calls + 24)
  review-SameButRisk user_query w =
      run-Reaches (env services) attempts Reaches env-IsFrame user_query w
