-- ===== src/Assistant/Tests.antt =====
-- A model that fails once, then asks for the risk of a clause and for an unknown tool, and answers.
use legallens.Prelude.{
  ℕ, zero, suc, ◌≤◌, ◌≡◌, refl, true, [], ◌∷◌, Text, codes, text_eq, nat_eq, some, none, Outcome,
  ok, raise, Error, other, map,
}
use legallens.Prelude.Dict.{lookup, insert}
use legallens.Python.Strings.{lower}
use legallens.Redis.{starts_with}
use legallens.Database.{key_eq, update_risk, apply, select, execute, session}
use legallens.Tools.{
  occurs_in, any_in, risk_of, rows_of, extract_null, score_clause_risk, score_null, not_found,
}
use legallens.Tools.Schema.{str, null, bind_with, bind_tool}
use legallens.Agent.{
  Response, ToolCall, AgentEvent, run_tools, dispatch_tool, iterate, run, thinking, tool_call,
  tool_result, final_answer,
}
use legallens.Agent.Retries.{Tenacity, call_cohere}
use legallens.Assistant.{
  Arguments, Services, World, clauses, risk, client_chat, with_text, answered, no_clauses,
  no_clause, extract_body, search_body, score_body, review,
}
use legallens.Assistant.Frame.{SameButRisk, review-SameButRisk}

module _ {A W : Type 0} where
  abbrev last_attempt : Outcome A × W → Outcome A × W
  last_attempt (ok a, w) = (ok a, w)
  last_attempt (raise e, w) = (raise (other (codes "RetryError")), w)

  abbrev or_again : (W → Outcome A × W) → Outcome A × W → Outcome A × W
  or_again again (ok a, w) = (ok a, w)
  or_again again (raise e, w) = again w

  plain_retry : ℕ → (W → Outcome A × W) → W → Outcome A × W
  plain_retry zero f w = (raise (other (codes "RetryError")), w)
  plain_retry (suc zero) f w = last_attempt (f w)
  plain_retry (suc (suc n)) f w = or_again (plain_retry (suc n) f) (f w)

  plain_returned :
      (n : ℕ) (f : W → Outcome A × W) (w : W) (r : A × W)
      → f w ≡ (ok r.0, r.1)
      → plain_retry (suc n) f w ≡ (ok r.0, r.1)
  unfolding plain_retry
  plain_returned zero f w r h = rw h refl
  plain_returned (suc n) f w r h = rw h refl

  plain_again :
      (n : ℕ) (f : W → Outcome A × W) (w v : W) (e : Error)
      → f w ≡ (raise e, v)
      → plain_retry (suc (suc n)) f w ≡ plain_retry (suc n) f v
  unfolding plain_retry
  plain_again zero f w v e h = rw h refl
  plain_again (suc n) f w v e h = rw h refl

  plain_gave_up :
      (f : W → Outcome A × W) (w v : W) (e : Error)
      → f w ≡ (raise e, v)
      → plain_retry 1 f w ≡ (raise (other (codes "RetryError")), v)
  unfolding plain_retry
  plain_gave_up f w v e h = rw h refl

plain_tenacity : Tenacity
plain_tenacity = record {
  retry = plain_retry;
  retry_error = other (codes "RetryError");
  returned = plain_returned;
  again = plain_again;
  gave_up = plain_gave_up;
}

abbrev ask : Text → ToolCall Arguments
ask name = record { name = name; parameters = (codes "clause_id", str (codes "k-1")) ∷ [] }

-- The state of the model counts its calls.
abbrev reply : ℕ → Outcome (Response Arguments)
reply zero = raise (other (codes "timeout"))
reply (suc zero) = ok (record {
  tool_calls = ask (codes "score_clause_risk") ∷ ask (codes "delete_all") ∷ [];
  text = [];
})
reply (suc (suc n)) = ok (record { tool_calls = []; text = codes "done" })

abbrev services : Services ℕ ℕ ℕ
services = record {
  server = record { refuses = λ _. none; refuses_commit = λ _. none; collate = λ _ _. true };
  embed = λ texts. raise (other []);
  query = λ v k. ok [];
  chat = λ request n. (reply n, suc n);
  tenacity = plain_tenacity;
  refused = λ a. other (codes "no text");
  show_args = λ a. codes "{...}";
  show_value = λ v. codes "{...}";
  show_error = λ e. codes "error";
}

abbrev before : World ℕ
before = record {
  tables = record {
    contracts = [];
    clauses =
        (
          (codes "k", codes "k-1"),
          record {
            category = codes "c";
            text = codes "a perpetual licence";
            page = none;
            risk_level = none;
            risk_rationale = none;
            vector_id = none;
            embedded_at = none;
          },
        )
        ∷ [];
  };
  model = 0;
  calls = 0;
}

assistant_program : Unit {0}
unfolding plain_retry plain_tenacity lookup insert lower starts_with text_eq nat_eq key_eq
    update_risk apply select execute session occurs_in any_in risk_of rows_of score_clause_risk
    bind_with bind_tool run_tools dispatch_tool iterate run call_cohere client_chat with_text
    answered no_clauses no_clause extract_null score_null extract_body search_body score_body
assistant_program = tt

review_runs :
    (map (λ (e : AgentEvent). e.type) (review services (codes "q") before).events
      ≡ thinking ∷ tool_call ∷ tool_result ∷ tool_call ∷ final_answer ∷ [])
    × ((review services (codes "q") before).world.calls ≡ 3)
    × (map (λ r. r.1.risk_level) (review services (codes "q") before).world.tables.clauses
        ≡ some (codes "high") ∷ [])
unfolding assistant_program
review_runs = (refl, refl, refl)

-- A null finds no clause.
null_given :
    ((extract_body services (ok (str (codes "c") ∷ null ∷ [])) before).0 ≡ ok (clauses [] 0))
    × ((score_body services (ok (null ∷ [])) before).0
        ≡ ok (risk (not_found (codes "clause not found: None"))))
unfolding assistant_program
null_given = (refl, refl)

review-SameButRisk_example :
    SameButRisk before.tables (review services (codes "q") before).world.tables
    × ((review services (codes "q") before).world.calls ≤ 24)
review-SameButRisk_example = review-SameButRisk services (codes "q") before
