-- ===== src/Agent/Samples.antt =====
-- A model that asks for two tools, one of them unknown, and then answers; and one that never stops.
use legallens.Prelude.{ℕ, zero, suc, List, [], ◌∷◌, Text, codes, ok, ◌+◌}
use legallens.Agent.{Env, ToolCall}

abbrev ask : Text → ToolCall Text
ask name = record { name = name; parameters = [] }

abbrev reply : ℕ → List (ToolCall Text)
reply n = elim n [
  | zero ↦ ask (codes "extract_clauses") ∷ ask (codes "delete_all") ∷ []
  | suc _ ↦ []
]

-- The world counts the requests and tool calls.
abbrev with_replies : (ℕ → List (ToolCall Text)) → Env Text Text ℕ
with_replies replies = record {
  chat = λ r n. (ok (record { tool_calls = replies n; text = codes "done" }), n + 1);
  extract_clauses = λ a n. (ok (codes "clauses"), n + 1);
  search_similar_clauses = λ a n. (ok (codes "results"), n + 1);
  score_clause_risk = λ a n. (ok (codes "risk"), n + 1);
  show_args = λ a. a;
  show_value = λ v. v;
  show_error = λ e. codes "error";
  error_dict = λ m. m;
}

abbrev pub helpful : Env Text Text ℕ
helpful = with_replies reply

abbrev pub endless : Env Text Text ℕ
endless = with_replies (λ n. ask (codes "score_clause_risk") ∷ [])
