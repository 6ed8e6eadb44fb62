-- ===== src/Agent/Frame.antt =====
-- What the steps of a run may do to the world, put together.
use legallens.Prelude.{
  ℕ, zero, suc, ◌+◌, ◌*◌, ◌≡◌, List, [], ◌∷◌, Text, codes, Option, some, none, Outcome, ok, raise,
  arith, ◌==◌, text_eq, Bool-cases, inl, inr,
}
use legallens.Agent.{
  ToolCall, Response, ToolResult, Request, Env, Run, dispatch_tool, run_tools, answer, respond,
  iterate, run, max_agent_iterations,
}

-- `Reaches n w w'` says that `w` becomes `w'` at a cost of at most `n`. A request costs `c`, a tool call
-- nothing.
pub record IsFrame {Args Value World : Type 0} (env : Env Args Value World) (c : ℕ)
    (Reaches : ℕ → World → World → Type 0) : Type 0 where
  pub stay : (n : ℕ) (w : World) → Reaches n w w
  pub follow :
      (m n k : ℕ) (u v w : World) → m + n ≡ k → Reaches m u v → Reaches n v w → Reaches k u w
  pub chat : (r : Request Args Value) (w : World) → Reaches c w (env.chat r w).1
  pub extract_clauses : (a : Args) (w : World) → Reaches 0 w (env.extract_clauses a w).1
  pub search_similar_clauses :
      (a : Args) (w : World) → Reaches 0 w (env.search_similar_clauses a w).1
  pub score_clause_risk : (a : Args) (w : World) → Reaches 0 w (env.score_clause_risk a w).1

module _ {Args Value World : Type 0} (env : Env Args Value World) (c : ℕ)
    (Reaches : ℕ → World → World → Type 0) (frame : IsFrame env c Reaches) where
  open frame use {stay, follow}

  dispatch_tool-Reaches :
      (name : Text) (a : Args) (w : World) → Reaches 0 w (dispatch_tool env name a w).1
  unfolding dispatch_tool
  dispatch_tool-Reaches name a w = elim (Bool-cases (name == codes "extract_clauses")) [
    | inl one ↦ rw one (frame.extract_clauses a w)
    | inr not_one ↦ elim (Bool-cases (name == codes "search_similar_clauses")) [
      | inl two ↦ rw (not_one, two) (frame.search_similar_clauses a w)
      | inr not_two ↦ elim (Bool-cases (name == codes "score_clause_risk")) [
        | inl three ↦ rw (not_one, not_two, three) (frame.score_clause_risk a w)
        | inr not_three ↦ rw (not_one, not_two, not_three) (stay 0 w)
      ]
    ]
  ]

  run_tools-Reaches :
      (calls : List (ToolCall Args)) (w : World) → Reaches 0 w (run_tools env calls w).2
  unfolding run_tools
  run_tools-Reaches [] w = stay 0 w
  run_tools-Reaches (call ∷ calls) w =
      let w' = (dispatch_tool env call.name call.parameters w).1 in
      follow 0 0 0 w w' (run_tools env calls w').2 (omega arith)
        (dispatch_tool-Reaches call.name call.parameters w) (run_tools-Reaches calls w')

  answer-Reaches :
      (n : ℕ) (next : List (ToolResult Args Value) → World → Run Args Value World)
      (request : Request Args Value) (text : Text) (calls : List (ToolCall Args)) (w : World)
      → ((results : List (ToolResult Args Value)) (v : World) → Reaches n v (next results v).world)
      → Reaches n w (answer env next request text calls w).world
  unfolding answer
  answer-Reaches n next request text [] w h = stay n w
  answer-Reaches n next request text (call ∷ calls) w h =
      let (events, results, w') = run_tools env (call ∷ calls) w in
      follow 0 n n w w' (next results w').world (omega arith) (run_tools-Reaches (call ∷ calls) w)
        (h results w')

  respond-Reaches :
      (n : ℕ) (next : List (ToolResult Args Value) → World → Run Args Value World)
      (request : Request Args Value) (r : Outcome (Response Args) × World)
      → ((results : List (ToolResult Args Value)) (v : World) → Reaches n v (next results v).world)
      → Reaches n r.1 (respond env next request r).world
  unfolding respond
  respond-Reaches n next request (raise e, w) h = stay n w
  respond-Reaches n next request (ok response, w) h =
      answer-Reaches n next request response.text response.tool_calls w h

  iterate-Reaches :
      (n : ℕ) (message : Text) (results : Option (List (ToolResult Args Value))) (w : World)
      → Reaches (n * c) w (iterate env n message results w).world
  unfolding iterate
  iterate-Reaches zero message results w = stay (0 * c) w
  iterate-Reaches (suc n) message results w =
      let request : Request Args Value = record {
        message = message;
        chat_history = [];
        tool_results = results;
      } in
      let r = env.chat request w in
      follow c (n * c) (suc n * c) w r.1 (iterate env (suc n) message results w).world (grind arith)
        (frame.chat request w)
        (respond-Reaches (n * c) (λ new. iterate env n [] (some new)) request r
          (λ new v. iterate-Reaches n [] (some new) v))

  pub run-Reaches :
      (user_query : Text) (w : World)
      → Reaches (max_agent_iterations * c) w (run env user_query w).world
  unfolding run
  run-Reaches user_query w = iterate-Reaches max_agent_iterations user_query none w
