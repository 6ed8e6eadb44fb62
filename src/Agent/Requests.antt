-- ===== src/Agent/Requests.antt =====
-- What a run sends to the model.
use legallens.Prelude.{
  ℕ, zero, suc, ◌≤◌, ◌≡◌, ◌≢◌, refl, List, [], ◌∷◌, Text, some, none, Outcome, ok, raise, length,
  All, arith,
}
use legallens.Agent.{
  ToolCall, Response, ToolResult, Request, Env, Run, run_tools, answer, respond, iterate, run,
}

-- A request that shows the model nothing but tool results.
abbrev pub IsBlank : {Args Value : Type 0} → Request Args Value → Type 0
IsBlank r = (r.message ≡ []) × (r.chat_history ≡ []) × (r.tool_results ≢ none)

-- At most `n` requests, all of them blank.
abbrev AllBlank : {Args Value : Type 0} → ℕ → List (Request Args Value) → Type 0
AllBlank n rs = All IsBlank rs × (length rs ≤ n)

-- A first request with the message, and at most `n` others, all of them blank.
abbrev pub OneThenBlank : {Args Value : Type 0} → ℕ → Text → List (Request Args Value) → Type 0
OneThenBlank {Args} {Value} n message rs =
    (first : Request Args Value) × (rest : List (Request Args Value)) × (rs ≡ first ∷ rest)
    × (first.message ≡ message)
    × All IsBlank rest
    × (length rest ≤ n)

module _ {Args Value World : Type 0} (env : Env Args Value World) where
  open env use {chat}

  answer-sent :
      (n : ℕ) (next : List (ToolResult Args Value) → World → Run Args Value World)
      (request : Request Args Value) (text : Text) (calls : List (ToolCall Args)) (w : World)
      → ((results : List (ToolResult Args Value)) (w' : World) → AllBlank n (next results w').sent)
      → (rest : List (Request Args Value)) × ((answer env next request text calls w).sent
          ≡ request ∷ rest)
        × AllBlank n rest
  unfolding answer
  answer-sent n next request text [] w h = ([], refl, (tt, omega arith))
  answer-sent n next request text (c ∷ calls) w h =
      let (events, results, w') = run_tools env (c ∷ calls) w in
      ((next results w').sent, refl, h results w')

  respond-sent :
      (n : ℕ) (next : List (ToolResult Args Value) → World → Run Args Value World)
      (request : Request Args Value) (r : Outcome (Response Args) × World)
      → ((results : List (ToolResult Args Value)) (w' : World) → AllBlank n (next results w').sent)
      → (rest : List (Request Args Value)) × ((respond env next request r).sent ≡ request ∷ rest)
        × AllBlank n rest
  unfolding respond
  respond-sent n next request (raise e, w) h = ([], refl, (tt, omega arith))
  respond-sent n next request (ok response, w) h =
      answer-sent n next request response.text response.tool_calls w h

  -- Behind the first request the loop sends tool results and nothing else.
  iterate-blank :
      (n : ℕ) (new : List (ToolResult Args Value)) (w : World)
      → AllBlank n (iterate env n [] (some new) w).sent
  unfolding iterate
  iterate-blank zero new w = (tt, omega arith)
  iterate-blank (suc n) new w =
      let request : Request Args Value = record {
        message = [];
        chat_history = [];
        tool_results = some new;
      } in
      let (rest, e, (blank, short)) =
        respond-sent n (λ more. iterate env n [] (some more)) request (chat request w)
          (iterate-blank n) in
      rw e (((refl, refl, λ p. cc), blank), omega arith)

  -- A run sends at most eight requests: a first one with the user's query for its message, and all
  -- later ones with an empty message, an empty history and some tool results.
  pub run_forgets_query :
      (user_query : Text) (w : World) → OneThenBlank 7 user_query (run env user_query w).sent
  unfolding run iterate
  run_forgets_query user_query w =
      let request : Request Args Value = record {
        message = user_query;
        chat_history = [];
        tool_results = none;
      } in
      let (rest, e, (blank, short)) =
        respond-sent 7 (λ more. iterate env 7 [] (some more)) request (chat request w)
          (iterate-blank 7) in
      (request, rest, e, refl, blank, short)
