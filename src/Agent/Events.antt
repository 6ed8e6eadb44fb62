-- ===== src/Agent/Events.antt =====
-- The events of a run, and how it ends.
use mathlib.Core.List.{append_assoc}
use mathlib.Core.Path.{ap₂}
use legallens.Prelude.{
  ℕ, zero, suc, ◌≡◌, ◌≢◌, ◌⊎◌, inl, inr, refl, sym, List, [], ◌∷◌, ◌++◌, map, Text, Option, some,
  none, Outcome, ok, raise, agent_loop_error, All, All-append,
}
use legallens.Agent.{
  final_answer, error, AgentEvent, ToolCall, Response, ToolResult, Request, Env, Run, plain,
  call_events, call_result, dispatch_tool, run_tools, calling, before, answer, respond, iterate,
  run, max_agent_iterations,
}

-- An event that does not end the stream.
abbrev pub IsStep : AgentEvent → Type 0
IsStep e = (e.type ≢ final_answer) × (e.type ≢ error)

-- How the last event goes with the way in which the run ends.
abbrev pub Ends : AgentEvent → Outcome (Unit {0}) → Type 0
Ends last outcome =
    ((last.type ≡ final_answer) × (outcome ≡ ok tt))
    ⊎ ((last.type ≡ error) × (m : Text) × (outcome ≡ raise (agent_loop_error m)))

-- Steps, and then one last event.
abbrev pub WellEnded : List AgentEvent → Outcome (Unit {0}) → Type 0
WellEnded events outcome =
    (steps : List AgentEvent) × (last : AgentEvent) × (events ≡ steps ++ last ∷ [])
    × All IsStep steps
    × Ends last outcome

module _ {Args Value World : Type 0} (env : Env Args Value World) where
  open env use {chat}

  call_events-IsStep : (c : ToolCall Args) (r : Outcome Value) → All IsStep (call_events env c r)
  unfolding call_events
  call_events-IsStep c (ok v) = ((λ e. cc, λ e. cc), ((λ e. cc, λ e. cc), tt))
  call_events-IsStep c (raise e) = ((λ e. cc, λ e. cc), tt)

  run_tools-IsStep :
      (calls : List (ToolCall Args)) (w : World) → All IsStep (run_tools env calls w).0
  unfolding run_tools
  run_tools-IsStep [] w = tt
  run_tools-IsStep (c ∷ calls) w =
      let (r, w') = dispatch_tool env c.name c.parameters w in
      All-append IsStep (call_events env c r) (run_tools env calls w').0 (call_events-IsStep c r)
        (run_tools-IsStep calls w')

  before-WellEnded :
      (events : List AgentEvent) (request : Request Args Value) (rest : Run Args Value World)
      → All IsStep events
      → WellEnded rest.events rest.outcome
      → WellEnded (before env events request rest).events (before env events request rest).outcome
  unfolding before
  before-WellEnded events request rest h (steps, last, e, all, ends) = (
    events ++ steps,
    last,
    rw e (sym (append_assoc events steps (last ∷ []))),
    All-append IsStep events steps h all,
    ends,
  )

  answer-WellEnded :
      (next : List (ToolResult Args Value) → World → Run Args Value World)
      (request : Request Args Value) (text : Text) (calls : List (ToolCall Args)) (w : World)
      → ((results : List (ToolResult Args Value)) (w' : World)
          → WellEnded (next results w').events (next results w').outcome)
      → WellEnded
          (answer env next request text calls w).events
          (answer env next request text calls w).outcome
  unfolding answer
  answer-WellEnded next request text [] w h =
      ([], plain final_answer text, refl, tt, inl (refl, refl))
  answer-WellEnded next request text (c ∷ calls) w h =
      let (events, results, w') = run_tools env (c ∷ calls) w in
      before-WellEnded (calling env (c ∷ calls) ∷ events) request (next results w')
        ((λ e. cc, λ e. cc), run_tools-IsStep (c ∷ calls) w) (h results w')

  respond-WellEnded :
      (next : List (ToolResult Args Value) → World → Run Args Value World)
      (request : Request Args Value) (r : Outcome (Response Args) × World)
      → ((results : List (ToolResult Args Value)) (w' : World)
          → WellEnded (next results w').events (next results w').outcome)
      → WellEnded (respond env next request r).events (respond env next request r).outcome
  unfolding respond
  respond-WellEnded next request (raise e, w) h = ([], _, refl, tt, inr (refl, _, refl))
  respond-WellEnded next request (ok response, w) h =
      answer-WellEnded next request response.text response.tool_calls w h

  iterate-WellEnded :
      (n : ℕ) (message : Text) (results : Option (List (ToolResult Args Value))) (w : World)
      → WellEnded (iterate env n message results w).events (iterate env n message results w).outcome
  unfolding iterate
  iterate-WellEnded zero message results w = ([], _, refl, tt, inr (refl, _, refl))
  iterate-WellEnded (suc n) message results w =
      let request : Request Args Value = record {
        message = message;
        chat_history = [];
        tool_results = results;
      } in
      respond-WellEnded (λ new. iterate env n [] (some new)) request (chat request w)
        (λ new w'. iterate-WellEnded n [] (some new) w')

  -- Whatever the model and the tools do, a run yields steps and then exactly one last event: a final
  -- answer, and the run returns; or an error, and the run raises `AgentLoopError` and nothing else.
  pub run-WellEnded :
      (user_query : Text) (w : World)
      → WellEnded (run env user_query w).events (run env user_query w).outcome
  unfolding run
  run-WellEnded user_query w = iterate-WellEnded max_agent_iterations user_query none w

  call-call_result : (c : ToolCall Args) (r : Outcome Value) → (call_result env c r).call ≡ c
  unfolding call_result
  call-call_result c (ok v) = refl
  call-call_result c (raise e) = refl

  -- Each tool call of the model gets one result, in order, whether the tools return or raise.
  pub run_tools-calls :
      (calls : List (ToolCall Args)) (w : World)
      → map (λ (r : ToolResult Args Value). r.call) (run_tools env calls w).1 ≡ calls
  unfolding run_tools
  run_tools-calls [] w = refl
  run_tools-calls (c ∷ calls) w =
      let (r, w') = dispatch_tool env c.name c.parameters w in
      ap₂ ◌∷◌ (call-call_result c r) (run_tools-calls calls w')
