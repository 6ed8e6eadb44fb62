-- ===== src/Agent.antt =====
-- agents/loop.py: the conversation with the model, and the dispatch of its tool calls
-- (`dispatch_tool` of retrieval/tools.py).
pub mod Events
pub mod Requests
pub mod Frame
pub mod Retries
pub mod Samples
mod Tests
use legallens.Prelude.{
  ℕ, zero, suc, Bool, true, false, List, [], ◌∷◌, ◌++◌, Text, codes, text_eq, Option, some, none,
  Outcome, ok, raise, Error, value_error, agent_loop_error, other, length, take, ◌==◌,
  if◌then◌else◌,
}
use legallens.Python.Encoding.{decimal}

pub data EventType : Type 0 where
  thinking tool_call tool_result final_answer error : EventType

-- An `AgentEvent`, without its timestamp.
pub record AgentEvent : Type 0 where
  pub type : EventType
  pub content : Text
  pub tool_name : Option Text

pub record ToolCall (Args : Type 0) : Type 0 where
  pub name : Text
  pub parameters : Args

-- No tool calls (`None`) and an empty list of them are the same to the loop.
pub record Response (Args : Type 0) : Type 0 where
  pub tool_calls : List (ToolCall Args)
  pub text : Text

pub record ToolResult (Args Value : Type 0) : Type 0 where
  pub call : ToolCall Args
  pub outputs : List Value

-- What changes from one request to the next.
pub record Request (Args Value : Type 0) : Type 0 where
  pub message : Text
  pub chat_history : List Value
  pub tool_results : Option (List (ToolResult Args Value))

-- What the loop works with: the model (with its retries) and the three tools, which may raise and
-- change the world, and Python's `str` and f-strings of their values. A tool returns a dict.
pub record Env (Args Value World : Type 0) : Type 0 where
  pub chat : Request Args Value → World → Outcome (Response Args) × World
  pub extract_clauses : Args → World → Outcome Value × World
  pub search_similar_clauses : Args → World → Outcome Value × World
  pub score_clause_risk : Args → World → Outcome Value × World
  pub show_args : Args → Text
  pub show_value : Value → Text
  pub show_error : Error → Text
  -- {"error": message}
  pub error_dict : Text → Value

-- What a run yields and sends, how it ends, and the world that it leaves.
pub record Run (Args Value World : Type 0) : Type 0 where
  pub events : List AgentEvent
  pub sent : List (Request Args Value)
  pub outcome : Outcome (Unit {0})
  pub world : World

abbrev pub max_agent_iterations : ℕ
max_agent_iterations = 8

abbrev plain : EventType → Text → AgentEvent
plain type content = record { type = type; content = content; tool_name = none }

module _ {Args Value World : Type 0} (env : Env Args Value World) where
  open env use {
    chat, extract_clauses, search_similar_clauses, score_clause_risk, show_args, show_value,
    show_error, error_dict,
  }

  -- A name that is not in `_TOOL_REGISTRY` raises `ValueError`.
  unfoldable pub dispatch_tool : Text → Args → World → Outcome Value × World
  dispatch_tool name parameters w =
      if name == codes "extract_clauses"
      then extract_clauses parameters w
      else if name == codes "search_similar_clauses"
      then search_similar_clauses parameters w
      else if name == codes "score_clause_risk"
      then score_clause_risk parameters w
      else (raise value_error, w)

  -- The events of one tool call, and the result that goes back to the model.
  unfoldable pub call_events : ToolCall Args → Outcome Value → List AgentEvent
  call_events call (ok value) =
      record {
        type = tool_call;
        content = codes "Args: " ++ show_args call.parameters;
        tool_name = some call.name;
      }
      ∷ record {
        type = tool_result;
        content = take 200 (show_value value);
        tool_name = some call.name;
      }
      ∷ []
  call_events call (raise e) =
      record {
        type = tool_call;
        content = codes "Args: " ++ show_args call.parameters;
        tool_name = some call.name;
      }
      ∷ []

  unfoldable pub call_result : ToolCall Args → Outcome Value → ToolResult Args Value
  call_result call (ok value) = record { call = call; outputs = value ∷ [] }
  call_result call (raise e) = record { call = call; outputs = error_dict (show_error e) ∷ [] }

  -- The `for tool_call in response.tool_calls` loop.
  unfoldable pub run_tools :
      List (ToolCall Args) → World → List AgentEvent × List (ToolResult Args Value) × World
  unfolding call_events call_result
  run_tools [] w = ([], [], w)
  run_tools (call ∷ calls) w =
      let (r, w') = dispatch_tool call.name call.parameters w in
      let (events, results, w'') = run_tools calls w' in
      (call_events call r ++ events, call_result call r ∷ results, w'')

  abbrev calling : List (ToolCall Args) → AgentEvent
  calling calls = plain thinking (codes "Calling " ++ decimal (length calls) ++ codes " tool(s)...")

  -- The events and the request of one iteration, in front of the rest of the run.
  before : List AgentEvent → Request Args Value → Run Args Value World → Run Args Value World
  before events request rest = record rest {
    events = events ++ rest.events;
    sent = request ∷ rest.sent;
  }

  stop : AgentEvent → Outcome (Unit {0}) → Request Args Value → World → Run Args Value World
  stop event outcome request w = record {
    events = event ∷ [];
    sent = request ∷ [];
    outcome = outcome;
    world = w;
  }

  -- What one iteration does with the model's answer; `next` is the rest of the loop.
  answer :
      (List (ToolResult Args Value) → World → Run Args Value World)
      → Request Args Value
      → Text
      → List (ToolCall Args)
      → World
      → Run Args Value World
  unfolding before stop
  answer next request text [] w = stop (plain final_answer text) (ok tt) request w
  answer next request text (call ∷ calls) w =
      let (events, results, w') = run_tools (call ∷ calls) w in
      before (calling (call ∷ calls) ∷ events) request (next results w')

  respond :
      (List (ToolResult Args Value) → World → Run Args Value World)
      → Request Args Value
      → Outcome (Response Args) × World
      → Run Args Value World
  unfolding stop answer
  respond next request (raise e, w) =
      stop (plain error (codes "LLM call failed: " ++ show_error e))
        (raise (agent_loop_error (show_error e))) request w
  respond next request (ok response, w) = answer next request response.text response.tool_calls w

  -- The iterations that are left, with the message and the tool results of the next request.
  unfoldable pub iterate :
      ℕ → Text → Option (List (ToolResult Args Value)) → World → Run Args Value World
  unfolding respond
  iterate zero message results w = record {
    events =
        plain error (
          codes "Agent exceeded "
          ++ decimal max_agent_iterations
          ++ codes " iterations without finishing.")
        ∷ [];
    sent = [];
    outcome = raise (agent_loop_error (codes "max iterations exceeded"));
    world = w;
  }
  iterate (suc n) message results w =
      let request : Request Args Value = record {
        message = message;
        chat_history = [];
        tool_results = results;
      } in
      respond (λ new. iterate n [] (some new)) request (chat request w)

  unfoldable pub run : Text → World → Run Args Value World
  unfolding iterate
  run user_query w = iterate max_agent_iterations user_query none w
