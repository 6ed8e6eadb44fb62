-- ===== src/Api.antt =====
-- api/main.py: the stream of server-sent events over a run of the agent, and the prompts; and the
-- request models of models/domain.py.
pub mod Stream
mod Tests
use legallens.Prelude.{
  List, [], ◌∷◌, ◌++◌, map, Text, codes, Option, some, none, Outcome, ok, raise, agent_loop_error,
  Error,
}
use legallens.Python.Strings.{join}
use legallens.Agent.{
  EventType, thinking, tool_call, tool_result, final_answer, error, AgentEvent, Env, Run, run,
}

pub data ClauseCategory : Type 0 where
  governing_law limitation_of_liability indemnification termination : ClauseCategory
  non_compete exclusivity ip_ownership other : ClauseCategory

unfoldable pub value : ClauseCategory → Text
value governing_law = codes "governing_law"
value limitation_of_liability = codes "limitation_of_liability"
value indemnification = codes "indemnification"
value termination = codes "termination"
value non_compete = codes "non_compete"
value exclusivity = codes "exclusivity"
value ip_ownership = codes "ip_ownership"
value other = codes "other"

pub record ReviewRequest : Type 0 where
  pub contract_id : Text
  pub focus_categories : Option (List ClauseCategory)

pub record FollowUpQuestion : Type 0 where
  pub contract_id : Text
  pub question : Text
  pub clause_id : Option Text

-- No categories (`None`) and an empty list of them are the same.
focus : Option (List ClauseCategory) → Text
unfolding value join
focus none = []
focus (some []) = []
focus (some (c ∷ cs)) =
    codes " Focus on these categories: " ++ (join (codes ", ") (map value (c ∷ cs)) ++ codes ".")

unfoldable pub build_review_prompt : ReviewRequest → Text
unfolding focus
build_review_prompt request =
    codes "Please review contract "
    ++ (request.contract_id
        ++ (codes
              ". Identify the 5-10 clauses most worth a senior lawyer's attention, and for each, provide a 1-2 sentence rationale."
            ++ focus request.focus_categories))

scope : Option Text → Text
scope none = []
scope (some []) = []
scope (some (c ∷ s)) = codes " (scoped to clause " ++ ((c ∷ s) ++ codes ")")

unfoldable pub build_followup_prompt : FollowUpQuestion → Text
unfolding scope
build_followup_prompt q =
    codes "User question about contract "
    ++ (q.contract_id ++ (codes ": " ++ (q.question ++ scope q.clause_id)))

-- The value of an event's `type`.
unfoldable pub type_name : EventType → Text
type_name thinking = codes "thinking"
type_name tool_call = codes "tool_call"
type_name tool_result = codes "tool_result"
type_name final_answer = codes "final_answer"
type_name error = codes "error"

pub record ServerEvent : Type 0 where
  pub event : Text
  pub content : Text

-- f'{{"error": "{e}"}}', in which 34 is the quotation mark.
unfoldable pub error_data : Text → Text
error_data m =
    codes "{" ++ (34 ∷ codes "error" ++ (34 ∷ codes ": " ++ (34 ∷ m ++ (34 ∷ codes "}"))))

-- The `except AgentLoopError` clause; any other exception leaves the stream.
unfoldable pub on_end : Outcome (Unit {0}) → List ServerEvent × Outcome (Unit {0})
unfolding error_data
on_end (ok _) = ([], ok tt)
on_end (raise (agent_loop_error m)) =
    (record { event = codes "error"; content = error_data m } ∷ [], ok tt)
on_end (raise e) = ([], raise e)

-- `model_dump_json` is a parameter.
module _ (dump_json : AgentEvent → Text) {Args Value World : Type 0}
    (env : Env Args Value World) where
  unfoldable pub server_event : AgentEvent → ServerEvent
  unfolding type_name
  server_event e = record { event = type_name e.type; content = dump_json e }

  -- `event_stream()`: what it yields, and how it ends.
  unfoldable pub event_stream : Text → World → List ServerEvent × Outcome (Unit {0})
  unfolding server_event on_end
  event_stream user_query w =
      let r = run env user_query w in
      let (more, outcome) = on_end r.outcome in (map server_event r.events ++ more, outcome)

  unfoldable pub review_contract : ReviewRequest → World → List ServerEvent × Outcome (Unit {0})
  unfolding event_stream build_review_prompt
  review_contract request w = event_stream (build_review_prompt request) w

  unfoldable pub follow_up : FollowUpQuestion → World → List ServerEvent × Outcome (Unit {0})
  unfolding event_stream build_followup_prompt
  follow_up question w = event_stream (build_followup_prompt question) w
