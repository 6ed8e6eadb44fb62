-- ===== src/Agent/Tests.antt =====
-- Runs of the agent, and the theorems at them.
use legallens.Prelude.{
  ◌≡◌, refl, [], ◌∷◌, map, length, codes, text_eq, nat_eq, raise, agent_loop_error,
}
use legallens.Python.Encoding.{decimal}
use legallens.Agent.{
  AgentEvent, thinking, tool_call, tool_result, final_answer, ToolResult, dispatch_tool,
  call_events, call_result, run_tools, iterate, run,
}
use legallens.Agent.Samples.{helpful, endless}
use legallens.Agent.Events.{WellEnded, run-WellEnded, run_tools-calls}
use legallens.Agent.Requests.{OneThenBlank, run_forgets_query}

program : Unit {0}
unfolding decimal dispatch_tool call_events call_result run_tools iterate run text_eq
program = tt

-- The unknown tool yields no `tool_result`, and the run goes on.
helpful_events :
    map (λ (e : AgentEvent). e.type) (run helpful (codes "review") 0).events
    ≡ thinking ∷ tool_call ∷ tool_result ∷ tool_call ∷ final_answer ∷ []
unfolding program
helpful_events = refl

endless_stops :
    ((run endless (codes "review") 0).outcome
      ≡ raise (agent_loop_error (codes "max iterations exceeded")))
    × (length (run endless (codes "review") 0).sent ≡ 8)
unfolding program
endless_stops = (refl, refl)

run-WellEnded_example :
    WellEnded (run helpful (codes "review") 0).events (run helpful (codes "review") 0).outcome
run-WellEnded_example = run-WellEnded helpful (codes "review") 0

run_forgets_query_example : OneThenBlank 7 (codes "review") (run helpful (codes "review") 0).sent
run_forgets_query_example = run_forgets_query helpful (codes "review") 0

run_tools-calls_example :
    map
      (λ (r : ToolResult _ _). r.call)
      (run_tools helpful (record { name = codes "x"; parameters = [] } ∷ []) 0).1
    ≡ record { name = codes "x"; parameters = [] } ∷ []
run_tools-calls_example =
    run_tools-calls helpful (record { name = codes "x"; parameters = [] } ∷ []) 0
