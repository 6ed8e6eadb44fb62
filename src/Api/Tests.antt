-- ===== src/Api/Tests.antt =====
-- The event stream at the agent's sample runs, and the prompts.
use legallens.Prelude.{
  ◌≡◌, refl, ◌⊎◌, List, [], ◌∷◌, ◌++◌, All, Text, codes, some, none, ok, raise, agent_loop_error,
}
use legallens.Agent.{AgentEvent, run}
use legallens.Agent.Samples.{helpful}
use legallens.Api.{
  ServerEvent, non_compete, exclusivity, build_review_prompt, build_followup_prompt, error_data,
  event_stream,
}
use legallens.Api.Stream.{IsProgress, event_stream_cases}

prompts :
    (build_review_prompt (record {
      contract_id = codes "c1";
      focus_categories = some (non_compete ∷ exclusivity ∷ []);
    })
      ≡ codes
          "Please review contract c1. Identify the 5-10 clauses most worth a senior lawyer's attention, and for each, provide a 1-2 sentence rationale. Focus on these categories: non_compete, exclusivity.")
    × (build_followup_prompt
          (record { contract_id = codes "c1"; question = codes "why?"; clause_id = none })
        ≡ codes "User question about contract c1: why?")
unfolding build_review_prompt build_followup_prompt
prompts = (refl, refl)

abbrev dump : AgentEvent → Text
dump e = e.content

event_stream_cases_example :
    (steps : List ServerEvent) × (last : ServerEvent) × All IsProgress steps
    × ((event_stream dump helpful (codes "review") 0 ≡ (steps ++ last ∷ [], ok tt))
          × (last.event ≡ codes "final_answer")
          × ((run helpful (codes "review") 0).outcome ≡ ok tt)
        ⊎ ((m : Text) × (event_stream dump helpful (codes "review") 0 ≡ (
          steps ++ last ∷ record { event = codes "error"; content = error_data m } ∷ [],
          ok tt,
        ))
            × (last.event ≡ codes "error")
            × ((run helpful (codes "review") 0).outcome ≡ raise (agent_loop_error m))))
event_stream_cases_example = event_stream_cases dump helpful (codes "review") 0
