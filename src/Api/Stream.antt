-- ===== src/Api/Stream.antt =====
-- The event stream never raises, and says in the end how the run ended.
use mathlib.Core.List.{map-append, append-nil, append_assoc}
use legallens.Prelude.{
  ◌≡◌, ◌≢◌, refl, ap, ◌∙◌, ◌⊎◌, inl, inr, List, [], ◌∷◌, ◌++◌, map, Text, codes, ok, raise,
  agent_loop_error, All,
}
use legallens.Agent.{
  EventType, thinking, tool_call, tool_result, final_answer, error, AgentEvent, Env, run,
}
use legallens.Agent.Events.{IsStep, run-WellEnded}
use legallens.Api.{ServerEvent, type_name, error_data, on_end, server_event, event_stream}

-- Neither a final answer nor an error.
abbrev pub IsProgress : ServerEvent → Type 0
IsProgress e = (e.event ≢ codes "final_answer") × (e.event ≢ codes "error")

module _ (dump_json : AgentEvent → Text) {Args Value World : Type 0}
    (env : Env Args Value World) where
  server_event-IsProgress : (e : AgentEvent) → IsStep e → IsProgress (server_event dump_json env e)
  unfolding server_event
  server_event-IsProgress e s = go e.type s
    where
      go :
          (t : EventType)
          → (t ≢ final_answer) × (t ≢ error)
          → (type_name t ≢ codes "final_answer") × (type_name t ≢ codes "error")
      go thinking s = (λ p. cc, λ p. cc)
      go tool_call s = (λ p. cc, λ p. cc)
      go tool_result s = (λ p. cc, λ p. cc)
      go final_answer s = absurd (s.0 refl)
      go error s = absurd (s.1 refl)

  steps-IsProgress :
      (es : List AgentEvent) → All IsStep es → All IsProgress (map (server_event dump_json env) es)
  steps-IsProgress [] h = tt
  steps-IsProgress (e ∷ es) h = (server_event-IsProgress e h.0, steps-IsProgress es h.1)

  stream_of :
      (user_query : Text) (w : World) (steps : List AgentEvent) (last : AgentEvent)
      (more : List ServerEvent)
      → (run env user_query w).events ≡ steps ++ last ∷ []
      → on_end (run env user_query w).outcome ≡ (more, ok tt)
      → event_stream dump_json env user_query w ≡ (
        (map (server_event dump_json env) steps ++ server_event dump_json env last ∷ []) ++ more,
        ok tt,
      )
  unfolding event_stream
  stream_of user_query w steps last more e o = rw (e, o, map-append)

  -- The event stream never raises. It yields events that are neither final answers nor errors, and
  -- then either one `final_answer`, if the run returns; or two `error` events, if it raises: the
  -- run's own, and one that holds the exception's message.
  pub event_stream_cases :
      (user_query : Text) (w : World)
      → (steps : List ServerEvent) × (last : ServerEvent) × All IsProgress steps
        × ((event_stream dump_json env user_query w ≡ (steps ++ last ∷ [], ok tt))
              × (last.event ≡ codes "final_answer")
              × ((run env user_query w).outcome ≡ ok tt)
            ⊎ ((m : Text) × (event_stream dump_json env user_query w ≡ (
              steps ++ last ∷ record { event = codes "error"; content = error_data m } ∷ [],
              ok tt,
            ))
                × (last.event ≡ codes "error")
                × ((run env user_query w).outcome ≡ raise (agent_loop_error m))))
  unfolding event_stream
  event_stream_cases user_query w =
      let (steps, last, e, all, ends) = run-WellEnded env user_query w in
      (
        map (server_event dump_json env) steps,
        server_event dump_json env last,
        steps-IsProgress steps all,
        elim ends [
          | inl (t, o) ↦ inl (
            stream_of user_query w steps last [] e (ap on_end o)
                ∙ ap (λ l. (l, ok tt)) (append-nil _),
            ap type_name t,
            o,
          )
          | inr (t, m, o) ↦ inr (
            m,
            stream_of user_query w steps last
                  (record { event = codes "error"; content = error_data m } ∷ []) e (ap on_end o)
                ∙ ap (λ l. (l, ok tt)) (append_assoc (map (server_event dump_json env) steps) _ _),
            ap type_name t,
            o,
          )
        ],
      )
