-- ===== src/Assistant.antt =====
-- The agent with the program's own tools: agents/loop.py over retrieval/tools.py, with the model's
-- arguments bound to the tools' parameters, and the API of the model behind its retries.
pub mod Frame
mod Tests
use legallens.Prelude.{ℕ, ◌+◌, List, [], ◌∷◌, Text, codes, Outcome, ok, raise, Error, type_error}
use legallens.Prelude.Dict.{Dict}
use legallens.Database.{Tables, Server, ClauseKey, ClauseColumns}
use legallens.VectorStore.{Match}
use legallens.Tools.{
  Hydrated, Scored, extract_clauses, extract_null, search_similar_clauses, score_clause_risk,
  score_null,
}
use legallens.Tools.Schema.{Argument, str, int, null, other_value, bind_tool}
use legallens.Agent.{Response, Request, Env, Run, run}
use legallens.Agent.Retries.{Tenacity, call_cohere}

-- The keyword arguments of a tool call.
abbrev pub Arguments : Type 0
Arguments = Dict Text Argument

-- The dict that a tool returns, or that stands for its exception.
pub data Answer (Score : Type 0) : Type 0 where
  clauses : Dict ClauseKey ClauseColumns → ℕ → Answer Score
  results : List (Hydrated Score) → Answer Score
  risk : Scored → Answer Score
  error_of : Text → Answer Score

-- What is not part of the program: PostgreSQL, the embedder, the vector store, the API of the model, the
-- retries, and Python's `str`. `refused` is what a library raises where it is given a value for a text.
pub record Services (Vec Score Model : Type 0) : Type 1 where
  pub server : Server
  pub embed : List Text → Outcome (List Vec)
  pub query : Vec → Argument → Outcome (List (Match Score Text))
  pub chat : Request Arguments (Answer Score) → Model → Outcome (Response Arguments) × Model
  pub tenacity : Tenacity
  pub refused : Argument → Error
  pub show_args : Arguments → Text
  pub show_value : Answer Score → Text
  pub show_error : Error → Text

-- The tables, the state of the model, and the number of the calls of its API so far.
pub record World (Model : Type 0) : Type 0 where
  pub tables : Tables
  pub model : Model
  pub calls : ℕ

module _ {Vec Score Model : Type 0} (services : Services Vec Score Model) where
  open services use {server, embed, query, tenacity, refused}

  -- `self.client.chat(...)`
  client_chat :
      Request Arguments (Answer Score) → World Model → Outcome (Response Arguments) × World Model
  client_chat request w =
      let (r, m) = services.chat request w.model in (r, record w { model = m; calls = w.calls + 1 })

  -- A value that is used as a text; `nothing` is what comes of a null.
  with_text :
      Argument
      → (World Model → Outcome (Answer Score) × World Model)
      → (Text → World Model → Outcome (Answer Score) × World Model)
      → World Model
      → Outcome (Answer Score) × World Model
  with_text (str t) nothing k w = k t w
  with_text (int n) nothing k w = (raise (refused (int n)), w)
  with_text null nothing k w = nothing w
  with_text other_value nothing k w = (raise (refused other_value), w)

  answered :
      {A : Type 0}
      → (A → Answer Score)
      → World Model
      → Outcome A × Tables
      → Outcome (Answer Score) × World Model
  answered f w (raise e, t) = (raise e, record w { tables = t })
  answered f w (ok a, t) = (ok (f a), record w { tables = t })

  -- A null is bound as NULL.
  no_clauses : World Model → Outcome (Answer Score) × World Model
  unfolding answered
  no_clauses w = answered (λ r. clauses r.0 r.1) w (extract_null server w.tables)

  no_clause : World Model → Outcome (Answer Score) × World Model
  unfolding answered
  no_clause w = answered risk w (score_null server w.tables)

  -- The bodies of the tools, on the values of their parameters. The `query[:60]` of a search raises for
  -- a null.
  extract_body : Outcome (List Argument) → World Model → Outcome (Answer Score) × World Model
  unfolding with_text answered no_clauses
  extract_body (ok (contract_id ∷ category ∷ [])) w =
      with_text contract_id (with_text category no_clauses (λ k. no_clauses))
        (λ c.
          with_text category no_clauses
            (λ k v. answered (λ r. clauses r.0 r.1) v (extract_clauses server c k v.tables)))
        w
  extract_body (ok _) w = (raise type_error, w)
  extract_body (raise e) w = (raise e, w)

  search_body : Outcome (List Argument) → World Model → Outcome (Answer Score) × World Model
  unfolding with_text answered
  search_body (ok (text ∷ top_k ∷ [])) w =
      with_text text (λ v. (raise type_error, v))
        (λ q v. answered results v (search_similar_clauses server embed query q top_k v.tables)) w
  search_body (ok _) w = (raise type_error, w)
  search_body (raise e) w = (raise e, w)

  score_body : Outcome (List Argument) → World Model → Outcome (Answer Score) × World Model
  unfolding with_text answered no_clause
  score_body (ok (clause_id ∷ [])) w =
      with_text clause_id no_clause (λ c v. answered risk v (score_clause_risk server c v.tables)) w
  score_body (ok _) w = (raise type_error, w)
  score_body (raise e) w = (raise e, w)

  abbrev env : Env Arguments (Answer Score) (World Model)
  env = record {
    chat = call_cohere tenacity client_chat;
    extract_clauses = λ a w. extract_body (bind_tool (codes "extract_clauses") a) w;
    search_similar_clauses = λ a w. search_body (bind_tool (codes "search_similar_clauses") a) w;
    score_clause_risk = λ a w. score_body (bind_tool (codes "score_clause_risk") a) w;
    show_args = services.show_args;
    show_value = services.show_value;
    show_error = services.show_error;
    error_dict = error_of;
  }

  -- `ContractReviewAgent().run(user_query)`
  abbrev review : Text → World Model → Run Arguments (Answer Score) (World Model)
  review = run env
