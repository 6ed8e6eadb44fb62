-- ===== src/Tools/Schema.antt =====
-- prompts/tools.py, `TOOL_DEFINITIONS`, which the model is shown, and the signatures of the functions in
-- `_TOOL_REGISTRY` of retrieval/tools.py, to which `dispatch_tool` passes the model's arguments.
pub mod Conforming
mod Tests
use legallens.Prelude.{
  ℕ, Bool, true, false, ◌&&◌, ◌||◌, not, List, [], ◌∷◌, ◌++◌, Text, codes, text_eq, Option, some,
  none, Outcome, ok, raise, value_error, type_error, ◌>>=◌, ◌==◌, is_some, if◌then◌else◌,
}
use legallens.Prelude.Dict.{Dict, lookup}
use legallens.Python.Integers.{ℤ, pos}

pub record Parameter : Type 0 where
  pub description : Text
  pub type : Text
  pub required : Bool

pub record ToolDefinition : Type 0 where
  pub name : Text
  pub description : Text
  pub parameter_definitions : Dict Text Parameter

abbrev pub extract_clauses_definition : ToolDefinition
extract_clauses_definition = record {
  name = codes "extract_clauses";
  description =
      codes "Extract all clauses of a specific category from the contract. Use "
      ++ codes "this when the user asks about a particular type of clause (e.g., "
      ++ codes "'show me the termination clauses') or when scanning the contract "
      ++ codes "for known risk categories.";
  parameter_definitions =
      (
        codes "contract_id",
        record {
          description = codes "The ID of the contract to extract from";
          type = codes "str";
          required = true;
        },
      )
      ∷ (
        codes "category",
        record {
          description =
              codes "The clause category to extract. Must be one of: governing_law, "
              ++ codes "limitation_of_liability, indemnification, termination, "
              ++ codes "non_compete, exclusivity, ip_ownership, other";
          type = codes "str";
          required = true;
        },
      )
      ∷ [];
}

abbrev pub search_similar_clauses_definition : ToolDefinition
search_similar_clauses_definition = record {
  name = codes "search_similar_clauses";
  description =
      codes "Semantic search across the clause database to find clauses "
      ++ codes "similar to a given query or example. Useful for finding "
      ++ codes "precedents, comparing language across contracts, or finding "
      ++ codes "unusual phrasings.";
  parameter_definitions =
      (
        codes "query",
        record {
          description = codes "Natural language query or example clause text";
          type = codes "str";
          required = true;
        },
      )
      ∷ (
        codes "top_k",
        record {
          description = codes "How many results to return (default 5)";
          type = codes "int";
          required = false;
        },
      )
      ∷ [];
}

abbrev pub score_clause_risk_definition : ToolDefinition
score_clause_risk_definition = record {
  name = codes "score_clause_risk";
  description =
      codes "Score a specific clause for risk level (low/medium/high) and "
      ++ codes "generate a rationale. Use this once you've identified candidate "
      ++ codes "clauses worth flagging to the user.";
  parameter_definitions =
      (
        codes "clause_id",
        record {
          description = codes "The ID of the clause to score";
          type = codes "str";
          required = true;
        },
      )
      ∷ [];
}

abbrev pub tool_definitions : List ToolDefinition
tool_definitions =
    extract_clauses_definition ∷ search_similar_clauses_definition ∷ score_clause_risk_definition
    ∷ []

-- A value that the model sends for a parameter: a text, an integer, null, or another JSON value.
pub data Argument : Type 0 where
  str : Text → Argument
  int : ℤ → Argument
  null : Argument
  other_value : Argument

-- The parameters of a function, with their defaults.
abbrev pub Signature : Type 0
Signature = Dict Text (Option Argument)

-- `def extract_clauses(contract_id, category)`, `def search_similar_clauses(query, top_k=5)` and
-- `def score_clause_risk(clause_id)`
abbrev pub tool_registry : Dict Text Signature
tool_registry =
    (codes "extract_clauses", (codes "contract_id", none) ∷ (codes "category", none) ∷ [])
    ∷ (
      codes "search_similar_clauses",
      (codes "query", none) ∷ (codes "top_k", some (int (pos 5))) ∷ [],
    )
    ∷ (codes "score_clause_risk", (codes "clause_id", none) ∷ [])
    ∷ []

-- No argument has a name that the function does not know.
abbrev pub known : Signature → Dict Text Argument → Bool
known signature [] = true
known signature ((k, v) ∷ arguments) = is_some (lookup k signature) && known signature arguments

abbrev pub or_default : Option Argument → Option Argument → Outcome Argument
or_default (some v) default = ok v
or_default none (some v) = ok v
or_default none none = raise type_error

abbrev pub bind_each : Signature → Dict Text Argument → Outcome (List Argument)
bind_each [] arguments = ok []
bind_each ((k, default) ∷ signature) arguments = do
  v ← or_default (lookup k arguments) default
  vs ← bind_each signature arguments
  ok (v ∷ vs)

-- How Python binds `**arguments` to the parameters.
abbrev pub bind : Signature → Dict Text Argument → Outcome (List Argument)
bind signature arguments =
    if known signature arguments then bind_each signature arguments else raise type_error

unfoldable pub bind_with : Option Signature → Dict Text Argument → Outcome (List Argument)
bind_with none parameters = raise value_error
bind_with (some signature) parameters = bind signature parameters

-- The call that `dispatch_tool` makes, up to the body of the function.
unfoldable pub bind_tool : Text → Dict Text Argument → Outcome (List Argument)
unfolding bind_with
bind_tool name parameters = bind_with (lookup name tool_registry) parameters

-- What a declared type says of a value.
unfoldable pub has_type : Text → Argument → Bool
has_type t (str s) = t == codes "str"
has_type t (int n) = t == codes "int"
has_type t null = false
has_type t other_value = false

abbrev pub declared : Option Parameter → Argument → Bool
declared none v = false
declared (some p) v = has_type p.type v

-- Every argument is declared, and of the declared type.
abbrev pub well_typed : Dict Text Parameter → Dict Text Argument → Bool
well_typed parameters [] = true
well_typed parameters ((k, v) ∷ arguments) =
    declared (lookup k parameters) v && well_typed parameters arguments

-- Every required parameter is there.
abbrev pub complete : Dict Text Parameter → Dict Text Argument → Bool
complete [] arguments = true
complete ((k, p) ∷ parameters) arguments =
    (not p.required || is_some (lookup k arguments)) && complete parameters arguments
