-- ===== src/Tools/Schema/Tests.antt =====
-- Calls of the search tool, with and without its optional parameter.
use legallens.Prelude.{
  ◌≡◌, refl, true, List, [], ◌∷◌, Text, codes, text_eq, nat_eq, ok, raise, value_error, type_error,
}
use legallens.Prelude.Dict.{Dict, lookup}
use legallens.Python.Integers.{pos}
use legallens.Tools.Schema.{
  search_similar_clauses_definition, Argument, str, int, bind_with, bind_tool, has_type, well_typed,
  complete,
}
use legallens.Tools.Schema.Conforming.{typed, bind_tool-typed}

schema_program : Unit {0}
unfolding lookup text_eq nat_eq has_type bind_with bind_tool
schema_program = tt

abbrev query : Dict Text Argument
query = (codes "query", str (codes "q")) ∷ []

with_default :
    bind_tool (codes "search_similar_clauses") query ≡ ok (str (codes "q") ∷ int (pos 5) ∷ [])
unfolding schema_program
with_default = refl

refused :
    (bind_tool (codes "score_clause_risk") query ≡ raise type_error)
    × (bind_tool (codes "score") query ≡ raise value_error)
unfolding schema_program
refused = (refl, refl)

query-well_typed : well_typed search_similar_clauses_definition.parameter_definitions query ≡ true
unfolding schema_program
query-well_typed = refl

query_complete : complete search_similar_clauses_definition.parameter_definitions query ≡ true
unfolding schema_program
query_complete = refl

bind_tool-typed_example :
    (values : List Argument) × (bind_tool (codes "search_similar_clauses") query ≡ ok values)
    × (typed search_similar_clauses_definition.parameter_definitions values ≡ true)
bind_tool-typed_example =
    bind_tool-typed 1 search_similar_clauses_definition query refl query-well_typed query_complete
