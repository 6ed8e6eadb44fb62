-- ===== src/Tools/Tests.antt =====
-- The tools over a table of two clauses.
use legallens.Prelude.{
  ℕ, true, ◌≤◌, ◌≡◌, refl, List, [], ◌∷◌, ◌++◌, Text, codes, text_eq, nat_eq, none, ok, All,
}
use legallens.Prelude.Dict.{lookup, insert}
use legallens.Prelude.Sorting.{sorted}
use legallens.Prelude.Upserts.{put}
use legallens.Python.Strings.{lower}
use legallens.Redis.{starts_with}
use legallens.Database.{
  Tables, Server, ClauseColumns, key_eq, clause_change, update_risk, apply, select, execute,
  session,
}
use legallens.VectorStore.{Match}
use legallens.Tools.{
  RiskLevel, occurs_in, any_in, risk_of, rationale, Scored, rows_of, extract_clauses,
  score_clause_risk, by_id, hydrate, search_similar_clauses,
}
use legallens.Tools.Risk
use legallens.Tools.Search

tools_program : Unit {0}
unfolding lookup insert sorted put text_eq nat_eq lower starts_with key_eq clause_change update_risk
    apply select execute session occurs_in any_in risk_of rows_of extract_clauses score_clause_risk
    by_id hydrate search_similar_clauses
tools_program = tt

abbrev sound : Server
sound = record { refuses = λ _. none; refuses_commit = λ _. none; collate = λ _ _. true }

abbrev clause : Text → ClauseColumns
clause text = record {
  category = codes "c";
  text = text;
  page = none;
  risk_level = none;
  risk_rationale = none;
  vector_id = none;
  embedded_at = none;
}

abbrev two_clauses : Tables
two_clauses = record {
  contracts = [];
  clauses =
      ((codes "k", codes "k-1"), clause (codes "a Perpetual term"))
      ∷ ((codes "k", codes "k-2"), clause (codes "a breach"))
      ∷ [];
}

levels :
    (risk_of (codes "a Perpetual term") ≡ RiskLevel.high)
    × (risk_of (codes "a breach") ≡ RiskLevel.medium)
    × (risk_of (codes "plain") ≡ RiskLevel.low)
unfolding tools_program
levels = (refl, refl, refl)

scored_high :
    (score_clause_risk sound (codes "k-1") two_clauses).0
    ≡ ok (Scored.scored (codes "k-1") (codes "c") (codes "high") (rationale RiskLevel.high))
unfolding tools_program
scored_high = refl

extracted :
    (extract_clauses sound (codes "k") (codes "c") two_clauses).0 ≡ ok (two_clauses.clauses, 2)
unfolding tools_program
extracted = refl

abbrev two_matches : List (Match ℕ Text)
two_matches =
    record { id = codes "k-2"; score = 9; metadata = [] }
    ∷ record { id = codes "gone"; score = 5; metadata = [] }
    ∷ []

searched :
    (search_similar_clauses {K = ℕ} sound
      (λ texts. ok texts)
      (λ v k. ok two_matches)
      (codes "q")
      5
      two_clauses).0
    ≡ ok (
        record {
          clause_id = codes "k-2";
          contract_id = codes "k";
          category = codes "c";
          text = codes "a breach";
          score = 9;
        }
        ∷ [])
unfolding tools_program
searched = refl

risk_of-append_example :
    Risk.rank (risk_of (codes "breach"))
    ≤ Risk.rank (risk_of (codes "a " ++ (codes "breach" ++ codes " of an exclusive term")))
risk_of-append_example =
    Risk.risk_of-append (codes "a ") (codes "breach") (codes " of an exclusive term")

score_clause_risk-Ending_example :
    Risk.Ending (codes "k-1") two_clauses (score_clause_risk sound (codes "k-1") two_clauses)
score_clause_risk-Ending_example = Risk.score_clause_risk-Ending sound (codes "k-1") two_clauses

hydrate-by_id_example :
    (Search.id_scores (hydrate (by_id two_clauses.clauses []) two_matches)
      ≡ Search.matched two_clauses.clauses two_matches)
    × All (Search.IsFrom two_clauses.clauses) (hydrate (by_id two_clauses.clauses []) two_matches)
hydrate-by_id_example = Search.hydrate-by_id two_clauses.clauses two_matches
