-- ===== src/Tools/Reads.antt =====
-- Sessions of one statement, and the tools that only read.
use legallens.Prelude.{
  ◌≡◌, ◌⊎◌, refl, ap, ◌∙◌, inl, inr, List, [], ◌∷◌, Text, Outcome, ok, raise, Error,
}
use legallens.Database.{Tables, Server, Statement, apply, select, execute}
use legallens.Database.Sessions.{execute_result, session_cases}
use legallens.VectorStore.{Match}
use legallens.Tools.{
  rows_of, count_rows, extract_clauses, extract_null, after_select, score_null, after_rows,
  after_matches, match_ids, search_similar_clauses,
}

pub rows_of_cases :
    (server : Server) (statement : Statement) (t : Tables)
    → ((e : Error) × (rows_of server statement t ≡ (raise e, t)))
      ⊎ (rows_of server statement t ≡ (ok (select server.collate statement t), apply statement t))
unfolding rows_of
rows_of_cases server statement t = elim (session_cases server (execute server statement) t) [
  | inl failed ↦ inl failed
  | inr (r, done, committed) ↦
      inr (committed ∙ ap (λ p. (ok p.0, p.1)) (execute_result server statement t r done))
]

pub extract_clauses-tables :
    (server : Server) (contract_id category : Text) (t : Tables)
    → (extract_clauses server contract_id category t).1 ≡ t
unfolding extract_clauses count_rows apply
extract_clauses-tables server contract_id category t =
    elim (rows_of_cases server (Statement.select_category contract_id category) t) [
      | inl (e, failed) ↦ rw failed refl
      | inr done ↦ rw done refl
    ]

pub extract_null-tables : (server : Server) (t : Tables) → (extract_null server t).1 ≡ t
unfolding extract_null count_rows apply
extract_null-tables server t = elim (rows_of_cases server Statement.select_null t) [
  | inl (e, failed) ↦ rw failed refl
  | inr done ↦ rw done refl
]

pub score_null-tables : (server : Server) (t : Tables) → (score_null server t).1 ≡ t
unfolding score_null after_select apply select
score_null-tables server t = elim (rows_of_cases server Statement.select_null t) [
  | inl (e, failed) ↦ rw failed refl
  | inr done ↦ rw done refl
]

module _ {Score : Type 0} (server : Server) where
  after_matches-tables :
      (r : Outcome (List (Match Score Text))) (t : Tables) → (after_matches server r t).1 ≡ t
  unfolding after_matches after_rows apply
  after_matches-tables (raise e) t = refl
  after_matches-tables (ok []) t = refl
  after_matches-tables (ok (m ∷ ms)) t =
      elim (rows_of_cases server (Statement.select_ids (match_ids (m ∷ ms))) t) [
        | inl (e, failed) ↦ rw failed refl
        | inr done ↦ rw done refl
      ]

  pub search_similar_clauses-tables :
      {Vec K : Type 0} (embed : List Text → Outcome (List Vec))
      (query : Vec → K → Outcome (List (Match Score Text))) (text : Text) (top_k : K) (t : Tables)
      → (search_similar_clauses server embed query text top_k t).1 ≡ t
  unfolding search_similar_clauses
  search_similar_clauses-tables embed query text top_k t = after_matches-tables _ t
