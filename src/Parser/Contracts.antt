-- ===== src/Parser/Contracts.antt =====
-- The clauses of a parsed contract: their identifiers, their texts, and that none is there twice.
use legallens.Prelude.{
  IsDistinct, ℕ, ◌≡◌, inl, inr, refl, false, not, ◌&&◌, List, [], ◌∷◌, ◌++◌, Text, text_eq, ok,
  key_error, or_raise, arith, contains, is_empty, All, All-append, Bool-cases, subst, bind_inv,
}
use legallens.Python.Strings.{is_space, strip}
use legallens.Parser.{
  Answer, Question, Paragraph, Entry, ParsedClause, ParsedContract, or_empty, dedupe,
  make_contract_id, make_clause_id, answer_clauses, question_clauses, paragraph_clauses,
  parse_entry, normalize_category,
}

abbrev pub ids : List ParsedClause → List Text
ids [] = []
ids (c ∷ cs) = c.clause_id ∷ ids cs

contains-ids-dedupe :
    (seen : List Text) (cs : List ParsedClause) (a : Text)
    → contains (ids (dedupe seen cs)) a ≡ (not (contains seen a) && contains (ids cs) a)
unfolding dedupe
contains-ids-dedupe seen [] a = ground arith
contains-ids-dedupe seen (c ∷ cs) a =
    ground (arith, contains-ids-dedupe (c.clause_id ∷ seen) cs a, contains-ids-dedupe seen cs a)

dedupe-IsDistinct : (seen : List Text) (cs : List ParsedClause) → IsDistinct (ids (dedupe seen cs))
unfolding dedupe
dedupe-IsDistinct seen [] = tt
dedupe-IsDistinct seen (c ∷ cs) = elim (Bool-cases (contains seen c.clause_id)) [
  | inl old ↦ rw old (dedupe-IsDistinct seen cs)
  | inr new ↦ rw new (
    ground (arith, contains-ids-dedupe (c.clause_id ∷ seen) cs c.clause_id),
    dedupe-IsDistinct (c.clause_id ∷ seen) cs,
  )
]

dedupe-All :
    (P : ParsedClause → Type 0) (seen : List Text) (cs : List ParsedClause)
    → All P cs
    → All P (dedupe seen cs)
unfolding dedupe
dedupe-All P seen [] h = tt
dedupe-All P seen (c ∷ cs) h = elim (Bool-cases (contains seen c.clause_id)) [
  | inl old ↦ rw old (dedupe-All P seen cs h.1)
  | inr new ↦ rw new (h.0, dedupe-All P (c.clause_id ∷ seen) cs h.1)
]

-- The deduplicated clauses have the ids of the given ones, each once.
pub dedupe-ids :
    (cs : List ParsedClause)
    → IsDistinct (ids (dedupe [] cs))
      × ((a : Text) → contains (ids (dedupe [] cs)) a ≡ contains (ids cs) a)
dedupe-ids cs = (dedupe-IsDistinct [] cs, λ a. contains-ids-dedupe [] cs a)

module _ (sha1_hexdigest : List ℕ → Text) where
  -- A clause of the contract `cid`: its id is made of the contract, the category and the text, and
  -- the text is not empty.
  abbrev pub IsClauseOf : Text → ParsedClause → Type 0
  IsClauseOf cid c =
      (c.contract_id ≡ cid)
      × (c.clause_id ≡ make_clause_id sha1_hexdigest cid c.category c.text)
      × (is_empty c.text ≡ false)

  answer_clauses-IsClauseOf :
      (cid category : Text) (answers : List Answer)
      → All (IsClauseOf cid) (answer_clauses sha1_hexdigest cid category answers)
  unfolding answer_clauses
  answer_clauses-IsClauseOf cid category [] = tt
  answer_clauses-IsClauseOf cid category (a ∷ rest) =
      elim (Bool-cases (is_empty (strip is_space (or_empty a.text)))) [
        | inl blank ↦ rw blank (answer_clauses-IsClauseOf cid category rest)
        | inr full ↦ rw full ((refl, refl, full), answer_clauses-IsClauseOf cid category rest)
      ]

  question_clauses-IsClauseOf :
      (cid : Text) (qas : List Question) (cs : List ParsedClause)
      → question_clauses sha1_hexdigest cid qas ≡ ok cs
      → All (IsClauseOf cid) cs
  unfolding question_clauses
  question_clauses-IsClauseOf cid [] cs h =
      let e : [] ≡ cs = cc in subst (All (IsClauseOf cid)) e tt
  question_clauses-IsClauseOf cid (qa ∷ rest) cs h =
      let (question, _, after_question) = bind_inv (or_raise key_error qa.question) _ cs h in
      let (more, of_rest, last) =
        bind_inv (question_clauses sha1_hexdigest cid rest) _ cs after_question in
      let clauses =
        answer_clauses sha1_hexdigest cid (normalize_category question) (or_empty qa.answers) in
      let e : (clauses ++ more) ≡ cs = cc in
      subst (All (IsClauseOf cid)) e (
        All-append (IsClauseOf cid) clauses more
          (answer_clauses-IsClauseOf cid (normalize_category question) (or_empty qa.answers))
          (question_clauses-IsClauseOf cid rest more of_rest))

  paragraph_clauses-IsClauseOf :
      (cid : Text) (ps : List Paragraph) (cs : List ParsedClause)
      → paragraph_clauses sha1_hexdigest cid ps ≡ ok cs
      → All (IsClauseOf cid) cs
  unfolding paragraph_clauses
  paragraph_clauses-IsClauseOf cid [] cs h =
      let e : [] ≡ cs = cc in subst (All (IsClauseOf cid)) e tt
  paragraph_clauses-IsClauseOf cid (p ∷ rest) cs h =
      let (qas, _, after_qas) = bind_inv (or_raise key_error p.qas) _ cs h in
      let (clauses, of_qas, after_clauses) =
        bind_inv (question_clauses sha1_hexdigest cid qas) _ cs after_qas in
      let (more, of_rest, last) =
        bind_inv (paragraph_clauses sha1_hexdigest cid rest) _ cs after_clauses in
      let e : (clauses ++ more) ≡ cs = cc in
      subst (All (IsClauseOf cid)) e (
        All-append (IsClauseOf cid) clauses more
          (question_clauses-IsClauseOf cid qas clauses of_qas)
          (paragraph_clauses-IsClauseOf cid rest more of_rest))

  -- A contract with the hash of its title for an id, whose clauses are its own and have distinct ids.
  abbrev pub IsParsed : ParsedContract → Type 0
  IsParsed contract =
      (contract.contract_id ≡ make_contract_id sha1_hexdigest contract.filename)
      × All (IsClauseOf contract.contract_id) contract.clauses
      × IsDistinct (ids contract.clauses)

  -- A contract that is parsed has the hash of its title for an id, all its clauses are its own,
  -- with ids made of contract, category and text and with texts that are not empty, and no two
  -- of them have one id.
  pub parse_entry_clauses :
      (entry : Entry) (contract : ParsedContract)
      → parse_entry sha1_hexdigest entry ≡ ok contract
      → IsParsed contract
  unfolding parse_entry
  parse_entry_clauses entry contract h =
      let (title, _, after_title) = bind_inv (or_raise key_error entry.title) _ contract h in
      let (paragraphs, _, after_paragraphs) =
        bind_inv (or_raise key_error entry.paragraphs) _ contract after_title in
      let cid = make_contract_id sha1_hexdigest title in
      let (clauses, all, last) =
        bind_inv (paragraph_clauses sha1_hexdigest cid paragraphs) _ contract after_paragraphs in
      let parsed : ParsedContract = record {
        contract_id = cid;
        filename = title;
        clauses = dedupe [] clauses;
      } in
      let e : parsed ≡ contract = cc in
      subst IsParsed e (
        refl,
        dedupe-All (IsClauseOf cid) [] clauses
            (paragraph_clauses-IsClauseOf cid paragraphs clauses all),
        dedupe-IsDistinct [] clauses,
      )
