-- ===== src/Parser/Entries.antt =====
-- The generator over the entries: what it yields before it ends, and how it ends.
use legallens.Prelude.{
  ℕ, ◌≡◌, ◌⊎◌, inl, inr, refl, ap, List, [], ◌∷◌, Text, Option, some, none, Outcome, ok, raise,
  key_error, or_raise, arith, All, Outcome-cases, ◌>>=◌, length, ◌<◌, subst,
}
use legallens.Parser.{
  Question, Paragraph, Entry, ParsedContract, make_contract_id, question_clauses, paragraph_clauses,
  parse_entry, parse_entries,
}
use legallens.Parser.Contracts.{IsParsed, parse_entry_clauses}

abbrev RaisesKeyError {ℓ} : {A : Type ℓ} → Outcome A → Type 0
RaisesKeyError (ok a) = Unit
RaisesKeyError (raise e) = e ≡ key_error

or_raise-RaisesKeyError {ℓ} : {A : Type ℓ} (o : Option A) → RaisesKeyError (or_raise key_error o)
or_raise-RaisesKeyError (some a) = tt
or_raise-RaisesKeyError none = refl

bind-RaisesKeyError {ℓ κ} :
    {A : Type ℓ} {B : Type κ} (m : Outcome A) (f : A → Outcome B)
    → RaisesKeyError m
    → ((a : A) → RaisesKeyError (f a))
    → RaisesKeyError (m >>= f)
bind-RaisesKeyError (ok a) f h k = k a
bind-RaisesKeyError (raise e) f h k = h

module _ (sha1_hexdigest : List ℕ → Text) where
  question_clauses-RaisesKeyError :
      (cid : Text) (qas : List Question) → RaisesKeyError (question_clauses sha1_hexdigest cid qas)
  unfolding question_clauses
  question_clauses-RaisesKeyError cid [] = tt
  question_clauses-RaisesKeyError cid (qa ∷ rest) =
      bind-RaisesKeyError _ _ (or_raise-RaisesKeyError qa.question) (λ question.
        bind-RaisesKeyError _ _ (question_clauses-RaisesKeyError cid rest) (λ more. tt))

  paragraph_clauses-RaisesKeyError :
      (cid : Text) (ps : List Paragraph) → RaisesKeyError (paragraph_clauses sha1_hexdigest cid ps)
  unfolding paragraph_clauses
  paragraph_clauses-RaisesKeyError cid [] = tt
  paragraph_clauses-RaisesKeyError cid (p ∷ rest) =
      bind-RaisesKeyError _ _ (or_raise-RaisesKeyError p.qas) (λ qas.
        bind-RaisesKeyError _ _ (question_clauses-RaisesKeyError cid qas) (λ clauses.
          bind-RaisesKeyError _ _ (paragraph_clauses-RaisesKeyError cid rest) (λ more. tt)))

  parse_entry-RaisesKeyError : (entry : Entry) → RaisesKeyError (parse_entry sha1_hexdigest entry)
  unfolding parse_entry
  parse_entry-RaisesKeyError entry =
      bind-RaisesKeyError _ _ (or_raise-RaisesKeyError entry.title) (λ title.
        bind-RaisesKeyError _ _ (or_raise-RaisesKeyError entry.paragraphs) (λ paragraphs.
          bind-RaisesKeyError _ _
            (paragraph_clauses-RaisesKeyError (make_contract_id sha1_hexdigest title) paragraphs)
            (λ clauses. tt)))

  -- All contracts are parsed; every entry has one at the end, and fewer have one when a key is missing.
  abbrev pub IsYielded : List Entry → List ParsedContract × Outcome (Unit {0}) → Type 0
  IsYielded entries (contracts, outcome) =
      All (IsParsed sha1_hexdigest) contracts
      × (((outcome ≡ ok tt) × (length contracts ≡ length entries))
          ⊎ ((outcome ≡ raise key_error) × (length contracts < length entries)))

  yield_contract :
      (entry : Entry) (rest : List Entry) (contract : ParsedContract)
      (contracts : List ParsedContract) (outcome : Outcome (Unit {0}))
      → IsParsed sha1_hexdigest contract
      → IsYielded rest (contracts, outcome)
      → IsYielded (entry ∷ rest) (contract ∷ contracts, outcome)
  yield_contract entry rest contract contracts outcome h (all, inl (done, n)) =
      ((h, all), inl (done, omega arith))
  yield_contract entry rest contract contracts outcome h (all, inr (missing, n)) =
      ((h, all), inr (missing, omega arith))

  -- The generator yields contracts whose clauses are their own, with distinct ids and texts that are
  -- not empty. It returns after a contract for every entry, or raises KeyError after fewer.
  pub parse_entries-IsYielded :
      (entries : List Entry) → IsYielded entries (parse_entries sha1_hexdigest entries)
  unfolding parse_entries
  parse_entries-IsYielded [] = (tt, inl (refl, refl))
  parse_entries-IsYielded (entry ∷ rest) = elim (Outcome-cases (parse_entry sha1_hexdigest entry)) [
    | inl (contract, parsed) ↦
        rw (parsed, parse_entries)
          (yield_contract entry rest contract _ _
            (parse_entry_clauses sha1_hexdigest entry contract parsed)
            (parse_entries-IsYielded rest))
    | inr (e, raised) ↦
        let missing : e ≡ key_error =
          subst RaisesKeyError raised (parse_entry-RaisesKeyError entry) in
        rw (raised, parse_entries) (tt, inr (ap raise missing, omega arith))
  ]
