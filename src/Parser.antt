-- ===== src/Parser.antt =====
-- ingestion/parser.py: contracts and their clauses from the decoded CUAD file. A key that may be
-- missing in the JSON is an `Option` field. `sha1_hexdigest` stands for `hashlib.sha1`.
pub mod Tags
pub mod Contracts
pub mod Entries
mod Tests
use legallens.Prelude.{
  ℕ, ◌+◌, Bool, true, false, not, ◌&&◌, ◌||◌, List, [], ◌∷◌, ◌++◌, Text, codes, text_eq, Option,
  some, none, Outcome, ok, raise, key_error, ◌>>=◌, or_raise, take, leb, nat_beq, contains,
  is_empty, if◌then◌else◌,
}
use legallens.Python.Encoding.{encode_utf8}
use legallens.Python.Strings.{lower, is_space, strip}

-- One of a-z and 0-9.
unfoldable pub is_tag_char : ℕ → Bool
is_tag_char c = leb b'a' c && leb c b'z' || leb b'0' c && leb c b'9'

-- The text behind a prefix, which is in lower case, whatever the case in the text.
after_prefix : Text → Text → Option Text
after_prefix [] s = some s
after_prefix (p ∷ ps) [] = none
after_prefix (p ∷ ps) (c ∷ s) =
    let rest = after_prefix ps s in
    if nat_beq p c || (leb b'A' c && leb c b'Z' && nat_beq p (c + 32)) then rest else none

abbrev cons_option : ℕ → Option Text → Option Text
cons_option c none = none
cons_option c (some s) = some (c ∷ s)

-- The text up to the closing quotation mark, which is 34.
up_to_quote : Text → Option Text
up_to_quote [] = none
up_to_quote (c ∷ s) =
    let rest = up_to_quote s in if nat_beq c 34 then some [] else cons_option c rest

-- `([^"]+)"` at the start of a text.
group : Option Text → Option Text
unfolding up_to_quote
group none = none
group (some s) = elim (up_to_quote s) [ none ↦ none | some g ↦ if is_empty g then none else some g ]

-- `_CATEGORY_RE.search(question)`: the group of the first match.
unfoldable pub search_category : Text → Option Text
unfolding after_prefix group
search_category [] = none
search_category (c ∷ s) =
    let rest = search_category s in
    elim (group (after_prefix (codes "related to " ++ 34 ∷ []) (c ∷ s))) [
      | some g ↦ some g
      | none ↦ rest
    ]

-- `re.sub(r"[^a-z0-9]+", "_", s)`; `gap` says that the last character was replaced.
unfoldable pub squash : Bool → Text → Text
unfolding is_tag_char
squash gap [] = []
squash gap (c ∷ s) =
    let rest = squash (not (is_tag_char c)) s in
    if is_tag_char c then c ∷ rest else if gap then rest else b'_' ∷ rest

raw_category : Text → Option Text → Text
raw_category question none = take 60 question
raw_category question (some g) = g

unfoldable pub normalize_category : Text → Text
unfolding search_category raw_category squash strip lower
normalize_category question =
    strip (λ c. nat_beq c b'_')
      (squash false (lower (raw_category question (search_category question))))

pub record Answer : Type 0 where
  pub text : Option Text
  pub answer_start : Option ℕ

pub record Question : Type 0 where
  pub question : Option Text
  pub answers : Option (List Answer)

pub record Paragraph : Type 0 where
  pub qas : Option (List Question)

pub record Entry : Type 0 where
  pub title : Option Text
  pub paragraphs : Option (List Paragraph)

pub record ParsedClause : Type 0 where
  pub clause_id : Text
  pub contract_id : Text
  pub category : Text
  pub text : Text
  pub answer_start : Option ℕ

pub record ParsedContract : Type 0 where
  pub contract_id : Text
  pub filename : Text
  pub clauses : List ParsedClause

-- `ans.get("text") or ""`, and `qa.get("answers", [])`
abbrev or_empty {ℓ} : {A : Type ℓ} → Option (List A) → List A
or_empty none = []
or_empty (some s) = s

-- The loop that deduplicates: the first clause of each id stays.
unfoldable pub dedupe : List Text → List ParsedClause → List ParsedClause
dedupe seen [] = []
dedupe seen (c ∷ cs) =
    let new = c ∷ dedupe (c.clause_id ∷ seen) cs in
    let old = dedupe seen cs in if contains seen c.clause_id then old else new

module _ (sha1_hexdigest : List ℕ → Text) where
  unfoldable pub make_contract_id : Text → Text
  make_contract_id title = take 16 (sha1_hexdigest (encode_utf8 title))

  unfoldable pub make_clause_id : Text → Text → Text → Text
  make_clause_id contract_id category text =
      contract_id
      ++ (codes "-"
          ++ take 10 (
              sha1_hexdigest
                (encode_utf8 (contract_id ++ (codes "|" ++ (category ++ (codes "|" ++ text)))))))

  -- The innermost loop: an answer without text is skipped.
  unfoldable pub answer_clauses : Text → Text → List Answer → List ParsedClause
  answer_clauses cid category [] = []
  answer_clauses cid category (ans ∷ rest) =
      let text = strip is_space (or_empty ans.text) in
      let more = answer_clauses cid category rest in
      if is_empty text
      then more
      else record {
        clause_id = make_clause_id cid category text;
        contract_id = cid;
        category = category;
        text = text;
        answer_start = ans.answer_start;
      }
        ∷ more

  unfoldable pub question_clauses : Text → List Question → Outcome (List ParsedClause)
  unfolding answer_clauses
  question_clauses cid [] = ok []
  question_clauses cid (qa ∷ rest) = do
    question ← or_raise key_error qa.question
    more ← question_clauses cid rest
    ok (answer_clauses cid (normalize_category question) (or_empty qa.answers) ++ more)

  unfoldable pub paragraph_clauses : Text → List Paragraph → Outcome (List ParsedClause)
  unfolding question_clauses
  paragraph_clauses cid [] = ok []
  paragraph_clauses cid (p ∷ rest) = do
    qas ← or_raise key_error p.qas
    clauses ← question_clauses cid qas
    more ← paragraph_clauses cid rest
    ok (clauses ++ more)

  -- One round of the loop over the entries.
  unfoldable pub parse_entry : Entry → Outcome ParsedContract
  unfolding paragraph_clauses dedupe
  parse_entry entry = do
    title ← or_raise key_error entry.title
    paragraphs ← or_raise key_error entry.paragraphs
    clauses ← paragraph_clauses (make_contract_id title) paragraphs
    ok (record {
      contract_id = make_contract_id title;
      filename = title;
      clauses = dedupe [] clauses;
    })

  -- What the generator yields, and how it ends.
  unfoldable pub parse_entries : List Entry → List ParsedContract × Outcome (Unit {0})
  unfolding parse_entry
  parse_entries [] = ([], ok tt)
  parse_entries (entry ∷ rest) =
      let (contracts, outcome) = parse_entries rest in
      elim (parse_entry entry) [
        | ok contract ↦ (contract ∷ contracts, outcome)
        | raise e ↦ ([], raise e)
      ]
