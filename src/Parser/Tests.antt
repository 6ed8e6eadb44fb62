-- ===== src/Parser/Tests.antt =====
-- Parsing of a small file, with the identity for a hash.
use legallens.Prelude.{
  ◌≡◌, ◌⊎◌, refl, List, [], ◌∷◌, ◌++◌, Text, codes, some, none, ok, raise, key_error, ℕ, true,
  text_eq,
}
use legallens.Python.Encoding.{encode_utf8}
use legallens.Python.Strings.{lower, is_space, strip}
use legallens.Parser.{
  is_tag_char, squash, search_category, normalize_category, Answer, Question, Entry, ParsedContract,
  dedupe, make_contract_id, make_clause_id, answer_clauses, question_clauses, paragraph_clauses,
  parse_entry, parse_entries,
}
use legallens.Parser.Tags
use legallens.Parser.Contracts
use legallens.Parser.Entries

parser_program : Unit {0}
unfolding lower is_space strip is_tag_char squash search_category normalize_category dedupe
    make_contract_id make_clause_id answer_clauses question_clauses paragraph_clauses parse_entry
    parse_entries encode_utf8 text_eq
parser_program = tt

abbrev plain_hash : List ℕ → Text
plain_hash b = b

abbrev asked : Text
asked = codes "Parts RELATED to " ++ 34 ∷ codes "Non-Compete / A" ++ 34 ∷ codes " of it"

abbrev two_answers : List Answer
two_answers =
    record { text = some (codes " x "); answer_start = some 3 }
    ∷ record { text = none; answer_start = none }
    ∷ record { text = some (codes "x"); answer_start = some 9 }
    ∷ []

abbrev question : Question
question = record { question = some asked; answers = some two_answers }

abbrev entry : Entry
entry = record {
  title = some (codes "T");
  paragraphs = some (record { qas = some (question ∷ []) } ∷ []);
}

abbrev untitled : Entry
untitled = record { title = none; paragraphs = some [] }

tagged :
    (normalize_category asked ≡ codes "non_compete_a")
    × (normalize_category (codes "__ What's up? ") ≡ codes "what_s_up")
unfolding parser_program
tagged = (refl, refl)

abbrev contract : ParsedContract
contract = record {
  contract_id = codes "T";
  filename = codes "T";
  clauses =
      record {
        clause_id = codes "T-T|non_comp";
        contract_id = codes "T";
        category = codes "non_compete_a";
        text = codes "x";
        answer_start = some 3;
      }
      ∷ [];
}

parsed : parse_entry plain_hash entry ≡ ok contract
unfolding parser_program
parsed = refl

stopped :
    parse_entries plain_hash (entry ∷ untitled ∷ entry ∷ []) ≡ (contract ∷ [], raise key_error)
unfolding parser_program
stopped = refl

normalize_category-is_joined_example :
    (normalize_category asked ≡ []) ⊎ (Tags.is_joined true (normalize_category asked) ≡ true)
normalize_category-is_joined_example = Tags.normalize_category-is_joined asked

parse_entry_clauses_example : Contracts.IsParsed plain_hash contract
parse_entry_clauses_example = Contracts.parse_entry_clauses plain_hash entry contract parsed

parse_entries-IsYielded_example :
    Entries.IsYielded plain_hash
      (entry ∷ untitled ∷ entry ∷ [])
      (parse_entries plain_hash (entry ∷ untitled ∷ entry ∷ []))
parse_entries-IsYielded_example =
    Entries.parse_entries-IsYielded plain_hash (entry ∷ untitled ∷ entry ∷ [])
