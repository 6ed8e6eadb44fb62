-- ===== src/Ingest/Samples.antt =====
-- A codec for tasks with payloads, for the examples.
use legallens.Prelude.{
  ℕ, zero, suc, ◌≡◌, refl, ap, ◌∙◌, List, [], ◌∷◌, ◌++◌, Text, Option, some, none, Outcome, ok,
  raise, type_error, ◌>>=◌, length, take, drop, take-length-append, drop-length-append,
}
use legallens.Parser.{ParsedClause}
use legallens.Dispatcher.{Task, Codec}
use legallens.Ingest.{Payload}
use legallens.Ingest.Process.{PayloadDict}

-- A value in front of a rest, and back.
pub record Format (A : Type 0) : Type 0 where
  pub put : A → Text → Text
  pub get : Text → Outcome (A × Text)
  pub get-put : (a : A) (rest : Text) → get (put a rest) ≡ ok (a, rest)

-- A text behind its length.
abbrev get_text : Text → Outcome (Text × Text)
get_text [] = raise type_error
get_text (n ∷ s) = ok (take n s, drop n s)

abbrev text : Format Text
text = record {
  put = λ t rest. length t ∷ (t ++ rest);
  get = get_text;
  get-put = λ t rest. rw (take-length-append t rest, drop-length-append t rest);
}

abbrev get_number : Text → Outcome (ℕ × Text)
get_number [] = raise type_error
get_number (n ∷ s) = ok (n, s)

abbrev number : Format ℕ
number = record { put = ◌∷◌; get = get_number; get-put = λ n rest. refl }

module _ {A B : Type 0} (f : Format A) where
  abbrev get_pair : Format B → Text → Outcome ((A × B) × Text)
  get_pair g s = f.get s >>= (λ a. g.get a.1 >>= (λ b. ok ((a.0, b.0), b.1)))

  abbrev pair : Format B → Format (A × B)
  pair g = record {
    put = λ p rest. f.put p.0 (g.put p.1 rest);
    get = get_pair g;
    get-put = λ p rest. rw (f.get-put p.0 (g.put p.1 rest), g.get-put p.1 rest);
  }

  -- Through a type that is the same but for its form.
  abbrev along : (to : A → B) (from : B → A) → ((b : B) → to (from b) ≡ b) → Format B
  along to from e = record {
    put = λ b rest. f.put (from b) rest;
    get = λ s. f.get s >>= (λ a. ok (to a.0, a.1));
    get-put = λ b rest.
        ap (λ o. o >>= (λ a. ok (to a.0, a.1))) (f.get-put (from b) rest)
        ∙ ap (λ c. ok (c, rest)) (e b);
  }

module _ {A : Type 0} (f : Format A) where
  abbrev pub put_all : List A → Text → Text
  put_all [] rest = rest
  put_all (a ∷ xs) rest = f.put a (put_all xs rest)

  abbrev pub get_all : ℕ → Text → Outcome (List A × Text)
  get_all zero s = ok ([], s)
  get_all (suc n) s = f.get s >>= (λ a. get_all n a.1 >>= (λ xs. ok (a.0 ∷ xs.0, xs.1)))

  pub get_all-put_all :
      (xs : List A) (rest : Text) → get_all (length xs) (put_all xs rest) ≡ ok (xs, rest)
  get_all-put_all [] rest = refl
  get_all-put_all (a ∷ xs) rest = rw (f.get-put a (put_all xs rest), get_all-put_all xs rest)

  -- The values behind their number.
  abbrev get_list : Text → Outcome (List A × Text)
  get_list [] = raise type_error
  get_list (n ∷ s) = get_all n s

  abbrev list : Format (List A)
  list = record {
    put = λ xs rest. length xs ∷ put_all xs rest;
    get = get_list;
    get-put = get_all-put_all;
  }

abbrev pub to_option : {A : Type 0} → List A → Option A
to_option [] = none
to_option (a ∷ _) = some a

abbrev pub from_option : {A : Type 0} → Option A → List A
from_option none = []
from_option (some a) = a ∷ []

pub to_option-from_option : {A : Type 0} (o : Option A) → to_option (from_option o) ≡ o
to_option-from_option none = refl
to_option-from_option (some a) = refl

abbrev optional : {A : Type 0} → Format A → Format (Option A)
optional f = along (list f) to_option from_option to_option-from_option

abbrev clause_format : Format ParsedClause
clause_format =
    along (pair text (pair text (pair text (pair text (optional number)))))
      (λ p. record {
        clause_id = p.0;
        contract_id = p.1.0;
        category = p.1.1.0;
        text = p.1.1.1.0;
        answer_start = p.1.1.1.1;
      })
      (λ c. (c.clause_id, (c.contract_id, (c.category, (c.text, c.answer_start))))) (λ c. refl)

abbrev payload_format : Format Payload
payload_format =
    along (pair text (pair text (list clause_format)))
      (λ p. record { contract_id = p.0; filename = p.1.0; clauses = p.1.1 })
      (λ p. (p.contract_id, (p.filename, p.clauses))) (λ p. refl)

abbrev pub task_format : Format (Task Payload)
task_format =
    along (pair text (pair text (pair payload_format (optional text))))
      (λ p. record { kind = p.0; routing_key = p.1.0; payload = p.1.1.0; task_id = p.1.1.1 })
      (λ t. (t.kind, (t.routing_key, (t.payload, t.task_id)))) (λ t. refl)

abbrev pub load : Text → Outcome (Task Payload)
load s = task_format.get s >>= (λ t. ok t.0)

pub load-dump : (t : Task Payload) → load (task_format.put t []) ≡ ok t
load-dump t = ap (λ o. o >>= (λ x. ok x.0)) (task_format.get-put t [])

abbrev pub payload_codec : Codec Payload
payload_codec = record {
  dump_json = λ t. task_format.put t [];
  validate_json = load;
  load_json = load;
  decode_utf8 = ok;
  validate-dump = load-dump;
  load-dump = load-dump;
}

-- Payloads stand for their dicts.
abbrev pub payload_dict : PayloadDict Payload
payload_dict = record { write = λ p. p; read = ok; read-write = λ p. refl }
