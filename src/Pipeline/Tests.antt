-- ===== src/Pipeline/Tests.antt =====
-- A file of two contracts, two workers that are live, and the process of one of them.
use legallens.Prelude.{
  ℕ, ◌%◌, ◌≡◌, refl, true, List, [], ◌∷◌, map, Text, codes, text_eq, nat_eq, some, none, ok, arith,
  length,
}
use legallens.Prelude.Dict.{lookup}
use legallens.Python.Encoding.{encode_utf8}
use legallens.Python.Strings.{lower, is_space, strip}
use legallens.Redis.{starts_with}
use legallens.Redis.Memory.{memory, Data, nothing}
use legallens.Ring.Samples.{plain_digest, program}
use legallens.Registry.{register, list_workers, refresh_ring, hb_key}
use legallens.Parser.{
  Answer, Entry, ParsedContract, is_tag_char, squash, search_category, normalize_category, dedupe,
  make_contract_id, make_clause_id, answer_clauses, question_clauses, paragraph_clauses,
  parse_entry, parse_entries,
}
use legallens.Dispatcher.{worker_queue_key, owner, dispatch}
use legallens.Worker.{State, beat, cycle, done}
use legallens.VectorStore.Interface.{VectorStore}
use legallens.VectorStore.Local.{local_store}
use legallens.VectorStore.Samples.{plain_numpy, plain_json}
use legallens.Ingest.{Payload, Attempt, World}
use legallens.Ingest.Samples.{payload_codec, payload_dict}
use legallens.Ingest.Success.{IsSmooth}
use legallens.Ingest.Process.{work}
use legallens.Driver.{finished, reached, task_of, enqueue_all, main}
use legallens.Pipeline.{own, driven, all_tables, all_vectors}
use legallens.Pipeline.Delivered

abbrev answer : Answer
answer = record { text = some (codes " x "); answer_start = some 3 }

abbrev entry : Text → Entry
entry title = record {
  title = some title;
  paragraphs = some (
      record {
        qas = some (record { question = some (codes "q"); answers = some (answer ∷ []) } ∷ []);
      }
      ∷ []);
}

abbrev file : List Entry
file = entry (codes "a#x") ∷ entry (codes "c#x") ∷ []

abbrev both_up : Data
both_up = register memory (codes "d") 1 (register memory (codes "b") 0 nothing)

abbrev plain_hash : List ℕ → Text
plain_hash b = b

abbrev vector : Text → ℕ
vector t = length t % 100

abbrev attempt : Payload → Attempt ℕ
attempt payload = record {
  server = record { refuses = λ _. none; refuses_commit = λ _. none; collate = λ _ _. true };
  embed = λ texts. ok (map vector texts);
  sql_now = 1;
  now = 2;
}

abbrev store : VectorStore ℕ ℕ Text
store = local_store plain_numpy plain_json

smooth : (p : Payload) → IsSmooth vector (attempt p)
smooth p = record { accepts = λ s. refl; commits = λ t. refl; embeds = λ texts. refl }

fitting : (t : Text) → store.fits (vector t) ≡ true
fitting t = ground arith

pipeline_program : Unit {0}
unfolding program register list_workers refresh_ring hb_key is_tag_char squash search_category
    normalize_category dedupe make_contract_id make_clause_id answer_clauses question_clauses
    paragraph_clauses parse_entry parse_entries worker_queue_key reached task_of enqueue_all main
    lookup text_eq nat_eq owner dispatch starts_with lower is_space strip encode_utf8
pipeline_program = tt

enqueued :
    (driven memory payload_codec payload_dict.write plain_digest plain_hash file 5 both_up).0
    ≡ ok (finished 2)
unfolding pipeline_program
enqueued = refl

ids_of : List ParsedContract → List Text
ids_of cs = map (λ c. c.contract_id) cs

shared_out :
    (ids_of (
        own memory payload_codec payload_dict.write plain_digest plain_hash file 5 both_up
          (codes "b"))
      ≡ codes "a#x" ∷ [])
    × (ids_of (
          own memory payload_codec payload_dict.write plain_digest plain_hash file 5 both_up
            (codes "d"))
        ≡ codes "c#x" ∷ [])
unfolding pipeline_program ids_of
shared_out = (refl, refl)

start : World store
start = record {
  tables = record { contracts = []; clauses = [] };
  vectors = (record { vectors = []; manifest = [] }, record { vectors = none; manifest = none });
}

abbrev state : State Data Payload (World store)
state = record {
  store = (driven memory payload_codec payload_dict.write plain_digest plain_hash file 5 both_up).1;
  world = start;
  log = [];
}

start-IsValid : store.IsValid start.vectors
unfolding start
start-IsValid = record { parallel = refl; nodup = tt }

no_tasks : memory.entries both_up (worker_queue_key (codes "b")) ≡ []
unfolding pipeline_program
no_tasks = refl

work-main_example :
    (2 ≡ length file)
    × ((s : Data) × (world : World store) × (work store payload_dict attempt memory payload_codec
            (cycle ∷ beat 7 ∷ cycle ∷ [])
            (codes "b")
            6
            state
          ≡ (
            ok tt,
            record {
              store = s;
              world = world;
              log =
                  map
                    (λ c. done (task_of payload_dict.write c))
                    (own memory payload_codec payload_dict.write plain_digest plain_hash file 5
                      both_up
                      (codes "b"));
            },
          ))
        × (memory.entries s (worker_queue_key (codes "b")) ≡ [])
        × (world.tables
            ≡ all_tables store attempt
                (own memory payload_codec payload_dict.write plain_digest plain_hash file 5 both_up
                  (codes "b"))
                start.tables)
        × (store.contents world.vectors
            ≡ all_vectors store vector
                (own memory payload_codec payload_dict.write plain_digest plain_hash file 5 both_up
                  (codes "b"))
                (store.contents start.vectors)))
work-main_example =
    Delivered.work-main memory payload_codec store payload_dict vector attempt smooth fitting
      plain_digest plain_hash file 5 2 both_up enqueued (codes "b") (cycle ∷ beat 7 ∷ cycle ∷ []) 6
      state refl no_tasks (omega arith) start-IsValid
