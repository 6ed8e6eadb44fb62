-- ===== src/Dispatcher/Samples.antt =====
-- A codec for tasks that have no payload, for the examples.
use legallens.Prelude.{
  ◌≡◌, refl, [], ◌∷◌, ◌++◌, length, take, drop, take-length-append, drop-length-append, some, none,
  Option, Outcome, ok, raise, type_error, Text, codes, text_eq, nat_eq,
}
use legallens.Dispatcher.{Task, Codec}

abbrev pub PlainTask : Type 0
PlainTask = Task (Unit {0})

abbrev pub dump_id : Option Text → Text
dump_id none = []
dump_id (some i) = 0 ∷ i

-- Each text behind its length.
abbrev pub dump : PlainTask → Text
dump t = length t.kind ∷ (t.kind ++ (length t.routing_key ∷ (t.routing_key ++ dump_id t.task_id)))

abbrev pub load_id : Text → Option Text
load_id [] = none
load_id (_ ∷ i) = some i

abbrev pub load_key : Text → Text → Outcome PlainTask
load_key kind [] = raise type_error
load_key kind (n ∷ s) =
    ok (record { kind = kind; routing_key = take n s; payload = tt; task_id = load_id (drop n s) })

abbrev pub load : Text → Outcome PlainTask
load [] = raise type_error
load (n ∷ s) = load_key (take n s) (drop n s)

load_id-dump_id : (i : Option Text) → load_id (dump_id i) ≡ i
load_id-dump_id none = refl
load_id-dump_id (some i) = refl

pub load-dump : (t : PlainTask) → load (dump t) ≡ ok t
load-dump t =
    let key = length t.routing_key ∷ (t.routing_key ++ dump_id t.task_id) in
    rw (
      take-length-append t.kind key,
      drop-length-append t.kind key,
      take-length-append t.routing_key (dump_id t.task_id),
      drop-length-append t.routing_key (dump_id t.task_id),
      load_id-dump_id t.task_id,
    )

abbrev pub plain_codec : Codec (Unit {0})
plain_codec = record {
  dump_json = dump;
  validate_json = load;
  load_json = load;
  decode_utf8 = ok;
  validate-dump = load-dump;
  load-dump = load-dump;
}

abbrev pub task_for : Text → PlainTask
task_for key = record {
  kind = codes "ingest_contract";
  routing_key = key;
  payload = tt;
  task_id = none;
}
