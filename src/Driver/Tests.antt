-- ===== src/Driver/Tests.antt =====
-- The driver on a server in memory with two workers.
use legallens.Prelude.{[], Text, codes, nat_eq, text_eq}
use legallens.Redis.Memory.{memory, Data, nothing}
use legallens.Registry.{register}
use legallens.Parser.{ParsedContract}
use legallens.Ingest.{Payload}
use legallens.Driver.Enqueued

abbrev both_up : Data
both_up = register memory (codes "d") 1 (register memory (codes "b") 0 nothing)

abbrev contract : Text → ParsedContract
contract id = record { contract_id = id; filename = codes "f"; clauses = [] }

abbrev forget : Payload → Unit {0}
forget p = tt
