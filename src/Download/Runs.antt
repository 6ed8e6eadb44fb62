-- ===== src/Download/Runs.antt =====
-- Several runs, one after another.
use mathlib.Core.List.{append_assoc, append-nil}
use legallens.Prelude.{
  ◌≡◌, refl, ap, sym, ◌∙◌, List, [], ◌∷◌, ◌++◌, Option, none, some, Outcome, ok, raise,
}
use legallens.Download.{Bytes, Response, write_chunks, checked, save, download}

-- The file after the runs, each of which meets its own stream.
abbrev pub runs : List (Outcome Response) → Option Bytes → Option Bytes
runs [] file = file
runs (stream ∷ streams) file = runs streams (download stream file).1

abbrev pub concat : List Bytes → Bytes
concat [] = []
concat (chunk ∷ chunks) = chunk ++ concat chunks

abbrev pub or_body : Option Bytes → Outcome Response → Option Bytes
or_body later (raise e) = later
or_body later (ok response) = some (concat response.chunks)

-- The body of the first response that passes the checks, as far as it arrived.
abbrev pub first_body : List (Outcome Response) → Option Bytes
first_body [] = none
first_body (stream ∷ streams) = or_body (first_body streams) (checked stream)

write_chunks-concat :
    (chunks : List Bytes) (written : Bytes) → write_chunks chunks written ≡ written ++ concat chunks
unfolding write_chunks
write_chunks-concat [] written = sym (append-nil written)
write_chunks-concat (chunk ∷ chunks) written =
    write_chunks-concat chunks (written ++ chunk) ∙ append_assoc written chunk (concat chunks)

runs-some :
    (streams : List (Outcome Response)) (file : Bytes) → runs streams (some file) ≡ some file
unfolding download
runs-some [] file = refl
runs-some (stream ∷ streams) file = runs-some streams file

runs-save :
    (stream : Outcome Response) (streams : List (Outcome Response))
    → runs streams none ≡ first_body streams
    → runs streams (save stream).1 ≡ or_body (first_body streams) stream
unfolding save
runs-save (raise e) streams h = h
runs-save (ok response) streams h =
    runs-some streams (write_chunks response.chunks [])
    ∙ ap some (write_chunks-concat response.chunks [])

-- However often the script is run, the file holds what arrived of the first body that began to arrive,
-- also where that stream broke off and the run raised: no later run completes it or replaces it.
pub runs-first_body : (streams : List (Outcome Response)) → runs streams none ≡ first_body streams
unfolding download
runs-first_body [] = refl
runs-first_body (stream ∷ streams) = runs-save (checked stream) streams (runs-first_body streams)
