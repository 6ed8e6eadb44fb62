-- ===== src/Download/Tests.antt =====
-- A stream that breaks off, and a whole one after it.
use legallens.Prelude.{◌≡◌, refl, [], ◌∷◌, codes, some, none, ok, raise, other, value_error}
use legallens.Python.Strings.{is_space, strip}
use legallens.Python.Integers.{digits, signed, int}
use legallens.Download.{Response, total, checked, save, write_chunks, download}
use legallens.Download.Runs.{runs, runs-first_body}

download_program : Unit {0}
unfolding is_space strip digits signed int total checked save write_chunks download
download_program = tt

abbrev broken : Response
broken = record {
  status = ok tt;
  content_length = some (codes "4");
  chunks = (1 ∷ 2 ∷ []) ∷ [];
  ending = raise (other (codes "timeout"));
}

abbrev whole : Response
whole = record {
  status = ok tt;
  content_length = none;
  chunks = (1 ∷ 2 ∷ []) ∷ (3 ∷ 4 ∷ []) ∷ [];
  ending = ok tt;
}

broke_off : download (ok broken) none ≡ (raise (other (codes "timeout")), some (1 ∷ 2 ∷ []))
unfolding download_program
broke_off = refl

no_length :
    download (ok (record whole { content_length = some (codes "x") })) none
    ≡ (raise value_error, none)
unfolding download_program
no_length = refl

runs-first_body_example :
    runs (raise (other []) ∷ ok broken ∷ ok whole ∷ []) none ≡ some (1 ∷ 2 ∷ [])
unfolding download_program
runs-first_body_example = runs-first_body (raise (other []) ∷ ok broken ∷ ok whole ∷ [])
