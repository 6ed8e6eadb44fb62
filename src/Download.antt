-- ===== src/Download.antt =====
-- scripts/download_cuad.py, `download`. A file is its bytes; the directory is there. httpx is a parameter:
-- a run meets an exception or a response.
pub mod Runs
mod Tests
use legallens.Prelude.{ℕ, List, [], ◌∷◌, ◌++◌, Text, Option, none, some, Outcome, ok, raise, ◌>>=◌}
use legallens.Python.Integers.{ℤ, pos, int}

abbrev pub Bytes : Type 0
Bytes = List ℕ

-- What the stream gives: the status, the header, the chunks, and how it ends.
pub record Response : Type 0 where
  -- `raise_for_status()`
  pub status : Outcome (Unit {0})
  -- `headers.get("content-length")`
  pub content_length : Option Text
  pub chunks : List Bytes
  pub ending : Outcome (Unit {0})

-- `int(headers.get("content-length", 0))`
unfoldable pub total : Option Text → Outcome ℤ
unfolding int
total none = ok (pos 0)
total (some t) = int t

-- The loop over the chunks, behind what is written.
unfoldable pub write_chunks : List Bytes → Bytes → Bytes
write_chunks [] written = written
write_chunks (chunk ∷ chunks) written = write_chunks chunks (written ++ chunk)

-- From the response on, up to the file.
unfoldable pub checked : Outcome Response → Outcome Response
unfolding total
checked (raise e) = raise e
checked (ok response) = do _ ← response.status; _ ← total response.content_length; ok response

-- The file is opened, so it is there from then on, and it is closed also where the stream breaks off.
unfoldable pub save : Outcome Response → Outcome (Unit {0}) × Option Bytes
unfolding write_chunks
save (raise e) = (raise e, none)
save (ok response) = (response.ending, some (write_chunks response.chunks []))

-- A run, on the file that is there.
unfoldable pub download : Outcome Response → Option Bytes → Outcome (Unit {0}) × Option Bytes
unfolding checked save
download stream (some output) = (ok tt, some output)
download stream none = save (checked stream)
