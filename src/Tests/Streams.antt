-- ===== src/Tests/Streams.antt =====
-- The theorems on `readStep` and `writeStep` at streams that move one byte at a time.
use forstio.Prelude.{ℕ, List, [], ◌∷◌, ◌++◌, length}
use forstio.Error.{error, value, recoverable_error}
use forstio.Io.{ReadIoTask, ReadTaskAndStepHelper}
use forstio.Io as Io
use forstio.Io.Write.{WriteIoTask}
use forstio.Io.Write as Write

-- what has been delivered, and what is to come
abbrev source : List ℕ × List ℕ → ℕ → Io.Answer (List ℕ × List ℕ)
source (d, []) n = (error (recoverable_error "Currently busy"), (d, []))
source (d, x ∷ xs) n = (value (x ∷ []), (d ++ x ∷ [], xs))

abbrev wanted : ReadIoTask
wanted = record { buffer = 1; min_length = 2; max_length = 3; already_read = 4 }

abbrev place : List ℕ
place = 0 ∷ 0 ∷ 0 ∷ 0 ∷ 0 ∷ []

-- what has been taken
abbrev sink : List ℕ → List ℕ → Write.Answer (List ℕ)
sink w [] = (error (recoverable_error "Currently busy"), w)
sink w (x ∷ xs) = (value 1, w ++ x ∷ [])

abbrev sending : WriteIoTask
sending = record { buffer = 1; length = 2; already_written = 4 }

abbrev letters : List ℕ
letters = 5 ∷ 6 ∷ 7 ∷ []
