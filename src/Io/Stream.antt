-- ===== src/Io/Stream.antt =====
-- `AsyncIoStream` of source/forstio/io.cpp: how a read and a write begin. A pointer that is not null is
-- an index into the caller's memory.
use forstio.Prelude.{
  ℕ, ◌+◌, ◌≤◌, ◌<◌, ◌^◌, ◌≡◌, Bool, true, false, ◌&&◌, Option, none, some, List, length, leb, ltb,
  ◌>>◌, assert, copy_from, arith, le→leb, lt→ltb,
}
use forstio.Io.{Fed, ReadIoTask, ReadTaskAndStepHelper, read_step}
use forstio.Io as Io
use forstio.Io.Read.{read_step_lem}
use forstio.Io.Read.Outcome.{Delivers, HasRead}
use forstio.Io.Write.{WriteIoTask, WriteTaskAndStepHelper, write_step}
use forstio.Io.Write as Write
use forstio.Io.Write.Correct.{write_step_lem}
use forstio.Io.Write.Outcome.{Accepts, HasWritten}

-- `!has_value()`
abbrev pub is_none : {A : Type 0} → Option A → Bool
is_none none = true
is_none (some a) = false

-- `AsyncIoStream::read`, with the fuel of `readStep`.
unfoldable pub read :
    {R : Type 0}
    → Bool
    → (R → ℕ → Io.Answer R)
    → ℕ
    → ℕ
    → ℕ
    → ℕ
    → ReadTaskAndStepHelper
    → List ℕ
    → R
    → Option (ReadTaskAndStepHelper × List ℕ × R)
read memory reader fuel buffer min_length max_length h m r = do
  assert (leb min_length max_length && ltb 0 min_length)
  assert (is_none h.read_task)
  let task : ReadIoTask = record {
    buffer = buffer;
    min_length = min_length;
    max_length = max_length;
    already_read = 0;
  }
  read_step memory reader fuel (record h { read_task = some task }) m r

-- `AsyncIoStream::write`, with the fuel of `writeStep`.
unfoldable pub write :
    {W : Type 0}
    → Bool
    → (W → List ℕ → Write.Answer W)
    → ℕ
    → ℕ
    → ℕ
    → WriteTaskAndStepHelper
    → List ℕ
    → W
    → Option (WriteTaskAndStepHelper × W)
write memory writer fuel buffer length h m w = do
  assert (ltb 0 length)
  assert (is_none h.write_task)
  let task : WriteIoTask = record { buffer = buffer; length = length; already_written = 0 }
  write_step memory writer fuel (record h { write_task = some task }) m w

-- A `read` where none is under way, of at least one byte and into the caller's memory, passes its
-- assertions and does what `readStep` does with the new task.
pub read-HasRead :
    {R : Type 0} (memory : Bool) (reader : R → ℕ → Io.Answer R) (delivered : R → List ℕ)
    → ((r : R) (n : ℕ) → 1 ≤ n → Delivers delivered r n (reader r n))
    → (fuel buffer min_length max_length : ℕ) (told : Option (List Fed)) (m : List ℕ) (r : R)
    → 1 ≤ min_length
    → min_length ≤ max_length
    → min_length ≤ fuel
    → buffer + max_length ≤ length m
    → length m < 2 ^ 63
    → HasRead memory delivered
        (record {
          buffer = buffer;
          min_length = min_length;
          max_length = max_length;
          already_read = 0;
        })
        told
        m
        r
        (read memory reader fuel buffer min_length max_length
          (record { read_task = none; read_done = told })
          m
          r)
unfolding read
read-HasRead memory reader delivered good fuel b a c told m r one le enough room small =
    rw (le→leb a c le, lt→ltb 0 a (omega (arith, one)))
      (read_step_lem memory reader delivered good fuel
        (record { buffer = b; min_length = a; max_length = c; already_read = 0 }) told m r
        (record { ordered = le; room = room; small = small; count = omega (arith, room, small) })
        one enough)

-- A `write` where none is under way, of at least one byte of the caller's memory, passes its assertions
-- and does what `writeStep` does with the new task.
pub write-HasWritten :
    {W : Type 0} (memory : Bool) (writer : W → List ℕ → Write.Answer W) (accepted : W → List ℕ)
    → ((w : W) (block : List ℕ) → 1 ≤ length block → Accepts accepted w block (writer w block))
    → (fuel buffer size : ℕ) (told : Option (List Fed)) (m block : List ℕ) (w : W) → 1 ≤ size
    → size ≤ fuel
    → buffer + size < 2 ^ 63
    → copy_from m buffer size ≡ some block
    → HasWritten memory accepted
        (record { buffer = buffer; length = size; already_written = 0 })
        told
        block
        w
        (write memory writer fuel buffer size (record { write_task = none; write_done = told }) m w)
unfolding write
write-HasWritten memory writer accepted good fuel b n told m block w one enough room from =
    rw (lt→ltb 0 n (omega (arith, one))) (
      write_step_lem memory writer accepted good fuel
        (record { buffer = b; length = n; already_written = 0 }) told m block w
        (record { place = room; total = omega (arith, room) }) one enough from)
