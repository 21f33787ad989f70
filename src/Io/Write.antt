-- ===== src/Io/Write.antt =====
-- `WriteTaskAndStepHelper` of source/forstio/io_helpers.h and source/forstio/io_helpers.cpp.
pub mod Outcome
pub mod Correct
use forstio.Prelude.{
  ℕ, zero, suc, Bool, true, false, Option, none, some, List, leb, ◌==◌, if◌then◌else◌, ◌>>=◌, ◌>>◌,
  assert, add_size, sub_size, copy_from,
}
use forstio.Error.{ErrorOr, error, value, is_critical, copy_error}
use forstio.Io.{Fed, feed, fail, tell}

pub record WriteIoTask : Type 0 where
  pub buffer : ℕ
  pub length : ℕ
  pub already_written : ℕ

pub record WriteTaskAndStepHelper : Type 0 where
  pub write_task : Option WriteIoTask
  pub write_done : Option (List Fed)

-- What `OutputStream::write` answers: how many bytes it has taken, or an error.
abbrev pub Answer : Type 0 → Type 0
Answer W = ErrorOr ℕ × W

module _ {W : Type 0} (memory : Bool) (writer : W → List ℕ → Answer W) where
  -- The body of the loop of `writeStep` after the call; the Boolean tells of a `break`.
  unfoldable pub write_answer :
      WriteIoTask → WriteTaskAndStepHelper → Answer W → Option (Bool × WriteTaskAndStepHelper × W)
  write_answer task h (value n, w) = do
    assert (leb n task.length)
    if n == task.length
        then some (
          false,
          record {
            write_task = none;
            write_done = tell (feed (add_size n task.already_written)) h.write_done;
          },
          w,
        )
        else some (
          false,
          record h {
            write_task = some (record {
              buffer = add_size task.buffer n;
              length = sub_size task.length n;
              already_written = add_size task.already_written n;
            });
          },
          w,
        )
  write_answer task h (error e, w) =
      if is_critical e
      then some (
        true,
        record { write_task = none; write_done = tell (fail (copy_error memory e)) h.write_done },
        w,
      )
      else some (true, h, w)

  -- The loop of `writeStep` on fuel, by the task that there is; the stream is handed the bytes that
  -- stand in the memory `m` at the task's pointer.
  unfoldable pub write_loop :
      ℕ
      → Option WriteIoTask
      → WriteTaskAndStepHelper
      → List ℕ
      → W
      → Option (WriteTaskAndStepHelper × W)
  write_loop fuel none h m w = some (h, w)
  write_loop zero (some task) h m w = none
  write_loop (suc fuel) (some task) h m w = do
    block ← copy_from m task.buffer task.length
    q ← write_answer task h (writer w block)
    if q.0 then some (q.1, q.2) else write_loop fuel q.1.write_task q.1 m q.2

  -- `WriteTaskAndStepHelper::writeStep`
  unfoldable pub write_step :
      ℕ → WriteTaskAndStepHelper → List ℕ → W → Option (WriteTaskAndStepHelper × W)
  write_step fuel h m w = write_loop fuel h.write_task h m w
