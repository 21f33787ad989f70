-- ===== src/Io.antt =====
-- The helpers of the drivers: source/forstio/io_helpers.h and source/forstio/io_helpers.cpp. A
-- stream is a parameter: what it answers to a call, and the stream afterwards. A feeder is the list
-- of what it has been told; `none` is a null pointer. A pointer into the caller's memory is an index.
-- The third branch of the source, a variant that holds nothing, does not arise.
pub mod Read
pub mod Write
pub mod Peer
pub mod Stream
use forstio.Prelude.{
  ℕ, zero, suc, Bool, true, false, Option, none, some, List, [], ◌∷◌, ◌++◌, length, leb, ◌&&◌,
  if◌then◌else◌, ◌>>=◌, add_size, sub_size, copy_to,
}
use forstio.Error.{Error, ErrorOr, error, value, is_critical, copy_error}

-- What `ConveyorFeeder<size_t>` is told.
pub data Fed : Type 0 where
  feed : ℕ → Fed
  fail : Error → Fed

pub record ReadIoTask : Type 0 where
  pub buffer : ℕ
  pub min_length : ℕ
  pub max_length : ℕ
  pub already_read : ℕ

pub record ReadTaskAndStepHelper : Type 0 where
  pub read_task : Option ReadIoTask
  pub read_done : Option (List Fed)

-- `if(read_done){ read_done->…; }`
unfoldable pub tell : Fed → Option (List Fed) → Option (List Fed)
tell x none = none
tell x (some xs) = some (xs ++ x ∷ [])

-- What `InputStream::read` answers: the bytes that it has put into the buffer, or an error.
abbrev pub Answer : Type 0 → Type 0
Answer R = ErrorOr (List ℕ) × R

-- `memory` tells whether there is memory to copy the text of an error.
module _ {R : Type 0} (memory : Bool) (reader : R → ℕ → Answer R) where
  -- The body of the loop of `readStep` after the call; the Boolean tells of a `break`.
  unfoldable pub read_answer :
      ReadIoTask
      → ReadTaskAndStepHelper
      → List ℕ
      → Answer R
      → Option (Bool × ReadTaskAndStepHelper × List ℕ × R)
  read_answer task h m (error e, r) =
      if is_critical e
      then some (
        true,
        record { read_task = none; read_done = tell (fail (copy_error memory e)) h.read_done },
        m,
        r,
      )
      else some (true, h, m, r)
  read_answer task h m (value bs, r) = do
    m' ← copy_to m task.buffer bs
    let n = length bs
    if leb task.min_length n && leb n task.max_length
        then some (
          false,
          record {
            read_task = none;
            read_done = tell (feed (add_size n task.already_read)) h.read_done;
          },
          m',
          r,
        )
        else some (
          false,
          record h {
            read_task = some (record {
              buffer = add_size task.buffer n;
              min_length = sub_size task.min_length n;
              max_length = sub_size task.max_length n;
              already_read = add_size task.already_read n;
            });
          },
          m',
          r,
        )

  -- The loop of `readStep` on fuel, by the task that there is.
  unfoldable pub read_loop :
      ℕ
      → Option ReadIoTask
      → ReadTaskAndStepHelper
      → List ℕ
      → R
      → Option (ReadTaskAndStepHelper × List ℕ × R)
  read_loop fuel none h m r = some (h, m, r)
  read_loop zero (some task) h m r = none
  read_loop (suc fuel) (some task) h m r = do
    q ← read_answer task h m (reader r task.max_length)
    if q.0 then some (q.1, q.2, q.3) else read_loop fuel q.1.read_task q.1 q.2 q.3

  -- `ReadTaskAndStepHelper::readStep`
  unfoldable pub read_step :
      ℕ → ReadTaskAndStepHelper → List ℕ → R → Option (ReadTaskAndStepHelper × List ℕ × R)
  read_step fuel h m r = read_loop fuel h.read_task h m r
