-- ===== src/Io/Read/Outcome.antt =====
-- What a read task comes to.
use forstio.Prelude.{
  ℕ, suc, ◌+◌, ◌-◌, ◌^◌, ◌≤◌, ◌<◌, ◌≡◌, refl, ap, ◌∙◌, Bool, true, ◌⊎◌, inl, inr, Option, none,
  some, List, [], ◌∷◌, ◌++◌, length, copy_to, overwrite, set, arith, lt→ltb,
}
use forstio.Prelude.Laws.{length-overwrite, length-set}
use forstio.Error.{Error, error, value, is_critical, copy_error}
use forstio.Io.{Fed, feed, fail, ReadIoTask, ReadTaskAndStepHelper, tell, Answer}

pub overwrite-append :
    (m : List ℕ) (p : ℕ) (xs ys : List ℕ)
    → overwrite (overwrite m p xs) (p + length xs) ys ≡ overwrite m p (xs ++ ys)
overwrite-append m p [] ys = ap (λ k. overwrite m k ys) (omega arith)
overwrite-append m p (x ∷ xs) ys =
    ap (λ k. overwrite (overwrite (set m p x) (suc p) xs) k ys) (omega arith)
    ∙ overwrite-append (set m p x) (suc p) xs ys

pub copy_to-overwrite :
    (m : List ℕ) (p : ℕ) (bs : List ℕ)
    → p + length bs ≤ length m
    → copy_to m p bs ≡ some (overwrite m p bs)
unfolding copy_to
copy_to-overwrite m p [] h = refl
copy_to-overwrite m p (b ∷ bs) h =
    rw (lt→ltb p (length m) (omega arith))
      (copy_to-overwrite (set m p b) (suc p) bs (rw length-set (omega arith)))

-- What a stream does when it is asked for at most `n` bytes: it delivers one at least, or it
-- reports an error and delivers none. `delivered` are all bytes that it has handed out.
abbrev pub Delivers : {R : Type 0} → (R → List ℕ) → R → ℕ → Answer R → Type 0
Delivers delivered r n (error e, r') = delivered r' ≡ delivered r
Delivers delivered r n (value bs, r') =
    (1 ≤ length bs) × (length bs ≤ n) × (delivered r' ≡ delivered r ++ bs)

-- The task after `n` more bytes.
abbrev pub after : ReadIoTask → ℕ → ReadIoTask
after task n = record {
  buffer = task.buffer + n;
  min_length = task.min_length - n;
  max_length = task.max_length - n;
  already_read = task.already_read + n;
}

-- The helper when `n` bytes have been read for the task: the task is done, has failed, or waits
-- for the rest.
abbrev pub ReadOutcome : Bool → ReadIoTask → Option (List Fed) → ℕ → ReadTaskAndStepHelper → Type 0
ReadOutcome memory task told n h =
    ((task.min_length ≤ n)
      × (n ≤ task.max_length)
      × (h ≡ record { read_task = none; read_done = tell (feed (task.already_read + n)) told }))
    ⊎ (((e : Error) × (is_critical e ≡ true)
          × (n < task.min_length)
          × (h ≡ record { read_task = none; read_done = tell (fail (copy_error memory e)) told }))
        ⊎ ((n < task.min_length)
            × (h ≡ record { read_task = some (after task n); read_done = told })))

pub record HasRead {R : Type 0} (memory : Bool) (delivered : R → List ℕ) (task : ReadIoTask)
    (told : Option (List Fed)) (m : List ℕ) (r : R)
    (run : Option (ReadTaskAndStepHelper × List ℕ × R)) : Type 0 where
  pub bytes : List ℕ
  pub helper : ReadTaskAndStepHelper
  pub stream : R
  pub returned : run ≡ some (helper, overwrite m task.buffer bytes, stream)
  pub got : delivered stream ≡ delivered r ++ bytes
  pub outcome : ReadOutcome memory task told (length bytes) helper

-- A task whose positions do not overflow and that has room in the memory.
pub record Fits (task : ReadIoTask) (m : List ℕ) : Type 0 where
  pub ordered : task.min_length ≤ task.max_length
  pub room : task.buffer + task.max_length ≤ length m
  pub small : length m < 2 ^ 63
  pub count : task.already_read + task.max_length < 2 ^ 64

abbrev pub task_of : ℕ → ℕ → ℕ → ℕ → ReadIoTask
task_of a b c d = record { buffer = a; min_length = b; max_length = c; already_read = d }

pub task_ap :
    {a b c d a' b' c' d' : ℕ}
    → a ≡ a'
    → b ≡ b'
    → c ≡ c'
    → d ≡ d'
    → task_of a b c d ≡ task_of a' b' c' d'
task_ap {a} {b} {c} {d} e f g h = rw (e, f, g, h) refl

pub after-zero : (task : ReadIoTask) → after task 0 ≡ task
after-zero task = task_ap (omega arith) (omega arith) (omega arith) (omega arith)

pub after-Fits :
    (task : ReadIoTask) (m bs : List ℕ)
    → Fits task m
    → length bs < task.min_length
    → Fits (after task (length bs)) (overwrite m task.buffer bs)
after-Fits task m bs fit less = record {
  ordered = omega (arith, fit.ordered);
  room = omega (arith, fit.ordered, fit.room, length-overwrite m task.buffer bs);
  small = omega (arith, fit.small, length-overwrite m task.buffer bs);
  count = omega (arith, fit.ordered, fit.count);
}

pub further_from :
    (memory : Bool) (task : ReadIoTask) (told : Option (List Fed)) (n k : ℕ)
    (h : ReadTaskAndStepHelper)
    → n < task.min_length
    → task.min_length ≤ task.max_length
    → ReadOutcome memory (after task n) told k h
    → ReadOutcome memory task told (n + k) h
further_from memory task told n k h less o (inl d) = inl (
  omega (arith, d.0),
  omega (arith, d.1),
  d.2
      ∙ ap (λ j. record { read_task = none; read_done = tell (feed j) told })
          {x = task.already_read + n + k} {y = task.already_read + (n + k)} (omega arith),
)
further_from memory task told n k h less o (inr (inl d)) =
    inr (inl (d.0, d.1, omega (arith, d.2), d.3))
further_from memory task told n k h less o (inr (inr d)) = inr (
    inr (
      omega (arith, d.0),
      d.1
          ∙ ap (λ j. record { read_task = some j; read_done = told })
              (task_ap (omega arith) (omega arith) (omega arith) (omega arith)),
    ))
