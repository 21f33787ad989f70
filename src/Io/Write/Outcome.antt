-- ===== src/Io/Write/Outcome.antt =====
-- What a write task comes to.
use forstio.Prelude.{
  bind_some, some-injective, ℕ, zero, suc, ◌+◌, ◌-◌, ◌^◌, ◌≤◌, ◌<◌, ◌≡◌, refl, sym, ap, ◌∙◌, Bool,
  true, ◌⊎◌, inl, inr, Option, none, some, List, ◌∷◌, ◌++◌, length, take, drop, ◌>>=◌, copy_from,
  get_elem?, arith,
}
use forstio.Error.{Error, error, value, is_critical, copy_error}
use forstio.Io.{Fed, feed, fail, tell}
use forstio.Io.Write.{WriteIoTask, WriteTaskAndStepHelper, Answer}

-- The bytes behind the first ones of a block.
pub copy_from-drop :
    (m : List ℕ) (n k l p q : ℕ) (bs : List ℕ)
    → l ≡ n + k
    → q ≡ p + n
    → copy_from m p l ≡ some bs
    → copy_from m q k ≡ some (drop n bs)
unfolding copy_from
copy_from-drop m zero k l p q bs a c e =
    ap (λ j. copy_from m j k) {x = q} {y = p} (omega arith)
    ∙ ap (copy_from m p) {x = k} {y = l} (omega arith)
    ∙ e
copy_from-drop m (suc n) k zero p q bs a c e = absurd (omega arith)
copy_from-drop m (suc n) k (suc l) p q bs a c e =
    let f = bind_some (get_elem? m p) (λ b. copy_from m (suc p) l >>= λ cs. some (b ∷ cs)) bs e in
    let g = bind_some (copy_from m (suc p) l) (λ cs. some (f.0 ∷ cs)) bs f.2 in
    copy_from-drop m n k l (suc p) q g.0 (omega arith) (omega arith) g.1
    ∙ ap (λ (cs : List ℕ). some (drop (suc n) cs)) (some-injective g.2)

pub length-copy_from :
    (m : List ℕ) (p n : ℕ) (bs : List ℕ) → copy_from m p n ≡ some bs → length bs ≡ n
unfolding copy_from
length-copy_from m p zero bs e = sym (ap length (some-injective e))
length-copy_from m p (suc n) bs e =
    let f = bind_some (get_elem? m p) (λ b. copy_from m (suc p) n >>= λ cs. some (b ∷ cs)) bs e in
    let g = bind_some (copy_from m (suc p) n) (λ cs. some (f.0 ∷ cs)) bs f.2 in
    sym (ap length (some-injective g.2)) ∙ ap suc (length-copy_from m (suc p) n g.0 g.1)

-- What a stream does when it is handed a block: it takes one byte at least, from the front, or it
-- reports an error and takes none. `accepted` are all bytes that it has taken.
abbrev pub Accepts : {W : Type 0} → (W → List ℕ) → W → List ℕ → Answer W → Type 0
Accepts accepted w block (error e, w') = accepted w' ≡ accepted w
Accepts accepted w block (value n, w') =
    (1 ≤ n) × (n ≤ length block) × (accepted w' ≡ accepted w ++ take n block)

-- The task after `n` more bytes.
abbrev pub after_write : WriteIoTask → ℕ → WriteIoTask
after_write task n = record {
  buffer = task.buffer + n;
  length = task.length - n;
  already_written = task.already_written + n;
}

-- The helper when `n` bytes have been written for the task: the task is done, has failed, or waits
-- for the rest.
abbrev pub WriteOutcome :
    Bool → WriteIoTask → Option (List Fed) → ℕ → WriteTaskAndStepHelper → Type 0
WriteOutcome memory task told n h =
    ((n ≡ task.length)
      × (h
          ≡ record { write_task = none; write_done = tell (feed (task.already_written + n)) told }))
    ⊎ (((e : Error) × (is_critical e ≡ true)
          × (n < task.length)
          × (h ≡ record { write_task = none; write_done = tell (fail (copy_error memory e)) told }))
        ⊎ ((n < task.length)
            × (h ≡ record { write_task = some (after_write task n); write_done = told })))

pub record HasWritten {W : Type 0} (memory : Bool) (accepted : W → List ℕ) (task : WriteIoTask)
    (told : Option (List Fed)) (block : List ℕ) (w : W) (run : Option (WriteTaskAndStepHelper × W))
    : Type 0 where
  pub count : ℕ
  pub helper : WriteTaskAndStepHelper
  pub stream : W
  pub returned : run ≡ some (helper, stream)
  pub got : accepted stream ≡ accepted w ++ take count block
  pub outcome : WriteOutcome memory task told count helper

-- A task whose positions do not overflow.
pub record InBounds (task : WriteIoTask) : Type 0 where
  pub place : task.buffer + task.length < 2 ^ 63
  pub total : task.already_written + task.length < 2 ^ 64

abbrev pub write_of : ℕ → ℕ → ℕ → WriteIoTask
write_of a b c = record { buffer = a; length = b; already_written = c }

pub write_ap : {a b c a' b' c' : ℕ} → a ≡ a' → b ≡ b' → c ≡ c' → write_of a b c ≡ write_of a' b' c'
write_ap e f g = rw (e, f, g) refl

abbrev pub waiting : WriteIoTask → Option (List Fed) → WriteTaskAndStepHelper
waiting task told = record { write_task = some task; write_done = told }

pub further_from :
    (memory : Bool) (task : WriteIoTask) (told : Option (List Fed)) (n k : ℕ)
    (h : WriteTaskAndStepHelper)
    → n < task.length
    → WriteOutcome memory (after_write task n) told k h
    → WriteOutcome memory task told (n + k) h
further_from memory task told n k h less (inl d) = inl (
  omega (arith, d.0),
  d.1
      ∙ ap (λ j. record { write_task = none; write_done = tell (feed j) told })
          {x = task.already_written + n + k} {y = task.already_written + (n + k)} (omega arith),
)
further_from memory task told n k h less (inr (inl d)) =
    inr (inl (d.0, d.1, omega (arith, d.2), d.3))
further_from memory task told n k h less (inr (inr d)) = inr (
    inr (
      omega (arith, d.0),
      d.1 ∙ ap (λ j. waiting j told) (write_ap (omega arith) (omega arith) (omega arith)),
    ))
