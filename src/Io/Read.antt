-- ===== src/Io/Read.antt =====
-- `readStep` reads until the task is done, fails or has to wait.
pub mod Outcome
use mathlib.Core.Path.{subst}
use forstio.Prelude.{
  ℕ, zero, suc, ◌+◌, ◌-◌, ◌^◌, ◌≤◌, ◌<◌, ◌≡◌, refl, sym, ap, ◌∙◌, Bool, true, ◌⊎◌, inl, inr, Option,
  none, some, List, [], ◌∷◌, ◌++◌, length, if◌then◌else◌, ◌>>=◌, add_size, sub_size, copy_to,
  overwrite, set, arith, append_assoc, append-nil, lt→ltb, le→leb, lt→leb, lt_or_le, Bool-cases,
}
use forstio.Prelude.Laws.{length-append, length-overwrite, length-set}
use forstio.Error.{Error, error, value, is_critical, copy_error}
use forstio.Io.{
  Fed, feed, fail, ReadIoTask, ReadTaskAndStepHelper, tell, Answer, read_answer, read_loop,
  read_step,
}
use forstio.Io.Read.Outcome.{
  overwrite-append, copy_to-overwrite, Delivers, after, ReadOutcome, HasRead, Fits, task_of,
  task_ap, after-zero, after-Fits, further_from,
}

module _ {R : Type 0} (memory : Bool) (reader : R → ℕ → Answer R) (delivered : R → List ℕ)
    (good : (r : R) (n : ℕ) → 1 ≤ n → Delivers delivered r n (reader r n)) where
  module _ (task : ReadIoTask) (told : Option (List Fed)) (m : List ℕ) (r : R) (fit : Fits task m)
      (some_left : 1 ≤ task.min_length) where
    abbrev here : ReadTaskAndStepHelper
    here = record { read_task = some task; read_done = told }

    advanced :
        (n : ℕ)
        → n ≤ task.max_length
        → n ≤ task.min_length
        → task_of
            (add_size task.buffer n)
            (sub_size task.min_length n)
            (sub_size task.max_length n)
            (add_size task.already_read n)
          ≡ after task n
    advanced n h k =
        task_ap (omega (arith, fit.room, fit.small))
          (omega (arith, fit.ordered, fit.room, fit.small)) (omega (arith, fit.room, fit.small))
          (omega (arith, fit.count))

    read_loop-none :
        (fuel : ℕ) (m : List ℕ) (r : R) (h : ReadTaskAndStepHelper)
        → read_loop memory reader fuel none h m r ≡ some (h, m, r)
    unfolding read_loop
    read_loop-none zero m r h = refl
    read_loop-none (suc fuel) m r h = refl

    further :
        (n : ℕ) (bs : List ℕ) (h : ReadTaskAndStepHelper) {k : ℕ}
        → n < task.min_length
        → k ≡ n + length bs
        → ReadOutcome memory (after task n) told (length bs) h
        → ReadOutcome memory task told k h
    further n bs h less e o =
        subst (λ k. ReadOutcome memory task told k h) (sym e)
          (further_from memory task told n (length bs) h less fit.ordered o)

    -- One answer, and the rest of the loop behind it.
    answer_lem :
        (fuel : ℕ) (a : Answer R)
        → Delivers delivered r task.max_length a
        → ((bs : List ℕ) (r' : R)
            → 1 ≤ length bs
            → length bs < task.min_length
            → HasRead memory delivered
                (after task (length bs))
                told
                (overwrite m task.buffer bs)
                r'
                (read_loop memory reader fuel
                  (some (after task (length bs)))
                  (record { read_task = some (after task (length bs)); read_done = told })
                  (overwrite m task.buffer bs)
                  r'))
        → HasRead memory delivered task told m r (
            read_answer memory reader task here m a >>= λ q.
            if q.0
            then some (q.1, q.2, q.3)
            else read_loop memory reader fuel q.1.read_task q.1 q.2 q.3)
    unfolding read_answer
    answer_lem fuel (error e, r') d rest = elim (Bool-cases (is_critical e)) [
      | inl c ↦ record {
        bytes = [];
        helper = record { read_task = none; read_done = tell (fail (copy_error memory e)) told };
        stream = r';
        returned = rw c refl;
        got = d ∙ sym (append-nil (delivered r));
        outcome = inr (inl (e, c, omega arith, refl));
      }
      | inr c ↦ record {
        bytes = [];
        helper = here;
        stream = r';
        returned = rw c refl;
        got = d ∙ sym (append-nil (delivered r));
        outcome = inr (
            inr (
              omega arith,
              ap (λ k. record { read_task = some k; read_done = told }) (sym (after-zero task)),
            ));
      }
    ]
    answer_lem fuel (value bs, r') d rest =
        let n = length bs in
        let copied = copy_to-overwrite m task.buffer bs (omega (arith, fit.room)) in
        elim (lt_or_le n task.min_length) [
          | inl less ↦
              let l = rest bs r' d.0 less in
              record {
                bytes = bs ++ l.bytes;
                helper = l.helper;
                stream = l.stream;
                returned =
                    rw (copied, lt→leb task.min_length n less, advanced n d.1 (omega arith))
                      (l.returned
                        ∙ ap (λ (c : List ℕ). some (l.helper, c, l.stream))
                            (overwrite-append m task.buffer bs l.bytes));
                got =
                    l.got
                    ∙ ap (λ (c : List ℕ). c ++ l.bytes) d.2
                    ∙ append_assoc (delivered r) bs l.bytes;
                outcome = further n l.bytes l.helper less (length-append bs l.bytes) l.outcome;
              }
          | inr enough ↦ record {
            bytes = bs;
            helper = record {
              read_task = none;
              read_done = tell (feed (task.already_read + n)) told;
            };
            stream = r';
            returned =
                rw (copied, le→leb task.min_length n enough, le→leb n task.max_length d.1)
                  (read_loop-none fuel (overwrite m task.buffer bs) r' (record {
                    read_task = none;
                    read_done = tell (feed (add_size n task.already_read)) told;
                  })
                    ∙ ap
                        (λ k. some (
                          record { read_task = none; read_done = tell (feed k) told },
                          overwrite m task.buffer bs,
                          r',
                        ))
                        (omega (arith, fit.count)));
            got = d.2;
            outcome = inl (enough, d.1, refl);
          }
        ]

  -- The loop ends with as many rounds as bytes are wanted at least.
  loop_lem :
      (fuel : ℕ) (task : ReadIoTask) (told : Option (List Fed)) (m : List ℕ) (r : R)
      → Fits task m
      → 1 ≤ task.min_length
      → task.min_length ≤ fuel
      → HasRead memory delivered task told m r (
          read_loop memory reader fuel
            (some task)
            (record { read_task = some task; read_done = told })
            m
            r)
  unfolding read_loop
  loop_lem zero task told m r fit one enough = absurd (omega arith)
  loop_lem (suc fuel) task told m r fit one enough =
      answer_lem task told m r fit one fuel (reader r task.max_length)
        (good r task.max_length (omega (arith, fit.ordered)))
        (λ bs r' some_read less.
          loop_lem fuel (after task (length bs)) told (overwrite m task.buffer bs) r'
            (after-Fits task m bs fit less) (omega arith) (omega arith))

  pub read_step_lem :
      (fuel : ℕ) (task : ReadIoTask) (told : Option (List Fed)) (m : List ℕ) (r : R)
      → Fits task m
      → 1 ≤ task.min_length
      → task.min_length ≤ fuel
      → HasRead memory delivered task told m r
          (read_step memory reader fuel (record { read_task = some task; read_done = told }) m r)
  unfolding read_step
  read_step_lem = loop_lem
