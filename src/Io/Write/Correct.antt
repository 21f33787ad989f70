-- ===== src/Io/Write/Correct.antt =====
-- `writeStep` writes until the task is done, fails or has to wait.
use forstio.Prelude.{
  ℕ, zero, suc, ◌+◌, ◌-◌, ◌≤◌, ◌<◌, ◌≡◌, refl, sym, ap, ◌∙◌, Bool, true, false, inl, inr, Option,
  none, some, List, ◌++◌, length, take, drop, ◌==◌, if◌then◌else◌, ◌>>=◌, add_size, sub_size,
  copy_from, arith, append_assoc, append-nil, le→leb, lt_or_le, Bool-cases,
}
use forstio.Prelude.Laws.{take-add}
use forstio.Error.{error, value, is_critical, copy_error}
use forstio.Io.{Fed, feed, fail, tell}
use forstio.Io.Write.{
  WriteIoTask, WriteTaskAndStepHelper, Answer, write_answer, write_loop, write_step,
}
use forstio.Io.Write.Outcome.{
  copy_from-drop, length-copy_from, Accepts, after_write, HasWritten, InBounds, write_of, write_ap,
  waiting, further_from,
}

equal_lem : (a : ℕ) → (a == a) ≡ true
equal_lem a = ground arith

differ_lem : (a c : ℕ) → a < c → (a == c) ≡ false
differ_lem a c h = ground arith

module _ {W : Type 0} (memory : Bool) (writer : W → List ℕ → Answer W) (accepted : W → List ℕ)
    (good : (w : W) (block : List ℕ)
      → 1 ≤ length block
      → Accepts accepted w block (writer w block)) where
  module _ (task : WriteIoTask) (told : Option (List Fed)) (m block : List ℕ) (w : W)
      (fit : InBounds task) (some_left : 1 ≤ task.length) (len : length block ≡ task.length) where
    write_loop-none :
        (fuel : ℕ) (h : WriteTaskAndStepHelper) (w' : W)
        → write_loop memory writer fuel none h m w' ≡ some (h, w')
    unfolding write_loop
    write_loop-none zero h w' = refl
    write_loop-none (suc fuel) h w' = refl

    advanced :
        (n : ℕ)
        → n ≤ task.length
        → write_of
            (add_size task.buffer n)
            (sub_size task.length n)
            (add_size task.already_written n)
          ≡ after_write task n
    advanced n h =
        write_ap (omega (arith, fit.place)) (omega (arith, fit.place)) (omega (arith, fit.total))

    -- One answer, and the rest of the loop behind it.
    answer_lem :
        (fuel : ℕ) (a : Answer W)
        → Accepts accepted w block a
        → ((n : ℕ) (w' : W)
            → 1 ≤ n
            → n < task.length
            → HasWritten memory accepted (after_write task n) told (drop n block) w' (
                write_loop memory writer fuel
                  (some (after_write task n))
                  (waiting (after_write task n) told)
                  m
                  w'))
        → HasWritten memory accepted task told block w (
            write_answer memory writer task (waiting task told) a >>= λ q.
            if q.0 then some (q.1, q.2) else write_loop memory writer fuel q.1.write_task q.1 m q.2)
    unfolding write_answer
    answer_lem fuel (error e, w') d rest = elim (Bool-cases (is_critical e)) [
      | inl c ↦ record {
        count = 0;
        helper = record { write_task = none; write_done = tell (fail (copy_error memory e)) told };
        stream = w';
        returned = rw c refl;
        got = d ∙ sym (append-nil (accepted w));
        outcome = inr (inl (e, c, omega arith, refl));
      }
      | inr c ↦ record {
        count = 0;
        helper = waiting task told;
        stream = w';
        returned = rw c refl;
        got = d ∙ sym (append-nil (accepted w));
        outcome = inr (
            inr (
              omega arith,
              ap (λ k. waiting k told) (write_ap (omega arith) (omega arith) (omega arith)),
            ));
      }
    ]
    answer_lem fuel (value n, w') d rest = elim (lt_or_le task.length n) [
      | inl more ↦ absurd (omega (arith, d.1))
      | inr most ↦ elim (lt_or_le n task.length) [
        | inl less ↦
            let l = rest n w' d.0 less in
            record {
              count = n + l.count;
              helper = l.helper;
              stream = l.stream;
              returned =
                  rw (le→leb n task.length most, differ_lem n task.length less, advanced n most)
                    l.returned;
              got =
                  l.got
                  ∙ ap (λ (c : List ℕ). c ++ take l.count (drop n block)) d.2
                  ∙ append_assoc (accepted w) (take n block) (take l.count (drop n block))
                  ∙ ap (λ (c : List ℕ). accepted w ++ c) (sym (take-add n l.count block));
              outcome = further_from memory task told n l.count l.helper less l.outcome;
            }
        | inr enough ↦
            let e : n ≡ task.length = omega arith in
            record {
              count = n;
              helper = record {
                write_task = none;
                write_done = tell (feed (task.already_written + n)) told;
              };
              stream = w';
              returned =
                  rw (le→leb n task.length most, e, equal_lem task.length)
                    (write_loop-none fuel
                        (record {
                          write_task = none;
                          write_done = tell (feed (add_size task.length task.already_written)) told;
                        })
                        w'
                      ∙ ap
                          (λ k.
                            some
                              (record { write_task = none; write_done = tell (feed k) told }, w'))
                          (omega (arith, fit.total)));
              got = d.2;
              outcome = inl (e, refl);
            }
      ]
    ]

  -- The loop ends with as many rounds as there are bytes.
  loop_lem :
      (fuel : ℕ) (task : WriteIoTask) (told : Option (List Fed)) (m block : List ℕ) (w : W)
      → InBounds task
      → 1 ≤ task.length
      → task.length ≤ fuel
      → copy_from m task.buffer task.length ≡ some block
      → HasWritten memory accepted task told block w
          (write_loop memory writer fuel (some task) (waiting task told) m w)
  unfolding write_loop
  loop_lem zero task told m block w fit one enough e = absurd (omega arith)
  loop_lem (suc fuel) task told m block w fit one enough e =
      let len = length-copy_from m task.buffer task.length block e in
      rw e (
        answer_lem task told m block w fit one len fuel (writer w block)
          (good w block (omega (arith, len)))
          (λ n w' some_taken less.
            loop_lem fuel (after_write task n) told m (drop n block) w'
              (record { place = omega (arith, fit.place); total = omega (arith, fit.total) })
              (omega arith) (omega arith)
              (copy_from-drop m n (task.length - n) task.length task.buffer (task.buffer + n) block
                (omega arith) refl e)))

  pub write_step_lem :
      (fuel : ℕ) (task : WriteIoTask) (told : Option (List Fed)) (m block : List ℕ) (w : W)
      → InBounds task
      → 1 ≤ task.length
      → task.length ≤ fuel
      → copy_from m task.buffer task.length ≡ some block
      → HasWritten memory accepted task told block w
          (write_step memory writer fuel (waiting task told) m w)
  unfolding write_step
  write_step_lem = loop_lem
