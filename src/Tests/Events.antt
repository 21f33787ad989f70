-- ===== src/Tests/Events.antt =====
-- The theorems on the event loop at a loop with two armed events.
use mathlib.Core.Path.{subst}
use forstio.Prelude.{
  ℕ, suc, ◌≡◌, ◌≢◌, refl, sym, ap, ◌∙◌, Bool, true, Option, none, some, List, [], ◌∷◌, ◌≤◌, ◌+◌,
  arith,
}
use forstio.Async.Event.{
  Slot, at_head, next_of, EventLoop, update, arm_next, arm_later, arm_last, disarm, take_head,
}
use forstio.Async.Event.Link.{update-ne}
use forstio.Async.Event.Chain.{NotIn}
use forstio.Async.Event.Queue.{Queue, events, put_next, put_later, put_last, take, remove, without}
use forstio.Async.Event.Holds.{Holds}
use forstio.Async.Event.Arm.{Arms, arming_refines, arm_later_refines}
use forstio.Async.Event.Turn.{Takes, take_head_refines}
use forstio.Async.Event.Disarm.{disarm_refines}
use forstio.Async.Event.Lost.{Loses, disarm-Loses}
use forstio.Async.Loop.{World, turn_rounds, turn_loop}
use forstio.Async.Loop.Serve.{Task, Tracks, serve, turn_rounds_refines}
use forstio.Async.Loop.Drain.{turn_rounds_drains}
use forstio.Async.Loop.Order.{turn_loop_bounded}

-- Event 1 has been armed with `armNext`, then event 2 with `armLater`.
abbrev two : EventLoop
two = record {
  head = some 1;
  next = update (λ e. none) 1 (some 2);
  prev = update (update (λ e. none) 1 (some at_head)) 2 (some (next_of 1));
  tail = next_of 2;
  next_insert_point = next_of 1;
  later_insert_point = next_of 2;
  is_runnable = true;
  entered = true;
}

abbrev two_events : Queue
two_events = record { soon = 1 ∷ []; later = 2 ∷ []; last = [] }

apart : (m n : ℕ) → suc (m + n) ≢ m
apart m n p = absurd (omega (arith, p))

two-Holds : Holds two two_events
two-Holds = record {
  chain = (refl, refl, (refl, refl, refl));
  distinct = ((λ p. absurd (omega (arith, p)), tt), (tt, tt));
  idle = λ e n.
      update-ne (update (λ k. none) 1 (some at_head)) 2 (some (next_of 1)) e n.1.0
      ∙ update-ne (λ k. none) 1 (some at_head) e n.0;
  next_point = refl;
  later_point = refl;
  end_point = refl;
}

three-NotIn : NotIn 3 (events two_events)
three-NotIn = (apart 1 1, (apart 2 0, tt))

arming_refines_example :
    Arms (arm_next 3 two) (put_next 3 two_events)
    × Arms (arm_later 3 two) (put_later 3 two_events)
    × Arms (arm_last 3 two) (put_last 3 two_events)
arming_refines_example = arming_refines two two_events 3 refl two-Holds three-NotIn

take_head_refines_example : Takes two (take_head two) (take two_events)
take_head_refines_example = take_head_refines two two_events two-Holds

abbrev number_of : Slot → ℕ
number_of at_head = 0
number_of (next_of e) = e

one-next_of-two : next_of 2 ≢ next_of 1
one-next_of-two p = apart 1 0 (ap number_of p)

disarm_refines_example : Holds (disarm 1 two) (without 1 two_events)
disarm_refines_example = disarm_refines two two_events 1 two-Holds one-next_of-two

disarm-Loses_example : Loses (arm_later 3 (disarm 2 two)) 3 (remove 2 (events two_events))
disarm-Loses_example = disarm-Loses two two_events 2 3 refl two-Holds refl three-NotIn

-- An event that counts how many have fired, and arms itself again.
abbrev again_from : Option EventLoop → World ℕ → World ℕ
again_from none w = w
again_from (some l) w = record { event_loop = l; rest = suc w.rest }

abbrev again : ℕ → World ℕ → World ℕ
again e w = again_from (arm_later e w.event_loop) w

abbrev again_task : ℕ → Task ℕ → Task ℕ
again_task e v = record { queue = put_later e v.queue; rest = suc v.rest }

again-Tracks :
    (e : ℕ) (w : World ℕ) (v : Task ℕ)
    → NotIn e (events v.queue)
    → Tracks w v
    → Tracks (again e w) (again_task e v)
again-Tracks e w v n t =
    let arms = arm_later_refines w.event_loop v.queue e t.1 t.0 n in
    subst (λ r. Tracks (again_from r w) (again_task e v)) (sym arms.returned)
      (arms.holds, arms.inside, ap suc t.2)

abbrev world : World ℕ
world = record { event_loop = two; rest = 0 }

abbrev task : Task ℕ
task = record { queue = two_events; rest = 0 }

turn_rounds_refines_example :
    ((turn_rounds again 5 world).0 ≡ true)
    × Tracks (turn_rounds again 5 world).1 (serve again_task 5 task)
turn_rounds_refines_example =
    turn_rounds_refines again again_task again-Tracks 5 world task (two-Holds, refl, refl)

turn_rounds_drains_example :
    let r : Bool × World (List ℕ) =
      turn_rounds
        (λ e w. record w { rest = e ∷ w.rest })
        2
        (record { event_loop = two; rest = [] }) in
    (r.0 ≡ true) × (r.1.event_loop.head ≡ none) × (r.1.rest ≡ 2 ∷ 1 ∷ [])
turn_rounds_drains_example =
    turn_rounds_drains (λ e s. e ∷ s) 2 two two_events [] refl two-Holds (omega arith)

counts : (e : ℕ) (w : World ℕ) → (again e w).rest ≤ suc w.rest
counts e w = by_result (arm_later e w.event_loop)
  where
    by_result : (r : Option EventLoop) → (again_from r w).rest ≤ suc w.rest
    by_result none = omega arith
    by_result (some l) = omega arith

turn_loop_bounded_example :
    ((turn_loop again world).0 ≡ true) × ((turn_loop again world).1.rest ≤ 0 + 65536)
turn_loop_bounded_example = turn_loop_bounded again (λ s. s) counts world
