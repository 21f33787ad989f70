-- ===== src/Async/Loop/Order.antt =====
-- How many events a run fires, and which fires first.
use mathlib.Core.Path.{subst}
use forstio.Prelude.{
  ℕ, zero, suc, ◌+◌, ◌≤◌, ◌≡◌, refl, ap, ◌∙◌, Bool, true, Option, none, some, List, [], ◌∷◌, ◌++◌,
  arith, ◌>>=◌,
}
use forstio.Async.Event.{at_head, EventLoop, take_head, take_event, head_taken, arm_next}
use forstio.Async.Event.Queue.{Queue, events, take_from, take}
use forstio.Async.Event.Chain.{NotIn, Chain}
use forstio.Async.Event.Holds.{Holds}
use forstio.Async.Event.Arm.{arm_next_refines}
use forstio.Async.Event.Turn.{Takes, take_head_refines}
use forstio.Async.Loop.{turn, turn_rounds, turn_loop, fired, World}
use forstio.Async.Loop.Serve.{rounds_from}
use forstio.Async.Event.Turn.{Yields, take-events}

-- A `turnLoop` fires at most 65536 events, whatever they arm: `count` reads from the state how many
-- have fired.
module _ {S : Type 0} (fire : ℕ → World S → World S) (count : S → ℕ)
    (counts : (e : ℕ) (w : World S) → count (fire e w).rest ≤ suc (count w.rest)) where
  abbrev Bounded : ℕ → World S → Bool × World S → Type 0
  Bounded n w r = (r.0 ≡ true) × (count r.1.rest ≤ count w.rest + n)

  Bounded-step :
      (n : ℕ) (w : World S)
      → ((w' : World S) → Bounded n w' (turn_rounds fire n w'))
      → (a : Option ℕ)
      → Bounded (suc n) w (rounds_from fire n w a (fired fire (take_event a w.event_loop) w))
  Bounded-step n w again none = (refl, omega arith)
  Bounded-step n w again (some e) =
      let w' = record w { event_loop = head_taken e w.event_loop } in
      let b = again (fire e w') in let c = counts e w' in (b.0, omega arith)

  Bounded-rounds : (n : ℕ) (w : World S) → Bounded n w (turn_rounds fire n w)
  unfolding turn_rounds turn take_head
  Bounded-rounds zero w = (refl, omega arith)
  Bounded-rounds (suc n) w = Bounded-step n w (Bounded-rounds n) w.event_loop.head

  -- `turnLoop` fires at most 65536 events, whatever they arm, and returns true: a count that each
  -- event raises by one at most is raised by 65536 at most.
  pub turn_loop_bounded :
      (w : World S)
      → ((turn_loop fire w).0 ≡ true) × (count (turn_loop fire w).1.rest ≤ count w.rest + 65536)
  unfolding turn_loop
  turn_loop_bounded w = Bounded-rounds 65536 w

-- The event that fires in a turn, and the event that fires in the next turn where the first arms `x`
-- with `armNext`.
unfoldable pub next_two : ℕ → EventLoop → Option (ℕ × ℕ)
next_two x l = do r ← take_head l; l' ← arm_next x r.1; r' ← take_head l'; some (r.0, r'.0)

-- A turn closes the first queue.
abbrev Closes : Option (ℕ × Queue) → Type 0
Closes none = Unit {0}
Closes (some r) = r.1.soon ≡ []

closed_from : (xs ys zs : List ℕ) → Closes (take_from xs ys zs)
closed_from (e ∷ xs) ys zs = refl
closed_from [] (e ∷ ys) zs = refl
closed_from [] [] (e ∷ zs) = refl
closed_from [] [] [] = tt

taken_head : (l : EventLoop) (e : ℕ) → l.head ≡ some e → take_head l ≡ some (e, head_taken e l)
unfolding take_head
taken_head l e p = ap (λ v. take_event v l) p

module _ (x : ℕ) (l : EventLoop) (q : Queue) (inside : l.entered ≡ true) (n : NotIn x (events q))
    (e : ℕ) (p : l.head ≡ some e) where
  next_first :
      (b : Option (ℕ × Queue))
      → Takes l (some (e, head_taken e l)) b
      → Yields b (events q)
      → Closes b
      → next_two x l ≡ some (e, x)
  unfolding next_two
  next_first none k y c = elim k [ ]
  next_first (some (e', q')) k y c =
      let l₁ = head_taken e l in
      let arms = arm_next_refines l₁ q' x (k.2 ∙ inside) k.1 (subst (NotIn x) y n).1 in
      let first_lem : arms.loop.head ≡ some x =
        (subst (λ xs. Chain arms.loop at_head ((xs ++ x ∷ []) ++ (q'.later ++ q'.last))) c
          arms.holds.chain).0 in
      rw (taken_head l e p, arms.returned, taken_head arms.loop x first_lem) refl

-- The event that a firing event arms with `armNext` fires right after it, before all others.
pub arm_next_first :
    (x : ℕ) (l : EventLoop) (q : Queue) (e : ℕ)
    → l.entered ≡ true
    → Holds l q
    → NotIn x (events q)
    → l.head ≡ some e
    → next_two x l ≡ some (e, x)
arm_next_first x l q e inside h n p =
    next_first x l q inside n e p (take q)
      (subst (λ a. Takes l a (take q)) (taken_head l e p) (take_head_refines l q h)) (take-events q)
      (closed_from q.soon q.later q.last)
