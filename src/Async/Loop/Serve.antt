-- ===== src/Async/Loop/Serve.antt =====
-- The loop serves the queue: what the pointers do, the queue does.
use mathlib.Core.Path.{subst}
use forstio.Prelude.{ℕ, zero, suc, ◌≡◌, refl, sym, ◌∙◌, Bool, true, false, Option, none, some}
use forstio.Async.Event.{take_head, take_event, head_taken}
use forstio.Async.Event.Queue.{Queue, events, take}
use forstio.Async.Event.Chain.{NotIn, IsDistinct}
use forstio.Async.Event.Holds.{Holds}
use forstio.Async.Event.Turn.{Yields, take-events, Takes, take_head_refines}
use forstio.Async.Loop.{turn, turn_rounds, fired, World}

-- The queue in the place of the loop.
pub record Task (S : Type 0) : Type 0 where
  pub queue : Queue
  pub rest : S

-- The run of at most some rounds, on the queue: `handle` is what an event does to the queue and to
-- the rest of the state.
unfoldable pub serve : {S : Type 0} → (ℕ → Task S → Task S) → ℕ → Task S → Task S
serve handle zero w = w
serve handle (suc n) w = elim (take w.queue) [
  | none ↦ w
  | some r ↦ serve handle n (handle r.0 (record w { queue = r.1 }))
]

-- The loop is entered and holds the queue, and the rest of the state is the same.
abbrev pub Tracks : {S : Type 0} → World S → Task S → Type 0
Tracks w v = Holds w.event_loop v.queue × (w.event_loop.entered ≡ true) × (w.rest ≡ v.rest)

-- The rounds, for the head of the loop and what the turn returns.
abbrev pub rounds_from :
    {S : Type 0}
    → (ℕ → World S → World S)
    → ℕ
    → World S
    → Option ℕ
    → Bool × World S
    → Bool × World S
rounds_from fire n w a r = elim a [
  | none ↦ (true, w)
  | some e ↦ elim r.0 [ false ↦ (false, r.1) | true ↦ turn_rounds fire n r.1 ]
]

module _ {S : Type 0} (fire : ℕ → World S → World S) (handle : ℕ → Task S → Task S)
    (good : (e : ℕ) (w : World S) (v : Task S)
      → NotIn e (events v.queue)
      → Tracks w v
      → Tracks (fire e w) (handle e v)) where
  -- What is left of a run, where `r` is what it returns.
  abbrev Served : ℕ → Task S → Option (ℕ × Queue) → Bool × World S → Type 0
  Served n v none r = (r.0 ≡ true) × Tracks r.1 v
  Served n v (some s) r =
      (r.0 ≡ true) × Tracks r.1 (serve handle n (handle s.0 (record v { queue = s.1 })))

  step :
      (n : ℕ) (w : World S) (v : Task S)
      → Tracks w v
      → ((w' : World S) (v' : Task S)
          → Tracks w' v'
          → ((turn_rounds fire n w').0 ≡ true)
            × Tracks (turn_rounds fire n w').1 (serve handle n v'))
      → (a : Option ℕ) (b : Option (ℕ × Queue)) → Takes w.event_loop (take_event a w.event_loop) b
      → Yields b (events v.queue)
      → Served n v b (rounds_from fire n w a (fired fire (take_event a w.event_loop) w))
  step n w v t again none (some s) k y = elim k [ ]
  step n w v t again (some e) none k y = elim k [ ]
  step n w v t again none none k y = (refl, t)
  step n w v t again (some e) (some (e', q')) k y =
      let w' = record w { event_loop = head_taken e w.event_loop } in
      let v' = record v { queue = q' } in
      again (fire e w') (handle e' v') (
        subst (λ x. Tracks (fire e w') (handle x v')) k.0
          (good e w' v'
            (subst (λ x. NotIn x (events q')) (sym k.0) (subst IsDistinct y t.0.distinct).0)
            (k.1, k.2 ∙ t.1, t.2)))

  served :
      (n : ℕ) (v : Task S) (b : Option (ℕ × Queue)) (r : Bool × World S)
      → Served n v b r
      → (r.0 ≡ true)
        × Tracks r.1
            (elim b [ none ↦ v | some s ↦ serve handle n (handle s.0 (record v { queue = s.1 })) ])
  served n v none r k = k
  served n v (some s) r k = k

  -- Where each event that fires does to an entered loop that holds a queue without it what a
  -- handler does to the queue, and the same to the rest of the state, any number of rounds of
  -- `turnLoop` returns true and leaves the loop and the state that serving the queue leaves.
  pub turn_rounds_refines :
      (n : ℕ) (w : World S) (v : Task S)
      → Tracks w v
      → ((turn_rounds fire n w).0 ≡ true) × Tracks (turn_rounds fire n w).1 (serve handle n v)
  unfolding turn_rounds serve turn take_head
  turn_rounds_refines zero w v t = (refl, t)
  turn_rounds_refines (suc n) w v t = served n v (take v.queue) _ (
      step n w v t (turn_rounds_refines n) w.event_loop.head (take v.queue)
        (take_head_refines w.event_loop v.queue t.0) (take-events v.queue))
