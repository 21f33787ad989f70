-- ===== src/Async/Loop/Drain.antt =====
-- A run of the loop fires the armed events in their order, each once, and is over where they arm no
-- others.
use mathlib.Core.Path.{subst}
use forstio.Prelude.{
  ℕ, zero, suc, ◌≤◌, ◌≡◌, refl, sym, ap, ◌∙◌, Bool, true, Option, none, some, List, [], ◌∷◌, arith,
  length,
}
use forstio.Async.Event.{at_head, EventLoop}
use forstio.Async.Event.Queue.{Queue, events, take}
use forstio.Async.Event.Chain.{Chain, NotIn}
use forstio.Async.Event.Holds.{Holds}
use forstio.Async.Event.Turn.{Yields, take-events}
use forstio.Async.Loop.{turn_rounds, World}
use forstio.Async.Loop.Serve.{Task, Tracks, serve, turn_rounds_refines}

nothing : (xs : List ℕ) → length xs ≤ 0 → xs ≡ []
nothing [] k = refl
nothing (x ∷ xs) k = absurd (omega arith)

shorter : (e : ℕ) (xs ys : List ℕ) (n : ℕ) → ys ≡ e ∷ xs → length ys ≤ suc n → length xs ≤ n
shorter e xs ys n p k = let m : length ys ≡ suc (length xs) = ap length p in omega arith

-- The handlers that touch no event, one after the other.
abbrev pub run_all : {S : Type 0} → (ℕ → S → S) → List ℕ → S → S
run_all act [] s = s
run_all act (e ∷ es) s = run_all act es (act e s)

module _ {S : Type 0} (act : ℕ → S → S) where
  abbrev quiet : ℕ → World S → World S
  quiet e w = record w { rest = act e w.rest }

  abbrev quiet_task : ℕ → Task S → Task S
  quiet_task e v = record v { rest = act e v.rest }

  -- The events have all been handled, from the state `s` on.
  abbrev Drained : List ℕ → S → Task S → Type 0
  Drained xs s v = (events v.queue ≡ []) × (v.rest ≡ run_all act xs s)

  drain_step :
      (n : ℕ) (v : Task S)
      → ((v' : Task S)
          → length (events v'.queue) ≤ n
          → Drained (events v'.queue) v'.rest (serve quiet_task n v'))
      → (r : Option (ℕ × Queue)) → Yields r (events v.queue)
      → length (events v.queue) ≤ suc n
      → Drained (events v.queue) v.rest (elim r [
        | none ↦ v
        | some s ↦ serve quiet_task n (quiet_task s.0 (record v { queue = s.1 }))
      ])
  drain_step n v again none y k = (y, sym (ap (λ xs. run_all act xs v.rest) y))
  drain_step n v again (some (e, q)) y k =
      let r =
        again (record { queue = q; rest = act e v.rest })
          (shorter e (events q) (events v.queue) n y k) in
      (r.0, r.1 ∙ sym (ap (λ xs. run_all act xs v.rest) y))

  serve_all :
      (n : ℕ) (v : Task S)
      → length (events v.queue) ≤ n
      → Drained (events v.queue) v.rest (serve quiet_task n v)
  unfolding serve
  serve_all zero v k =
      let p = nothing (events v.queue) k in (p, sym (ap (λ xs. run_all act xs v.rest) p))
  serve_all (suc n) v k = drain_step n v (serve_all n) (take v.queue) (take-events v.queue) k

  quiet-Tracks :
      (e : ℕ) (w : World S) (v : Task S)
      → NotIn e (events v.queue)
      → Tracks w v
      → Tracks (quiet e w) (quiet_task e v)
  quiet-Tracks e w v n t = (t.0, t.1, ap (act e) t.2)

  -- In an entered loop that holds a queue, where the events that fire arm no others, a run of at
  -- least as many rounds as there are armed events fires each of them once, in the order of the
  -- three queues, returns true and leaves none.
  pub turn_rounds_drains :
      (n : ℕ) (l : EventLoop) (q : Queue) (s : S)
      → l.entered ≡ true
      → Holds l q
      → length (events q) ≤ n
      → let r : Bool × World S =
          turn_rounds
            (λ e w. record w { rest = act e w.rest })
            n
            (record { event_loop = l; rest = s }) in
        (r.0 ≡ true) × (r.1.event_loop.head ≡ none) × (r.1.rest ≡ run_all act (events q) s)
  turn_rounds_drains n l q s inside h k =
      let v : Task S = record { queue = q; rest = s } in
      let d = serve_all n v k in
      let t =
        turn_rounds_refines quiet quiet_task quiet-Tracks n (record { event_loop = l; rest = s }) v
          (h, inside, refl) in
      (
        t.0,
        subst
            (Chain (turn_rounds quiet n (record { event_loop = l; rest = s })).1.event_loop at_head)
            d.0 t.1.0.chain,
        t.1.2 ∙ d.1,
      )
