-- ===== src/Async/Network.antt =====
-- The event loop that drives conveyors: `EventLoop::turnLoop` with the `fire` of the storages.
use mathlib.Core.Path.{subst}
use forstio.Prelude.{ℕ, zero, suc, ◌≡◌, refl, sym, Option, none, some}
use forstio.Async.Event.{EventLoop, take_head, take_event, head_taken}
use forstio.Async.Loop.{turn, turn_rounds, turn_loop, fired, World}
use forstio.Async.Loop.Serve.{rounds_from}
use forstio.Async.Conveyor.{Net}
use forstio.Async.Conveyor.Fire.{fire}
use forstio.Async.Conveyor.Room.{IsBounded}
use forstio.Async.Conveyor.Room.Steps.{Safe}
use forstio.Async.Conveyor.Room.Whole.{fire-Safe}

-- What the events do keeps a property of the rest of the state, and so does a run.
module _ {S : Type 0} (act : ℕ → World S → World S) (I : S → Type 0)
    (keeps : (e : ℕ) (w : World S) → I w.rest → I (act e w).rest) where
  rounds_step :
      (n : ℕ) (w : World S)
      → ((w' : World S) → I w'.rest → I (turn_rounds act n w').1.rest)
      → (a : Option ℕ) → I w.rest
      → I (rounds_from act n w a (fired act (take_event a w.event_loop) w)).1.rest
  rounds_step n w again none i = i
  rounds_step n w again (some e) i =
      let w' = record w { event_loop = head_taken e w.event_loop } in
      again (act e w') (keeps e w' i)

  pub turn_rounds-keeps : (n : ℕ) (w : World S) → I w.rest → I (turn_rounds act n w).1.rest
  unfolding turn_rounds turn take_head
  turn_rounds-keeps zero w i = i
  turn_rounds-keeps (suc n) w i = rounds_step n w (turn_rounds-keeps n) w.event_loop.head i

module _ {V : Type 0} where
  -- After the `fire` of an event, for what that returns. The loop of the network is that of the world;
  -- `none` is an assertion that did not hold, or what C++ leaves undefined.
  abbrev after_fire : World (Option (Net V)) → Option (Net V) → World (Option (Net V))
  after_fire w none = record w { rest = none }
  after_fire w (some n) = record { event_loop = n.loop; rest = some n }

  abbrev pub fire_in : Option (Net V) → ℕ → World (Option (Net V)) → World (Option (Net V))
  fire_in none e w = w
  fire_in (some n) e w = after_fire w (fire e (record n { loop = w.event_loop }))

  -- The virtual call of `fire` in `EventLoop::turn`.
  abbrev pub fire_event : ℕ → World (Option (Net V)) → World (Option (Net V))
  fire_event e w = fire_in w.rest e w

  after_fire-Safe :
      (w : World (Option (Net V))) (r : Option (Net V)) → Safe r → Safe (after_fire w r).rest
  after_fire-Safe w none s = tt
  after_fire-Safe w (some n) s = s

  fire_in-Safe :
      (r : Option (Net V)) (e : ℕ) (w : World (Option (Net V)))
      → w.rest ≡ r
      → Safe r
      → Safe (fire_in r e w).rest
  fire_in-Safe none e w p s = subst Safe (sym p) tt
  fire_in-Safe (some n) e w p s =
      after_fire-Safe w (fire e (record n { loop = w.event_loop }))
        (fire-Safe e (record n { loop = w.event_loop }) s)

  turn_loop-Safe :
      (l : EventLoop) (n : Net V)
      → IsBounded n
      → Safe (turn_loop fire_event (record { event_loop = l; rest = some n })).1.rest
  unfolding turn_loop
  turn_loop-Safe l n h =
      turn_rounds-keeps fire_event Safe (λ e w s. fire_in-Safe w.rest e w refl s) 65536
        (record { event_loop = l; rest = some n }) h

  -- However the conveyors are put together: if every buffer is within its bounds, and `turnLoop` runs to
  -- its end with the conveyors in `n'` then, every buffer of `n'` is within its bounds. A run does not
  -- come to such an end where an assertion fails, or where it does what C++ leaves undefined, such as
  -- taking the front of an empty queue.
  pub turn_loop-IsBounded :
      (l : EventLoop) (n n' : Net V)
      → IsBounded n
      → (turn_loop fire_event (record { event_loop = l; rest = some n })).1.rest ≡ some n'
      → IsBounded n'
  turn_loop-IsBounded l n n' h e = subst Safe e (turn_loop-Safe l n h)
