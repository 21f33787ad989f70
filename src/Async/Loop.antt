-- ===== src/Async/Loop.antt =====
-- `EventLoop::turn`, `turnLoop`, `wait`, `poll`, `enterScope` and `leaveScope` of
-- source/forstio/async.cpp. What an event does when it fires is a parameter, `fire`, and so is the
-- event port. Both work on the loop and on the state `S` of all else.
pub mod Serve
pub mod Drain
pub mod Order
use forstio.Prelude.{ℕ, zero, suc, Bool, true, false, not, Option, none, some, ◌>>=◌, ◌>>◌, assert}
use forstio.Async.Event.{EventLoop, take_head}

pub record World (S : Type 0) : Type 0 where
  pub event_loop : EventLoop
  pub rest : S

module _ {S : Type 0} (fire : ℕ → World S → World S) where
  abbrev pub fired : Option (ℕ × EventLoop) → World S → Bool × World S
  fired none w = (false, w)
  fired (some (e, l)) w = (true, fire e (record w { event_loop = l }))

  -- `EventLoop::turn`
  unfoldable pub turn : World S → Bool × World S
  turn w = fired (take_head w.event_loop) w

  -- The loop of `turnLoop`, with the rounds that are left.
  unfoldable pub turn_rounds : ℕ → World S → Bool × World S
  turn_rounds zero w = (true, w)
  turn_rounds (suc n) w = elim w.event_loop.head [
    | none ↦ (true, w)
    | some e ↦ let r = turn w in elim r.0 [ false ↦ (false, r.1) | true ↦ turn_rounds n r.1 ]
  ]

  -- `EventLoop::turnLoop`
  unfoldable pub turn_loop : World S → Bool × World S
  turn_loop w = turn_rounds 65536 w

  -- `EventLoop::wait` and `EventLoop::poll`, for what the event port does, if there is one.
  unfoldable pub wait : Option (World S → World S) → World S → Bool × World S
  wait none w = turn_loop w
  wait (some port) w = turn_loop (port w)

-- `EventLoop::enterScope`
unfoldable pub enter_scope : EventLoop → Option EventLoop
enter_scope l = do assert (not l.entered); some (record l { entered = true })

-- `EventLoop::leaveScope`
unfoldable pub leave_scope : EventLoop → Option EventLoop
leave_scope l = do assert l.entered; some (record l { entered = false })
