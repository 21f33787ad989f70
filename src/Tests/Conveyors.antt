-- ===== src/Tests/Conveyors.antt =====
-- The theorems on conveyors at a value that is fed, buffered and merged.
use forstio.Prelude.{
  ℕ, suc, zero, ◌≡◌, ◌≢◌, refl, true, Option, none, some, List, [], ◌∷◌, ◌>>=◌, arith,
}
use forstio.Error.{ErrorOr, error, value, critical_error}
use forstio.Async.Event.{
  at_head, next_of, EventLoop, fresh_loop, update, arm_later, arm_last, arm_next, link, unlink,
  take_head, is_armed,
}
use forstio.Async.Loop.{turn_loop, turn_rounds, turn}
use forstio.Async.Conveyor.{
  Outcome, returned, thrown, Pipe, storage_node, convert_node, attach_node, adapt_node, buffer_node,
  merge_node, appendage, destroyed_node, Net, queued,
}
use forstio.Async.Conveyor.Build.{new_conveyor_and_feeder, buffer, set_parent, feed, take_element}
use forstio.Async.Conveyor.Fetch.{get_storage, get_result}
use forstio.Async.Conveyor.Fire.{arm_later_in, child_has_fired, parent_has_fired, fire}
use forstio.Async.Conveyor.Pure.{FlowsThrough, get_result-FlowsThrough}
use forstio.Async.Conveyor.Feed.{feed_all, take_all, take_all-feed_all}
use forstio.Async.Conveyor.Fair.{get_storage-merge_node}
use forstio.Async.Conveyor.Move.{Reaches, fire-full, fire-moves}
use forstio.Async.Conveyor.Room.{InBounds, IsBounded, set_node-All}
use forstio.Async.Network.{fire_event, turn_loop-IsBounded}

abbrev nothing : Net ℕ
nothing = record {
  loop = record fresh_loop { entered = true };
  node = λ i. destroyed_node;
  parent = λ i. none;
  child_storage = λ i. none;
  fresh = 0;
  sinks = 9;
  delete_nodes = [];
}

-- `then` with a function that adds one, and what is attached behind it.
abbrev pipe : Pipe ℕ
pipe = attach_node (convert_node (λ v. returned (value (suc v))) (λ e. error e) (storage_node 0))

-- A feeder's node 0 with `xs`, and the buffer 1 above it, which has room for two and holds `ys`.
abbrev net : List (ErrorOr ℕ) → List (ErrorOr ℕ) → Net ℕ
net xs ys = record nothing {
  node = update (update (λ i. destroyed_node) 0 (adapt_node xs)) 1 (buffer_node pipe ys 2);
  parent = update (λ i. none) 0 (some 1);
  child_storage = update (λ i. none) 1 (some 0);
  fresh = 2;
}

abbrev fed : Net ℕ
fed = net (value 4 ∷ value 7 ∷ []) (value 3 ∷ [])

-- One element in the feeder, and room for it.
abbrev one_fed : Net ℕ
one_fed = net (value 4 ∷ []) (value 3 ∷ [])

one_fed-IsBounded : IsBounded one_fed
one_fed-IsBounded =
    set_node-All (λ j x. InBounds x) 1 (buffer_node pipe (value 3 ∷ []) 2)
      (record one_fed { node = update (λ i. destroyed_node) 0 (adapt_node (value 4 ∷ [])) })
      (set_node-All (λ j x. InBounds x) 0 (adapt_node (value 4 ∷ [])) nothing (λ j. tt) tt)
      (omega arith)

-- A function that throws where it gets 0.
abbrev picky : ℕ → Outcome ℕ
picky zero = thrown
picky (suc v) = returned (value v)

abbrev picky_pipe : Pipe ℕ
picky_pipe = convert_node picky (λ e. value 8) pipe

get_result-FlowsThrough_example :
    FlowsThrough picky_pipe
      (get_storage 0 (adapt_node (value 4 ∷ value 7 ∷ [])) fed)
      (get_result picky_pipe fed)
get_result-FlowsThrough_example = get_result-FlowsThrough picky_pipe 0 fed refl

take_all-feed_all_example :
    (feed_all (value 4 ∷ error (critical_error "Disconnected") ∷ []) 0 (net [] []) >>= λ m.
    take_all 2 (record { node = pipe; storage = some 0 }) m >>= λ r. some r.0)
    ≡ some (value 5 ∷ error (critical_error "Disconnected") ∷ [])
take_all-feed_all_example =
    take_all-feed_all pipe 0 refl (value 4 ∷ error (critical_error "Disconnected") ∷ []) (net [] [])
      refl refl

abbrev merged_net : Net ℕ
merged_net = record nothing {
  node =
      update
        (update (update (λ i. destroyed_node) 1 (appendage (storage_node 7) 0 (some (value 5)))) 2
          (appendage (storage_node 8) 0 (some (value 6))))
        3 (appendage (storage_node 9) 0 none);
}

get_storage-merge_node_example :
    (get_storage 0 (merge_node (1 ∷ 2 ∷ 3 ∷ []) 2) merged_net >>= λ r. some r.0) ≡ some (value 5)
get_storage-merge_node_example = get_storage-merge_node 0 (1 ∷ 2 ∷ 3 ∷ []) 2 merged_net

zero-ne-one : zero ≢ 1
zero-ne-one p = absurd (omega (arith, p))

fire-moves_example : Reaches (fire 0 fed) (
    update
      (update fed.node 0 (adapt_node (value 7 ∷ [])))
      1
      (buffer_node pipe (value 3 ∷ value 5 ∷ []) 2))
fire-moves_example =
    fire-moves fed 0 1 pipe (value 4) (value 7 ∷ []) (value 3 ∷ []) 2 refl refl refl (omega arith)
      zero-ne-one refl refl

abbrev full : Net ℕ
full = net (value 4 ∷ []) (value 3 ∷ value 5 ∷ [])

fire-full_example : fire 0 full ≡ arm_later_in 0 full
fire-full_example =
    fire-full full 0 1 pipe (value 4) [] (value 3 ∷ value 5 ∷ []) 2 refl refl refl (omega arith)

abbrev armed : EventLoop
armed = record fresh_loop {
  head = some 0;
  prev = update (λ e. none) 0 (some at_head);
  tail = next_of 0;
  next_insert_point = next_of 0;
  later_insert_point = next_of 0;
  is_runnable = true;
  entered = true;
}

abbrev run_of : Net ℕ → Option (Net ℕ)
run_of n = (turn_loop fire_event (record { event_loop = armed; rest = some n })).1.rest

-- The conveyors after the run, where it comes to its end.
abbrev after_run : Option (Net ℕ) → Net ℕ
after_run none = nothing
after_run (some n) = n

ends : run_of one_fed ≡ some (after_run (run_of one_fed))
unfolding turn_loop turn_rounds turn take_head fire child_has_fired parent_has_fired arm_later
    arm_last arm_next link unlink
ends = refl

turn_loop-IsBounded_example : IsBounded (after_run (run_of one_fed))
turn_loop-IsBounded_example =
    turn_loop-IsBounded armed one_fed (after_run (run_of one_fed)) one_fed-IsBounded ends

-- An element is fed and buffered, and taken from the buffer while its event is armed; another buffer is put
-- above it, and the event fires.
abbrev taken_before_turn : Option (Net ℕ)
taken_before_turn = do
  let r₀ = new_conveyor_and_feeder nothing
  r₁ ← buffer 2 r₀.0 r₀.1
  n₂ ← feed (value 4) 0 r₁.1
  n₃ ← fire 0 n₂
  r₄ ← take_element r₁.0 n₃
  r₅ ← buffer 2 r₁.0 r₄.1
  some r₅.1

-- Up to there all goes well, and the event of the first buffer is armed.
armed_and_empty :
    (is_armed 1 (after_run taken_before_turn).loop ≡ true)
    × (queued 1 (after_run taken_before_turn) ≡ 0)
unfolding new_conveyor_and_feeder buffer set_parent feed take_element fire child_has_fired arm_next
    arm_later link
armed_and_empty = (refl, refl)

-- The front of the empty queue is asked for.
fire_empty : fire 1 (after_run taken_before_turn) ≡ none
unfolding new_conveyor_and_feeder buffer set_parent feed take_element fire child_has_fired arm_next
    arm_later link
fire_empty = refl
