-- ===== src/Async/Conveyor/Build.antt =====
-- `Conveyor` and `ConveyorFeeder`: how conveyors are made, put together, fed and emptied,
-- source/forstio/async.tmpl.h and source/forstio/async.cpp.
use forstio.Prelude.{
  ℕ, suc, Bool, true, false, not, ◌&&◌, Option, none, some, [], ◌∷◌, ◌++◌, ltb, if◌then◌else◌,
  ◌>>=◌, ◌>>◌, assert,
}
use forstio.Error.{Error, ErrorOr, error, critical_error, recoverable_error}
use forstio.Async.Event.{update, is_armed}
use forstio.Async.Conveyor.{
  Outcome, Pipe, storage_node, convert_node, attach_node, Node, adapt_node, buffer_node,
  immediate_node, sink_node, merge_node, appendage, destroyed_node, Net, set_node, queued, space,
  has_node,
}
use forstio.Async.Conveyor.Fetch.{get_result}
use forstio.Async.Conveyor.Fire.{arm_next_in, arm_later_in}

-- `Conveyor<T>`, which is a `ConveyorBase`.
pub record Conveyor (V : Type 0) : Type 0 where
  pub node : Pipe V
  pub storage : Option ℕ

-- `!parent`
abbrev is_null : Option ℕ → Bool
is_null none = true
is_null (some i) = false

module _ {V : Type 0} where
  -- A new storage with its child storage, and its number.
  abbrev pub allocate : Node V → Option ℕ → Net V → ℕ × Net V
  allocate x c n = (
    n.fresh,
    record n {
      node = update n.node n.fresh x;
      parent = update n.parent n.fresh none;
      child_storage = update n.child_storage n.fresh c;
      fresh = suc n.fresh;
    },
  )

  abbrev pub set_parent_field : ℕ → Option ℕ → Net V → Net V
  set_parent_field i p n = record n { parent = update n.parent i p }

  -- `ConveyorEventStorage::setParent` of a parent that is not null.
  abbrev pub set_event_parent : ℕ → ℕ → Net V → Option (Net V)
  set_event_parent p i n = do
    n₁ ←
        (if not (is_armed i n.loop) && ltb 0 (queued i n)
          then (assert (is_null (n.parent i))
              >> (if ltb 0 (space p n) then arm_later_in i n else some n))
          else some n)
    some (set_parent_field i (some p) n₁)

  -- `setParent`, which `Appendage` overrides.
  abbrev pub set_parent_of : Node V → ℕ → ℕ → Net V → Option (Net V)
  set_parent_of (appendage c m v) p i n =
      assert (has_node c) >> some (set_parent_field i (some p) n)
  set_parent_of (adapt_node xs) p i n = set_event_parent p i n
  set_parent_of (buffer_node c xs m) p i n = set_event_parent p i n
  set_parent_of (immediate_node v r) p i n = set_event_parent p i n
  set_parent_of (sink_node c s) p i n = set_event_parent p i n
  set_parent_of (merge_node us k) p i n = set_event_parent p i n
  set_parent_of destroyed_node p i n = none

  unfoldable pub set_parent : ℕ → ℕ → Net V → Option (Net V)
  set_parent p i n = set_parent_of (n.node i) p i n

  -- `Conveyor(FixVoid<T> value)` and `Conveyor(Error &&error)`
  unfoldable pub immediate : ErrorOr V → Net V → Conveyor V × Net V
  immediate v n =
      let r = allocate (immediate_node v 0) none n in
      (record { node = storage_node r.0; storage = some r.0 }, r.1)

  -- `newConveyorAndFeeder`; the conveyor's storage is also the feedee of the feeder.
  unfoldable pub new_conveyor_and_feeder : Net V → Conveyor V × Net V
  new_conveyor_and_feeder n =
      let r = allocate (adapt_node []) none n in
      (record { node = storage_node r.0; storage = some r.0 }, r.1)

  -- `Conveyor::then`
  abbrev pub then_convert : (V → Outcome V) → (Error → ErrorOr V) → Conveyor V → Conveyor V
  then_convert f g c = record { node = convert_node f g c.node; storage = c.storage }

  -- `PropagateError`
  abbrev pub propagate_error : Error → ErrorOr V
  propagate_error e = error e

  -- `Conveyor::attach`
  abbrev pub attach : Conveyor V → Conveyor V
  attach c = record { node = attach_node c.node; storage = c.storage }

  -- `Conveyor::buffer`
  unfoldable pub buffer : ℕ → Conveyor V → Net V → Option (Conveyor V × Net V)
  buffer size c n =
      let r = allocate (buffer_node c.node [] size) c.storage n in
      c.storage >>= λ k. set_parent r.0 k r.1 >>= λ n₁.
      some (record { node = storage_node r.0; storage = some r.0 }, n₁)

  -- `Conveyor<void>::sink` and the part of `ConveyorSinks::add` that makes the node; `daemon` tells
  -- which.
  unfoldable pub sink : Bool → Conveyor V → Net V → Option (ℕ × Net V)
  sink daemon c n =
      let r = allocate (sink_node c.node daemon) c.storage n in
      elim (c.storage) [
        | none ↦ if daemon then some r else none
        | some k ↦ set_parent r.0 k r.1 >>= λ n₁. some (r.0, n₁)
      ]

  abbrev add_appendage : ℕ → Node V → Node V
  add_appendage a (merge_node us k) = merge_node (us ++ a ∷ []) k
  add_appendage a (adapt_node xs) = adapt_node xs
  add_appendage a (buffer_node c xs m) = buffer_node c xs m
  add_appendage a (immediate_node v r) = immediate_node v r
  add_appendage a (sink_node c s) = sink_node c s
  add_appendage a (appendage c m v) = appendage c m v
  add_appendage a destroyed_node = destroyed_node

  -- `MergeConveyorNodeData::attach` for the merge node `i`
  unfoldable pub attach_conveyor : ℕ → Conveyor V → Net V → Option (Net V)
  attach_conveyor i c n = do
    let r = allocate (appendage c.node i none) c.storage n
    n₁ ← elim (c.storage) [ none ↦ some r.1 | some k ↦ set_parent r.0 k r.1 ]
    some (set_node i (add_appendage r.0 (n₁.node i)) n₁)

  -- `Conveyor::merge`
  unfoldable pub merge : Conveyor V → Net V → Option (Conveyor V × Net V)
  merge c n =
      let r = allocate (merge_node [] 0) none n in
      attach_conveyor r.0 c r.1 >>= λ n₁.
      some (record { node = storage_node r.0; storage = some r.0 }, n₁)

  -- `Conveyor::take`
  unfoldable pub take_element : Conveyor V → Net V → Option (ErrorOr V × Net V)
  take_element c n = elim (c.storage) [
    | none ↦ some (error (critical_error "Conveyor in invalid state"), n)
    | some k ↦
        if ltb 0 (queued k n)
        then get_result c.node n
        else some (error (recoverable_error "Conveyor buffer has no elements"), n)
  ]

  abbrev pub feed_node : ErrorOr V → ℕ → Node V → Net V → Option (Net V)
  feed_node v i (adapt_node xs) n = arm_next_in i (set_node i (adapt_node (xs ++ v ∷ [])) n)
  feed_node v i (buffer_node c xs m) n = none
  feed_node v i (immediate_node u r) n = none
  feed_node v i (sink_node c s) n = none
  feed_node v i (merge_node us k) n = none
  feed_node v i (appendage c m u) n = none
  feed_node v i destroyed_node n = some n

  -- `AdaptConveyorFeeder::feed` of a value and `fail` of an error, for the feedee that the feeder was
  -- made with. Where that is destroyed, its destructor has reset the pointer, and nothing happens.
  unfoldable pub feed : ErrorOr V → ℕ → Net V → Option (Net V)
  feed v i n = feed_node v i (n.node i) n
