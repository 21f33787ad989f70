-- ===== src/Async/Conveyor.antt =====
-- The conveyors of source/forstio/async.h and source/forstio/async.tmpl.h: the nodes, what they hold
-- and how they point to each other. Storages are numbers, which are also the numbers of their
-- events. The nodes between two storages, which `then` and `attach` put there and which own one
-- another, are a `Pipe`. Values of all types are in `V`. Assertions are on. `none` is an assertion that
-- does not hold, and also what C++ leaves undefined: the front of an empty queue, a call on a null pointer
-- or on what has been destroyed.
pub mod Fetch
pub mod Destroy
pub mod Fire
pub mod Build
pub mod Pure
pub mod Room
pub mod Feed
pub mod Fair
pub mod Move
use forstio.Prelude.{
  ℕ, zero, suc, ◌+◌, ◌-◌, ◌^◌, ◌%◌, Bool, true, false, Option, none, some, List, [], ◌∷◌, ◌++◌,
  length, sub_size,
}
use forstio.Error.{Error, ErrorOr, error, value, is_critical}
use forstio.Async.Event.{EventLoop, update}

-- What the function of `then` does: it returns, or throws `std::bad_alloc` or another exception.
pub data Outcome (V : Type 0) : Type 0 where
  returned : ErrorOr V → Outcome V
  bad_alloc : Outcome V
  thrown : Outcome V

-- `Own<ConveyorNode>`: null, a storage, a `ConvertConveyorNode` or an `AttachConveyorNode`.
pub data Pipe (V : Type 0) : Type 0 where
  null_node : Pipe V
  storage_node : ℕ → Pipe V
  convert_node : (V → Outcome V) → (Error → ErrorOr V) → Pipe V → Pipe V
  attach_node : Pipe V → Pipe V

-- The nodes that are a `ConveyorStorage`, with their own fields. In a merge node the first is the
-- `appendages` of its `MergeConveyorNodeData`; in a sink node the second tells whether there is a
-- `conveyor_sink`. A node that its owner has destroyed is a
-- `destroyed_node`.
pub data Node (V : Type 0) : Type 0 where
  adapt_node : List (ErrorOr V) → Node V
  buffer_node : Pipe V → List (ErrorOr V) → ℕ → Node V
  immediate_node : ErrorOr V → ℕ → Node V
  sink_node : Pipe V → Bool → Node V
  merge_node : List ℕ → ℕ → Node V
  appendage : Pipe V → ℕ → Option (ErrorOr V) → Node V
  destroyed_node : Node V

-- The loop and all storages; `fresh` is the number of the next. `sinks` is the event of the
-- `ConveyorSinks` of the loop, and `delete_nodes` its queue.
pub record Net (V : Type 0) : Type 0 where
  pub loop : EventLoop
  pub node : ℕ → Node V
  pub parent : ℕ → Option ℕ
  pub child_storage : ℕ → Option ℕ
  pub fresh : ℕ
  pub sinks : ℕ
  pub delete_nodes : List ℕ

module _ {V : Type 0} where
  abbrev pub set_node : ℕ → Node V → Net V → Net V
  set_node i x n = record n { node = update n.node i x }

  abbrev pub set_child_storage : ℕ → Option ℕ → Net V → Net V
  set_child_storage i c n = record n { child_storage = update n.child_storage i c }

  -- `if (child)`
  abbrev pub has_node : Pipe V → Bool
  has_node null_node = false
  has_node (storage_node i) = true
  has_node (convert_node f g p) = true
  has_node (attach_node p) = true

  -- `isError() && error().isCritical()`
  abbrev pub has_critical : ErrorOr V → Bool
  has_critical (error e) = is_critical e
  has_critical (value v) = false

  abbrev pub has_value : Option (ErrorOr V) → Bool
  has_value none = false
  has_value (some v) = true

  -- What an appendage has taken from its child.
  abbrev pub held : Node V → Option (ErrorOr V)
  held (appendage c m v) = v
  held (adapt_node xs) = none
  held (buffer_node c xs m) = none
  held (immediate_node v r) = none
  held (sink_node c s) = none
  held (merge_node us k) = none
  held destroyed_node = none

  -- `Appendage::queued`
  abbrev pub count_held : Option (ErrorOr V) → ℕ
  count_held none = 0
  count_held (some v) = 1

  -- The loop of `MergeConveyorNode::queued`.
  abbrev pub queued_in : Net V → List ℕ → ℕ
  queued_in n [] = 0
  queued_in n (a ∷ us) = count_held (held (n.node a)) + queued_in n us

  -- `queued` of all storages.
  abbrev pub queued_of : Net V → Node V → ℕ
  queued_of n (adapt_node xs) = length xs
  queued_of n (buffer_node c xs m) = length xs
  queued_of n (immediate_node v zero) = 1
  queued_of n (immediate_node v (suc zero)) = 1
  queued_of n (immediate_node v (suc (suc r))) = 0
  queued_of n (sink_node c s) = 0
  queued_of n (merge_node us k) = queued_in n us
  queued_of n (appendage c m v) = count_held v
  queued_of n destroyed_node = 0

  -- `space` of all storages.
  abbrev pub space_of : Node V → ℕ
  space_of (adapt_node xs) = sub_size (2 ^ 64 - 1) (length xs)
  space_of (buffer_node c xs m) = sub_size m (length xs)
  space_of (immediate_node v r) = 0
  space_of (sink_node c s) = 1
  space_of (merge_node us k) = 0
  space_of (appendage c m none) = 1
  space_of (appendage c m (some v)) = 0
  space_of destroyed_node = 0

  abbrev pub queued : ℕ → Net V → ℕ
  queued i n = queued_of n (n.node i)

  abbrev pub space : ℕ → Net V → ℕ
  space i n = space_of (n.node i)
