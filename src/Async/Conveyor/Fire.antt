-- ===== src/Async/Conveyor/Fire.antt =====
-- `childHasFired`, `parentHasFired` and `fire` of the storages, source/forstio/async.h,
-- source/forstio/async.tmpl.h and source/forstio/async.cpp.
use forstio.Prelude.{
  ℕ, zero, suc, Bool, false, not, ◌&&◌, Option, none, some, List, [], ◌∷◌, ◌++◌, length, ltb, ◌==◌,
  if◌then◌else◌, ◌>>=◌, ◌>>◌, assert,
}
use forstio.Error.{ErrorOr}
use forstio.Async.Event.{arm_next, arm_later, arm_last, is_armed}
use forstio.Async.Conveyor.{
  Pipe, null_node, Node, adapt_node, buffer_node, immediate_node, sink_node, merge_node, appendage,
  destroyed_node, Net, set_node, set_child_storage, has_node, has_critical, has_value, queued,
  queued_in, space,
}
use forstio.Async.Conveyor.Fetch.{get_result}
use forstio.Async.Conveyor.Destroy.{destroy}

module _ {V : Type 0} where
  abbrev pub arm_next_in : ℕ → Net V → Option (Net V)
  arm_next_in i n = arm_next i n.loop >>= λ l. some (record n { loop = l })

  abbrev pub arm_later_in : ℕ → Net V → Option (Net V)
  arm_later_in i n = arm_later i n.loop >>= λ l. some (record n { loop = l })

  abbrev pub arm_last_in : ℕ → Net V → Option (Net V)
  arm_last_in i n = arm_last i n.loop >>= λ l. some (record n { loop = l })

  -- `storage.push`
  abbrev pub pushed : ErrorOr V → Node V → Node V
  pushed v (adapt_node xs) = adapt_node (xs ++ v ∷ [])
  pushed v (buffer_node c xs m) = buffer_node c (xs ++ v ∷ []) m
  pushed v (immediate_node u r) = immediate_node u r
  pushed v (sink_node c s) = sink_node c s
  pushed v (merge_node us k) = merge_node us k
  pushed v (appendage c m u) = appendage c m (some v)
  pushed v destroyed_node = destroyed_node

  -- `QueueBufferConveyorNode::childHasFired` from the value of its child on.
  abbrev pub buffered : ℕ → ErrorOr V → Net V → Option (Net V)
  buffered i v n =
      let n₁ = if has_critical v then set_child_storage i none n else n in
      let n₂ = set_node i (pushed v (n₁.node i)) n₁ in
      if is_armed i n₂.loop then some n₂ else arm_later_in i n₂

  -- `SinkConveyorNode::childHasFired` from the value of its child on. `ConveyorSinks::fail` does
  -- nothing.
  abbrev pub sunk : ℕ → ErrorOr V → Net V → Option (Net V)
  sunk i v n = if has_critical v && not (is_armed i n.loop) then arm_last_in i n else some n

  -- `Appendage::childHasFired` from the value of its child on.
  abbrev pub appended : ℕ → ℕ → ErrorOr V → Net V → Option (Net V)
  appended i m v n =
      let n₁ = set_node i (pushed v (n.node i)) n in
      if is_armed m n₁.loop then some n₁ else arm_later_in m n₁

  -- `QueueBufferConveyorNode::childHasFired`
  abbrev pub buffer_child_fired : ℕ → Pipe V → List (ErrorOr V) → ℕ → Net V → Option (Net V)
  buffer_child_fired i c xs m n =
      if has_node c && ltb (length xs) m
      then (get_result c n >>= λ r. buffered i r.0 r.1)
      else some n

  -- `SinkConveyorNode::childHasFired`
  abbrev pub sink_child_fired : ℕ → Pipe V → Net V → Option (Net V)
  sink_child_fired i c n = if has_node c then (get_result c n >>= λ r. sunk i r.0 r.1) else some n

  -- `Appendage::childHasFired`
  abbrev pub appendage_child_fired : ℕ → Pipe V → ℕ → Option (ErrorOr V) → Net V → Option (Net V)
  appendage_child_fired i c m v n =
      assert (not (has_value v)) >> (get_result c n >>= λ r. appended i m r.0 r.1)

  -- `childHasFired`, for the node that it is called on.
  abbrev pub child_fired : ℕ → Node V → Net V → Option (Net V)
  child_fired i (adapt_node xs) n = none
  child_fired i (buffer_node c xs m) n = buffer_child_fired i c xs m n
  child_fired i (immediate_node v r) n = none
  child_fired i (sink_node c s) n = sink_child_fired i c n
  child_fired i (merge_node us k) n = none
  child_fired i (appendage c m v) n = appendage_child_fired i c m v n
  child_fired i destroyed_node n = none

  unfoldable pub child_has_fired : ℕ → Net V → Option (Net V)
  child_has_fired i n = child_fired i (n.node i) n

  -- `AdaptConveyorNode::parentHasFired`
  abbrev pub adapt_parent_fired : Option ℕ → Net V → Option (Net V)
  adapt_parent_fired none n = none
  adapt_parent_fired (some p) n = some n

  -- `QueueBufferConveyorNode::parentHasFired`
  abbrev pub buffer_parent_fired : ℕ → Option ℕ → Net V → Option (Net V)
  buffer_parent_fired i none n = none
  buffer_parent_fired i (some p) n =
      if space p n == 0 then some n else if ltb 0 (queued i n) then arm_later_in i n else some n

  -- `ImmediateConveyorNode::parentHasFired`
  abbrev pub immediate_parent_fired : ℕ → Option ℕ → Net V → Option (Net V)
  immediate_parent_fired i none n = none
  immediate_parent_fired i (some p) n =
      assert (ltb 0 (space p n)) >> (if ltb 0 (queued i n) then arm_next_in i n else some n)

  -- `MergeConveyorNode::parentHasFired`
  abbrev pub merge_parent_fired : ℕ → Option ℕ → Net V → Option (Net V)
  merge_parent_fired i none n = none
  merge_parent_fired i (some p) n =
      if ltb 0 (queued i n) && ltb 0 (space p n) then arm_later_in i n else some n

  -- `Appendage::parentHasFired`, for the child storage and what it calls on that.
  abbrev pub appendage_parent_fired :
      (ℕ → Net V → Option (Net V)) → Option ℕ → Net V → Option (Net V)
  appendage_parent_fired call none n = some n
  appendage_parent_fired call (some k) n = call k n

  -- `parentHasFired`, for the node that it is called on, its parent, and what it calls on the child
  -- storage of an appendage.
  abbrev pub parent_fired :
      (ℕ → Net V → Option (Net V)) → ℕ → Node V → Option ℕ → Net V → Option (Net V)
  parent_fired call i (adapt_node xs) p n = adapt_parent_fired p n
  parent_fired call i (buffer_node c xs m) p n = buffer_parent_fired i p n
  parent_fired call i (immediate_node v r) p n = immediate_parent_fired i p n
  parent_fired call i (sink_node c s) p n = some n
  parent_fired call i (merge_node us k) p n = merge_parent_fired i p n
  parent_fired call i (appendage c m v) p n = appendage_parent_fired call (n.child_storage i) n
  parent_fired call i destroyed_node p n = none

  -- The calls nest as deep as appendages are child storages of appendages. None is: the storage of a
  -- conveyor is never an appendage.
  unfoldable pub parent_has_fired : ℕ → ℕ → Net V → Option (Net V)
  parent_has_fired zero i n = none
  parent_has_fired (suc depth) i n =
      parent_fired (parent_has_fired depth) i (n.node i) (n.parent i) n

  -- What `fire` does for the parent: the event is armed again, with `arm`, where `again` holds after
  -- `childHasFired`.
  abbrev pub serve_parent :
      (ℕ → Net V → Bool) → (ℕ → Net V → Option (Net V)) → ℕ → Option ℕ → Net V → Option (Net V)
  serve_parent again arm i none n = some n
  serve_parent again arm i (some p) n = do
    n₁ ← child_has_fired p n
    if again p n₁ then arm i n₁ else some n₁

  -- The first part of `QueueBufferConveyorNode::fire`: a critical error in front ends the chain.
  abbrev pub cut_off : ℕ → Node V → Net V → Net V
  cut_off i (buffer_node c (x ∷ xs) m) n =
      if has_node c && has_critical x
      then set_child_storage i none (set_node i (buffer_node null_node (x ∷ xs) m) (destroy c n))
      else n
  cut_off i (buffer_node c [] m) n = n
  cut_off i (adapt_node xs) n = n
  cut_off i (immediate_node v r) n = n
  cut_off i (sink_node c s) n = n
  cut_off i (merge_node us k) n = n
  cut_off i (appendage c m v) n = n
  cut_off i destroyed_node n = n

  -- `ConveyorSinks::destroySinkConveyorNode`
  abbrev pub destroy_sink_node : ℕ → Net V → Option (Net V)
  destroy_sink_node i n = do
    n₁ ← (if is_armed n.sinks n.loop then some n else arm_last_in n.sinks n)
    some (record n₁ { delete_nodes = n₁.delete_nodes ++ i ∷ [] })

  -- `AdaptConveyorNode::fire`
  abbrev pub adapt_fire : ℕ → Net V → Option (Net V)
  adapt_fire i n = serve_parent (λ p m. ltb 0 (queued i m)) arm_later_in i (n.parent i) n

  -- `QueueBufferConveyorNode::fire`
  abbrev pub buffer_fire : ℕ → Net V → Option (Net V)
  buffer_fire i n = do
    let n₁ = cut_off i (n.node i) n
    n₂ ←
        serve_parent (λ p m. ltb 0 (queued i m) && ltb 0 (space p m)) arm_later_in i (n₁.parent i)
          n₁
    if ltb 0 (space i n₁)
        then some n₂
        else elim (n₂.child_storage i) [ none ↦ some n₂ | some k ↦ parent_has_fired 2 k n₂ ]

  -- `ImmediateConveyorNode::fire`
  abbrev pub immediate_fire : ℕ → Net V → Option (Net V)
  immediate_fire i n =
      serve_parent (λ p m. ltb 0 (queued i m) && ltb 0 (space p m)) arm_last_in i (n.parent i) n

  -- `SinkConveyorNode::fire`
  abbrev pub sink_fire : ℕ → Pipe V → Bool → Net V → Option (Net V)
  sink_fire i c s n =
      let n₁ = set_node i (sink_node null_node false) (destroy c n) in
      if s then destroy_sink_node i n₁ else some n₁

  -- `MergeConveyorNode::fire`
  abbrev pub merge_fire : ℕ → List ℕ → Net V → Option (Net V)
  merge_fire i us n =
      assert (ltb 0 (queued_in n us))
      >> serve_parent (λ p m. ltb 0 (queued i m) && ltb 0 (space p m)) arm_later_in i (n.parent i) n

  -- `fire`, for the node whose event it is. An appendage has no event.
  abbrev pub fire_node : ℕ → Node V → Net V → Option (Net V)
  fire_node i (adapt_node xs) n = adapt_fire i n
  fire_node i (buffer_node c xs m) n = buffer_fire i n
  fire_node i (immediate_node v r) n = immediate_fire i n
  fire_node i (sink_node c s) n = sink_fire i c s n
  fire_node i (merge_node us k) n = merge_fire i us n
  fire_node i (appendage c m v) n = none
  fire_node i destroyed_node n = none

  unfoldable pub fire : ℕ → Net V → Option (Net V)
  fire i n = fire_node i (n.node i) n
