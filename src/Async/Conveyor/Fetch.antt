-- ===== src/Async/Conveyor/Fetch.antt =====
-- `getResult` of the nodes, source/forstio/async.h, source/forstio/async.tmpl.h and
-- source/forstio/async.cpp.
use forstio.Prelude.{
  ℕ, suc, Bool, ◌+◌, ◌^◌, ◌%◌, min, Option, none, some, List, [], ◌∷◌, length, take, drop, ltb,
  if◌then◌else◌, ◌>>=◌,
}
use forstio.Error.{Error, ErrorOr, error, value, critical_error, no_error, make_error, exhausted}
use forstio.Async.Conveyor.{
  Outcome, returned, bad_alloc, thrown, Pipe, null_node, storage_node, convert_node, attach_node,
  Node, adapt_node, buffer_node, immediate_node, sink_node, merge_node, appendage, destroyed_node,
  Net, set_node, held, queued_of, has_node,
}

module _ {V : Type 0} where
  -- The `try` block of `ConvertConveyorNode::getImpl`.
  abbrev pub outcome : Outcome V → ErrorOr V
  outcome (returned r) = r
  outcome bad_alloc = error (critical_error "Out of memory")
  outcome thrown = error (
      critical_error
        "Exception in chain occured. Return ErrorOr<T> if you want to handle errors which are recoverable")

  -- `ConvertConveyorNode::getImpl` for what the child has returned.
  abbrev pub converted : (V → Outcome V) → (Error → ErrorOr V) → ErrorOr V → ErrorOr V
  converted f g (value v) = outcome (f v)
  converted f g (error e) = g e

  -- The loops of `MergeConveyorNode::getResult`: the first appendage that holds something, its index
  -- and what it holds.
  abbrev pub scan : (ℕ → Node V) → ℕ → List ℕ → Option (ℕ × ℕ × ErrorOr V)
  scan node i [] = none
  scan node i (a ∷ xs) = elim (held (node a)) [
    | some v ↦ some (i, a, v)
    | none ↦ scan node (suc i) xs
  ]

  abbrev pub scan_both : (ℕ → Node V) → List ℕ → ℕ → Option (ℕ × ℕ × ErrorOr V)
  scan_both node apps next = elim (scan node next (drop next apps)) [
    | some r ↦ some r
    | none ↦ scan node 0 (take next apps)
  ]

  -- `error_or_value = std::nullopt`
  abbrev pub emptied : Node V → Node V
  emptied (appendage c m v) = appendage c m none
  emptied destroyed_node = destroyed_node
  emptied (adapt_node xs) = adapt_node xs
  emptied (buffer_node c xs m) = buffer_node c xs m
  emptied (immediate_node v r) = immediate_node v r
  emptied (sink_node c s) = sink_node c s
  emptied (merge_node apps k) = merge_node apps k

  -- What `MergeConveyorNode::getResult` does with what its loops find.
  abbrev pub merged : ℕ → List ℕ → ℕ → Net V → Option (ℕ × ℕ × ErrorOr V) → ErrorOr V × Net V
  merged i apps next n none =
      (error (critical_error "No value in Merge Appendages"), set_node i (merge_node apps next) n)
  merged i apps next n (some (k, a, v)) =
      (v, set_node i (merge_node apps (suc k)) (set_node a (emptied (n.node a)) n))

  -- `AdaptConveyorNode::getResult`
  abbrev pub adapt_result : ℕ → List (ErrorOr V) → Net V → Option (ErrorOr V × Net V)
  adapt_result i [] n = some (
    error (critical_error "Signal for retrieval of storage sent even though no data is present"),
    n,
  )
  adapt_result i (x ∷ xs) n = some (x, set_node i (adapt_node xs) n)

  -- `QueueBufferConveyorNode::getResult`. No assertion guards it: `front` and `pop` of an empty queue are
  -- undefined in C++, which is `none`.
  abbrev pub buffer_result : ℕ → Pipe V → List (ErrorOr V) → ℕ → Net V → Option (ErrorOr V × Net V)
  buffer_result i c [] m n = none
  buffer_result i c (x ∷ xs) m n = some (x, set_node i (buffer_node c xs m) n)

  -- `ImmediateConveyorNode::getResult`
  abbrev pub immediate_result : ℕ → ErrorOr V → ℕ → Net V → Option (ErrorOr V × Net V)
  immediate_result i v r n = some (
    if ltb 0 r then error (make_error "Already taken value" exhausted) else v,
    if ltb 0 (queued_of n (immediate_node v r))
        then set_node i (immediate_node v ((r + 1) % 2 ^ 8)) n
        else n,
  )

  -- `MergeConveyorNode::getResult`
  abbrev pub merge_result : ℕ → List ℕ → ℕ → Net V → Option (ErrorOr V × Net V)
  merge_result i apps next n =
      let next' = min (length apps) next in
      some (merged i apps next' n (scan_both n.node apps next'))

  -- `SinkConveyorNode::getResult`
  abbrev pub sink_result : Net V → Option (ErrorOr V × Net V)
  sink_result n = some (error (critical_error "In a sink node no result can be returned"), n)

  -- `getResult` of the storages. An appendage has none.
  abbrev pub get_storage : ℕ → Node V → Net V → Option (ErrorOr V × Net V)
  get_storage i (adapt_node xs) n = adapt_result i xs n
  get_storage i (buffer_node c xs m) n = buffer_result i c xs m n
  get_storage i (immediate_node v r) n = immediate_result i v r n
  get_storage i (sink_node c s) n = sink_result n
  get_storage i (merge_node apps next) n = merge_result i apps next n
  get_storage i (appendage c m v) n = none
  get_storage i destroyed_node n = none

  -- `ConvertConveyorNode::getImpl`, for whether there is a child and what that does.
  abbrev pub convert_result :
      (V → Outcome V)
      → (Error → ErrorOr V)
      → Bool
      → Option (ErrorOr V × Net V)
      → Net V
      → Option (ErrorOr V × Net V)
  convert_result f g child run n =
      if child
      then (run >>= λ r. some (converted f g r.0, r.1))
      else some (error (critical_error "Conveyor doesn't have child"), n)

  -- `AttachConveyorNodeBase::getResult`, for whether there is a child and what that does. Without one the
  -- result stays as its caller has made it.
  abbrev pub attach_result : Bool → Option (ErrorOr V × Net V) → Net V → Option (ErrorOr V × Net V)
  attach_result child run n = if child then run else some (error no_error, n)

  -- `getResult` of all nodes.
  abbrev pub get_result : Pipe V → Net V → Option (ErrorOr V × Net V)
  get_result null_node n = none
  get_result (storage_node i) n = get_storage i (n.node i) n
  get_result (convert_node f g p) n =
      let run = get_result p n in convert_result f g (has_node p) run n
  get_result (attach_node p) n = let run = get_result p n in attach_result (has_node p) run n
