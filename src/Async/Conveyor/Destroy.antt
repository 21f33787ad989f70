-- ===== src/Async/Conveyor/Destroy.antt =====
-- The destructors of the storages, source/forstio/async.cpp and source/forstio/async.tmpl.h.
use forstio.Prelude.{ℕ, zero, suc, Option, none, some, List, [], ◌∷◌}
use forstio.Async.Event.{disarm}
use forstio.Async.Conveyor.{
  Pipe, null_node, storage_node, convert_node, attach_node, Node, adapt_node, buffer_node,
  immediate_node, sink_node, merge_node, appendage, destroyed_node, Net, set_node,
  set_child_storage,
}

module _ {V : Type 0} where
  -- The storages that a node owns.
  abbrev pub ends : Pipe V → List ℕ
  ends null_node = []
  ends (storage_node i) = i ∷ []
  ends (convert_node f g p) = ends p
  ends (attach_node p) = ends p

  abbrev pub owned : Node V → List ℕ
  owned (adapt_node xs) = []
  owned (buffer_node c xs m) = ends c
  owned (immediate_node v r) = []
  owned (sink_node c s) = ends c
  owned (merge_node us k) = us
  owned (appendage c m v) = ends c
  owned destroyed_node = []

  -- `ConveyorStorage::~ConveyorStorage`: the parent forgets its child storage.
  abbrev pub unlink_child : Option ℕ → Net V → Net V
  unlink_child none n = n
  unlink_child (some p) n = set_child_storage p none n

  abbrev pub each : (ℕ → Net V → Net V) → List ℕ → Net V → Net V
  each f [] n = n
  each f (i ∷ us) n = each f us (f i n)

  -- The destructors of a storage and of what it owns. They nest at most as deep as there are storages.
  unfoldable pub destroy_storage : ℕ → ℕ → Net V → Net V
  destroy_storage zero i n = n
  destroy_storage (suc depth) i n =
      let n₁ = each (destroy_storage depth) (owned (n.node i)) n in
      let n₂ = unlink_child (n₁.parent i) n₁ in
      set_node i destroyed_node (record n₂ { loop = disarm i n₂.loop })

  -- `child = nullptr`
  abbrev pub destroy : Pipe V → Net V → Net V
  destroy c n = each (destroy_storage n.fresh) (ends c) n
