-- ===== src/Async/Conveyor/Room/Whole.antt =====
-- No buffer holds more elements than it has room for: what `fire` and `parentHasFired` do.
use mathlib.Core.Path.{subst}
use forstio.Prelude.{
  ℕ, zero, suc, ◌≡◌, refl, Bool, false, ◌&&◌, Option, none, some, List, [], ◌∷◌, ◌++◌, ltb, ◌==◌,
  if◌then◌else◌,
}
use forstio.Async.Event.{arm_next, arm_later, arm_last, is_armed, disarm}
use forstio.Async.Conveyor.{
  Pipe, null_node, Node, adapt_node, buffer_node, immediate_node, sink_node, merge_node, appendage,
  destroyed_node, Net, set_node, set_child_storage, has_node, has_critical, queued, queued_in,
  space,
}
use forstio.Async.Conveyor.Destroy.{owned, ends, unlink_child, each, destroy_storage, destroy}
use forstio.Async.Conveyor.Fire.{
  arm_next_in, arm_later_in, arm_last_in, child_has_fired, appendage_parent_fired, parent_fired,
  parent_has_fired, serve_parent, cut_off, destroy_sink_node, fire_node, fire,
}
use forstio.Async.Conveyor.Room.{InBounds, IsBounded}
use forstio.Async.Conveyor.Room.Steps.{
  Safe, set_node-IsBounded, Safe-if, IsBounded-if, Safe-assert, Safe-loop, Safe-then,
  child_has_fired-Safe,
}

module _ {V : Type 0} where
  parent_fired-Safe :
      (call : ℕ → Net V → Option (Net V))
      → ((k : ℕ) (n : Net V) → IsBounded n → Safe (call k n))
      → (i : ℕ) (x : Node V) (p : Option ℕ) (n : Net V) → IsBounded n
      → Safe (parent_fired call i x p n)
  parent_fired-Safe call f i (sink_node c s) p n h = h
  parent_fired-Safe call f i (appendage c m v) p n h = called (n.child_storage i)
    where
      called : (k : Option ℕ) → Safe (appendage_parent_fired call k n)
      called none = h
      called (some k') = f k' n h
  parent_fired-Safe call f i (adapt_node xs) none n h = tt
  parent_fired-Safe call f i (adapt_node xs) (some p) n h = h
  parent_fired-Safe call f i (buffer_node c xs m) none n h = tt
  parent_fired-Safe call f i (buffer_node c xs m) (some p) n h =
      Safe-if (space p n == 0) (some n) (if ltb 0 (queued i n) then arm_later_in i n else some n) h
        (Safe-if (ltb 0 (queued i n)) (arm_later_in i n) (some n)
          (Safe-loop (arm_later i n.loop) n h) h)
  parent_fired-Safe call f i (immediate_node v r) none n h = tt
  parent_fired-Safe call f i (immediate_node v r) (some p) n h =
      Safe-assert (ltb 0 (space p n)) (if ltb 0 (queued i n) then arm_next_in i n else some n) (
        Safe-if (ltb 0 (queued i n)) (arm_next_in i n) (some n) (Safe-loop (arm_next i n.loop) n h)
          h)
  parent_fired-Safe call f i (merge_node us k) none n h = tt
  parent_fired-Safe call f i (merge_node us k) (some p) n h =
      Safe-if (ltb 0 (queued i n) && ltb 0 (space p n)) (arm_later_in i n) (some n)
        (Safe-loop (arm_later i n.loop) n h) h
  parent_fired-Safe call f i destroyed_node p n h = tt

  parent_has_fired-Safe :
      (depth i : ℕ) (n : Net V) → IsBounded n → Safe (parent_has_fired depth i n)
  unfolding parent_has_fired
  parent_has_fired-Safe zero i n h = tt
  parent_has_fired-Safe (suc depth) i n h =
      parent_fired-Safe (parent_has_fired depth) (parent_has_fired-Safe depth) i (n.node i)
        (n.parent i) n h

  each-IsBounded :
      (f : ℕ → Net V → Net V)
      → ((i : ℕ) (n : Net V) → IsBounded n → IsBounded (f i n))
      → (us : List ℕ) (n : Net V) → IsBounded n
      → IsBounded (each f us n)
  each-IsBounded f g [] n h = h
  each-IsBounded f g (i ∷ us) n h = each-IsBounded f g us (f i n) (g i n h)

  unlink_child-IsBounded : (p : Option ℕ) (n : Net V) → IsBounded n → IsBounded (unlink_child p n)
  unlink_child-IsBounded none n h = h
  unlink_child-IsBounded (some p) n h = h

  destroy_storage-IsBounded :
      (depth i : ℕ) (n : Net V) → IsBounded n → IsBounded (destroy_storage depth i n)
  unfolding destroy_storage
  destroy_storage-IsBounded zero i n h = h
  destroy_storage-IsBounded (suc depth) i n h =
      let n₁ = each (destroy_storage depth) (owned (n.node i)) n in
      let n₂ = unlink_child (n₁.parent i) n₁ in
      set_node-IsBounded i destroyed_node (record n₂ { loop = disarm i n₂.loop })
        (unlink_child-IsBounded (n₁.parent i) n₁ (
          each-IsBounded (destroy_storage depth) (destroy_storage-IsBounded depth)
            (owned (n.node i)) n h))
        tt

  destroy-IsBounded : (c : Pipe V) (n : Net V) → IsBounded n → IsBounded (destroy c n)
  destroy-IsBounded c n h =
      each-IsBounded (destroy_storage n.fresh) (destroy_storage-IsBounded n.fresh) (ends c) n h

  cut_off-IsBounded :
      (i : ℕ) (x : Node V) (n : Net V) → InBounds x → IsBounded n → IsBounded (cut_off i x n)
  cut_off-IsBounded i (buffer_node c (x ∷ xs) m) n b h =
      IsBounded-if (has_node c && has_critical x)
        (set_child_storage i none (set_node i (buffer_node null_node (x ∷ xs) m) (destroy c n))) n
        (set_node-IsBounded i (buffer_node null_node (x ∷ xs) m) (destroy c n)
          (destroy-IsBounded c n h) b)
        h
  cut_off-IsBounded i (buffer_node c [] m) n b h = h
  cut_off-IsBounded i (adapt_node xs) n b h = h
  cut_off-IsBounded i (immediate_node v r) n b h = h
  cut_off-IsBounded i (sink_node c s) n b h = h
  cut_off-IsBounded i (merge_node us k) n b h = h
  cut_off-IsBounded i (appendage c m v) n b h = h
  cut_off-IsBounded i destroyed_node n b h = h

  serve_parent-Safe :
      (again : ℕ → Net V → Bool) (arm : ℕ → Net V → Option (Net V))
      → ((i : ℕ) (n : Net V) → IsBounded n → Safe (arm i n))
      → (i : ℕ) (p : Option ℕ) (n : Net V) → IsBounded n
      → Safe (serve_parent again arm i p n)
  serve_parent-Safe again arm f i none n h = h
  serve_parent-Safe again arm f i (some p) n h =
      Safe-then (child_has_fired p n) (λ n₁. if again p n₁ then arm i n₁ else some n₁)
        (child_has_fired-Safe p n h)
        (λ n₁ h₁. Safe-if (again p n₁) (arm i n₁) (some n₁) (f i n₁ h₁) h₁)

  arm_later_in-Safe : (i : ℕ) (n : Net V) → IsBounded n → Safe (arm_later_in i n)
  arm_later_in-Safe i n h = Safe-loop (arm_later i n.loop) n h

  arm_last_in-Safe : (i : ℕ) (n : Net V) → IsBounded n → Safe (arm_last_in i n)
  arm_last_in-Safe i n h = Safe-loop (arm_last i n.loop) n h

  fire_node-Safe :
      (i : ℕ) (x : Node V) (n : Net V) → n.node i ≡ x → IsBounded n → Safe (fire_node i x n)
  fire_node-Safe i (adapt_node xs) n q h =
      serve_parent-Safe _ arm_later_in arm_later_in-Safe i (n.parent i) n h
  fire_node-Safe i (buffer_node c xs m) n q h =
      let n₁ = cut_off i (n.node i) n in
      Safe-then
        (serve_parent (λ p m'. ltb 0 (queued i m') && ltb 0 (space p m')) arm_later_in i
          (n₁.parent i) n₁)
        (λ n₂.
          if ltb 0 (space i n₁)
          then some n₂
          else elim (n₂.child_storage i) [ none ↦ some n₂ | some k ↦ parent_has_fired 2 k n₂ ])
        (serve_parent-Safe _ arm_later_in arm_later_in-Safe i (n₁.parent i) n₁
          (cut_off-IsBounded i (n.node i) n (h i) h))
        (λ n₂ h₂. Safe-if (ltb 0 (space i n₁)) (some n₂) _ h₂ (called n₂ h₂ (n₂.child_storage i)))
    where
      called :
          (n₂ : Net V)
          → IsBounded n₂
          → (k : Option ℕ) → Safe (elim k [ none ↦ some n₂ | some k' ↦ parent_has_fired 2 k' n₂ ])
      called n₂ h₂ none = h₂
      called n₂ h₂ (some k) = parent_has_fired-Safe 2 k n₂ h₂
  fire_node-Safe i (immediate_node v r) n q h =
      serve_parent-Safe _ arm_last_in arm_last_in-Safe i (n.parent i) n h
  fire_node-Safe i (sink_node c s) n q h =
      let n₁ = set_node i (sink_node null_node false) (destroy c n) in
      let h₁ =
        set_node-IsBounded i (sink_node null_node false) (destroy c n) (destroy-IsBounded c n h)
          tt in
      Safe-if s (destroy_sink_node i n₁) (some n₁)
        (Safe-then (if is_armed n₁.sinks n₁.loop then some n₁ else arm_last_in n₁.sinks n₁)
          (λ n₂. some (record n₂ { delete_nodes = n₂.delete_nodes ++ i ∷ [] }))
          (Safe-if (is_armed n₁.sinks n₁.loop) (some n₁) (arm_last_in n₁.sinks n₁) h₁
            (arm_last_in-Safe n₁.sinks n₁ h₁))
          (λ n₂ h₂. h₂))
        h₁
  fire_node-Safe i (merge_node us k) n q h =
      Safe-assert (ltb 0 (queued_in n us)) _
        (serve_parent-Safe _ arm_later_in arm_later_in-Safe i (n.parent i) n h)
  fire_node-Safe i (appendage c m v) n q h = tt
  fire_node-Safe i destroyed_node n q h = tt

  pub fire-Safe : (i : ℕ) (n : Net V) → IsBounded n → Safe (fire i n)
  unfolding fire
  fire-Safe i n h = fire_node-Safe i (n.node i) n refl h

  -- No event that fires makes a buffer hold more elements than it may, whichever way the conveyors are
  -- put together.
  pub fire-IsBounded : (i : ℕ) (n n' : Net V) → IsBounded n → fire i n ≡ some n' → IsBounded n'
  fire-IsBounded i n n' h e = subst Safe e (fire-Safe i n h)
