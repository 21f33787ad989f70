-- ===== src/Async/Conveyor/Room.antt =====
-- No buffer holds more elements than it has room for: the property, and `getResult`.
pub mod Steps
pub mod Whole
use mathlib.Core.Path.{subst}
use native.Mathlib.Decide.{ℕ_discrete}
use forstio.Prelude.{
  ℕ, zero, suc, ◌+◌, ◌≤◌, ◌<◌, ◌^◌, ◌%◌, min, ◌≡◌, refl, sym, ap, ◌∙◌, Bool, true, false, Option,
  none, some, List, [], ◌∷◌, ◌++◌, length, ltb, if◌then◌else◌, ◌>>=◌, ◌>>◌, assert, arith,
}
use forstio.Error.{Error, ErrorOr, error, value}
use forstio.Async.Event.{EventLoop, update}
use forstio.Async.Event.Link.{update_at, update-ne}
use forstio.Async.Conveyor.{
  Outcome, Pipe, null_node, storage_node, convert_node, attach_node, Node, adapt_node, buffer_node,
  immediate_node, sink_node, merge_node, appendage, destroyed_node, Net, set_node, queued_of,
  has_node,
}
use forstio.Async.Conveyor.Fetch.{get_storage, get_result, scan_both, merged, emptied, converted}

module _ {V : Type 0} where
  abbrev pub InBounds : Node V → Type 0
  InBounds (buffer_node c xs m) = length xs ≤ m
  InBounds (adapt_node xs) = Unit {0}
  InBounds (immediate_node v r) = Unit {0}
  InBounds (sink_node c s) = Unit {0}
  InBounds (merge_node us k) = Unit {0}
  InBounds (appendage c m v) = Unit {0}
  InBounds destroyed_node = Unit {0}

  abbrev pub HasRoom : Node V → Type 0
  HasRoom (buffer_node c xs m) = length xs < m
  HasRoom (adapt_node xs) = Unit {0}
  HasRoom (immediate_node v r) = Unit {0}
  HasRoom (sink_node c s) = Unit {0}
  HasRoom (merge_node us k) = Unit {0}
  HasRoom (appendage c m v) = Unit {0}
  HasRoom destroyed_node = Unit {0}

  -- All buffers of the network hold at most as many elements as they may.
  abbrev pub IsBounded : Net V → Type 0
  IsBounded n = (j : ℕ) → InBounds (n.node j)

  -- A property of nodes that no `getResult` breaks.
  pub record IsClosed (P : ℕ → Node V → Type 0) : Type 0 where
    adapt :
        (j : ℕ) (x : ErrorOr V) (xs : List (ErrorOr V))
        → P j (adapt_node (x ∷ xs))
        → P j (adapt_node xs)
    buffer :
        (j : ℕ) (c : Pipe V) (x : ErrorOr V) (xs : List (ErrorOr V)) (m : ℕ)
        → P j (buffer_node c (x ∷ xs) m)
        → P j (buffer_node c xs m)
    immediate :
        (j : ℕ) (v : ErrorOr V) (r r' : ℕ) → P j (immediate_node v r) → P j (immediate_node v r')
    merge : (j : ℕ) (us : List ℕ) (k k' : ℕ) → P j (merge_node us k) → P j (merge_node us k')
    empty : (j : ℕ) (x : Node V) → P j x → P j (emptied x)

  module _ (P : ℕ → Node V → Type 0) where
    abbrev pub All : Net V → Type 0
    All n = (j : ℕ) → P j (n.node j)

    abbrev pub AllAfter : Option (ErrorOr V × Net V) → Type 0
    AllAfter none = Unit {0}
    AllAfter (some r) = All r.1

    pub set_node-All : (i : ℕ) (x : Node V) (n : Net V) → All n → P i x → All (set_node i x n)
    set_node-All i x n h p j = elim (ℕ_discrete j i) [
      | yes e ↦
          subst (λ k. P k (update n.node i x k)) (sym e)
            (subst (P i) (sym (update_at n.node i x)) p)
      | no e ↦ subst (P j) (sym (update-ne n.node i x j e)) (h j)
    ]

    module _ (closed : IsClosed P) where
      merged-All :
          (i : ℕ) (us : List ℕ) (k : ℕ) (n : Net V) (r : Option (ℕ × ℕ × ErrorOr V))
          → All n
          → ((k' : ℕ) → P i (merge_node us k'))
          → All (merged i us k n r).1
      merged-All i us k n none h p = set_node-All i (merge_node us k) n h (p k)
      merged-All i us k n (some (k', a, v)) h p =
          set_node-All i (merge_node us (suc k')) (set_node a (emptied (n.node a)) n)
            (set_node-All a (emptied (n.node a)) n h (closed.empty a (n.node a) (h a))) (p (suc k'))

      get_storage-All :
          (i : ℕ) (x : Node V) (n : Net V) → All n → P i x → AllAfter (get_storage i x n)
      get_storage-All i (adapt_node []) n h p = h
      get_storage-All i (adapt_node (x ∷ xs)) n h p =
          set_node-All i (adapt_node xs) n h (closed.adapt i x xs p)
      get_storage-All i (buffer_node c [] m) n h p = tt
      get_storage-All i (buffer_node c (x ∷ xs) m) n h p =
          set_node-All i (buffer_node c xs m) n h (closed.buffer i c x xs m p)
      get_storage-All i (immediate_node v r) n h p =
          all_if (ltb 0 (queued_of n (immediate_node v r)))
            (set_node i (immediate_node v ((r + 1) % 2 ^ 8)) n) n
            (set_node-All i (immediate_node v ((r + 1) % 2 ^ 8)) n h
              (closed.immediate i v r ((r + 1) % 2 ^ 8) p))
            h
        where
          all_if : (b : Bool) (m m' : Net V) → All m → All m' → All (if b then m else m')
          all_if true m m' a a' = a
          all_if false m m' a a' = a'
      get_storage-All i (sink_node c s) n h p = h
      get_storage-All i (merge_node us k) n h p =
          merged-All i us (min (length us) k) n (scan_both n.node us (min (length us) k)) h
            (λ k'. closed.merge i us k k' p)
      get_storage-All i (appendage c m v) n h p = tt
      get_storage-All i destroyed_node n h p = tt

      after_if :
          (b : Bool) (m m' : Option (ErrorOr V × Net V))
          → AllAfter m
          → AllAfter m'
          → AllAfter (if b then m else m')
      after_if true m m' a a' = a
      after_if false m m' a a' = a'

      after_map :
          (m : Option (ErrorOr V × Net V)) (f : ErrorOr V → ErrorOr V)
          → AllAfter m
          → AllAfter (m >>= λ r. some (f r.0, r.1))
      after_map none f a = tt
      after_map (some r) f a = a

      -- A property that each node loses by no single step is kept by `getResult`.
      pub get_result-All : (p : Pipe V) (n : Net V) → All n → AllAfter (get_result p n)
      get_result-All null_node n h = tt
      get_result-All (storage_node i) n h = get_storage-All i (n.node i) n h (h i)
      get_result-All (convert_node f g p) n h =
          after_if (has_node p) (get_result p n >>= λ r. some (converted f g r.0, r.1)) _
            (after_map (get_result p n) (converted f g) (get_result-All p n h)) h
      get_result-All (attach_node p) n h =
          after_if (has_node p) (get_result p n) _ (get_result-All p n h) h

  emptied-P :
      (Q : Node V → Type 0)
      → ((c : Pipe V) (m : ℕ) → Q (appendage c m none))
      → (x : Node V) → Q x
      → Q (emptied x)
  emptied-P Q f (appendage c m v) q = f c m
  emptied-P Q f (adapt_node xs) q = q
  emptied-P Q f (buffer_node c xs m) q = q
  emptied-P Q f (immediate_node v r) q = q
  emptied-P Q f (sink_node c s) q = q
  emptied-P Q f (merge_node us k) q = q
  emptied-P Q f destroyed_node q = q

  -- In bounds, and the node `i` has room.
  abbrev pub WithRoom : ℕ → ℕ → Node V → Type 0
  WithRoom i j x = InBounds x × (j ≡ i → HasRoom x)

  pub WithRoom-IsClosed : (i : ℕ) → IsClosed (WithRoom i)
  WithRoom-IsClosed i = record {
    adapt = λ j x xs h. (tt, λ e. tt);
    buffer = λ j c x xs m h. (omega (arith, h.0), λ e. let k = h.1 e in omega arith);
    immediate = λ j v r r' h. (tt, λ e. tt);
    merge = λ j us k k' h. (tt, λ e. tt);
    empty = λ j x h. emptied-P (λ y. InBounds y × (j ≡ i → HasRoom y)) (λ c m. (tt, λ e. tt)) x h;
  }

  pub InBounds-IsClosed : IsClosed (λ j x. InBounds x)
  InBounds-IsClosed = record {
    adapt = λ j x xs h. tt;
    buffer = λ j c x xs m h. omega (arith, h);
    immediate = λ j v r r' h. tt;
    merge = λ j us k k' h. tt;
    empty = λ j x h. emptied-P InBounds (λ c m. tt) x h;
  }
