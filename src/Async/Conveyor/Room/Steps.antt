-- ===== src/Async/Conveyor/Room/Steps.antt =====
-- No buffer holds more elements than it has room for: what `childHasFired` does.
use mathlib.Core.Path.{subst}
use forstio.Prelude.{
  ℕ, ◌<◌, ◌≡◌, refl, sym, Bool, true, false, not, ◌&&◌, Option, none, some, [], ◌∷◌, length, ltb,
  if◌then◌else◌, ◌>>=◌, ◌>>◌, assert, arith,
}
use forstio.Prelude.Laws.{length-append}
use forstio.Error.{ErrorOr}
use forstio.Async.Event.{EventLoop, arm_later, arm_last, is_armed}
use forstio.Async.Conveyor.{
  Node, adapt_node, buffer_node, immediate_node, sink_node, merge_node, appendage, destroyed_node,
  Net, set_node, set_child_storage, has_node, has_critical, has_value,
}
use forstio.Async.Conveyor.Fetch.{get_result}
use forstio.Async.Conveyor.Fire.{
  arm_later_in, arm_last_in, pushed, buffered, sunk, appended, child_fired, child_has_fired,
}
use forstio.Async.Conveyor.Room.{
  InBounds, HasRoom, IsBounded, All, AllAfter, WithRoom, set_node-All, get_result-All,
  WithRoom-IsClosed, InBounds-IsClosed,
}

room_of : (b : Bool) (k m : ℕ) → (b && ltb k m) ≡ true → k < m
room_of b k m e = ground arith

module _ {V : Type 0} where
  -- A step that returns has left all buffers within their bounds.
  abbrev pub Safe : Option (Net V) → Type 0
  Safe none = Unit {0}
  Safe (some n) = IsBounded n

  pub set_node-IsBounded :
      (i : ℕ) (x : Node V) (n : Net V) → IsBounded n → InBounds x → IsBounded (set_node i x n)
  set_node-IsBounded i x n h p = set_node-All (λ j y. InBounds y) i x n h p

  pub Safe-if : (b : Bool) (m m' : Option (Net V)) → Safe m → Safe m' → Safe (if b then m else m')
  Safe-if true m m' a a' = a
  Safe-if false m m' a a' = a'

  pub IsBounded-if :
      (b : Bool) (n n' : Net V) → IsBounded n → IsBounded n' → IsBounded (if b then n else n')
  IsBounded-if true n n' h h' = h
  IsBounded-if false n n' h h' = h'

  pub Safe-assert : (b : Bool) (m : Option (Net V)) → Safe m → Safe (assert b >> m)
  Safe-assert true m a = a
  Safe-assert false m a = tt

  pub Safe-loop :
      (m : Option EventLoop) (n : Net V)
      → IsBounded n
      → Safe (m >>= λ l. some (record n { loop = l }))
  Safe-loop none n h = tt
  Safe-loop (some l) n h = h

  pub Safe-then :
      (m : Option (Net V)) (f : Net V → Option (Net V))
      → Safe m
      → ((n : Net V) → IsBounded n → Safe (f n))
      → Safe (m >>= f)
  Safe-then none f a g = tt
  Safe-then (some n) f a g = g n a

  pub Safe-result :
      (P : ℕ → Node V → Type 0) (m : Option (ErrorOr V × Net V))
      (f : ErrorOr V × Net V → Option (Net V))
      → AllAfter P m
      → ((r : ErrorOr V × Net V) → All P r.1 → Safe (f r))
      → Safe (m >>= f)
  Safe-result P none f a g = tt
  Safe-result P (some r) f a g = g r a

  pub pushed-InBounds : (v : ErrorOr V) (x : Node V) → HasRoom x → InBounds (pushed v x)
  pushed-InBounds v (buffer_node c xs m) h = omega (arith, length-append xs (v ∷ []), h)
  pushed-InBounds v (adapt_node xs) h = tt
  pushed-InBounds v (immediate_node u r) h = tt
  pushed-InBounds v (sink_node c s) h = tt
  pushed-InBounds v (merge_node us k) h = tt
  pushed-InBounds v (appendage c m u) h = tt
  pushed-InBounds v destroyed_node h = tt

  pub All-if :
      (P : ℕ → Node V → Type 0) (b : Bool) (n n' : Net V)
      → All P n
      → All P n'
      → All P (if b then n else n')
  All-if P true n n' h h' = h
  All-if P false n n' h h' = h'

  pub buffered-Safe :
      (i : ℕ) (v : ErrorOr V) (n : Net V) → All (WithRoom i) n → Safe (buffered i v n)
  buffered-Safe i v n h =
      let n₁ = if has_critical v then set_child_storage i none n else n in
      let h₁ = All-if (WithRoom i) (has_critical v) (set_child_storage i none n) n h h in
      let n₂ = set_node i (pushed v (n₁.node i)) n₁ in
      let h₂ =
        set_node-IsBounded i (pushed v (n₁.node i)) n₁ (λ j. (h₁ j).0)
          (pushed-InBounds v (n₁.node i) ((h₁ i).1 refl)) in
      Safe-if (is_armed i n₂.loop) (some n₂) (arm_later_in i n₂) h₂
        (Safe-loop (arm_later i n₂.loop) n₂ h₂)

  pub sunk-Safe : (i : ℕ) (v : ErrorOr V) (n : Net V) → IsBounded n → Safe (sunk i v n)
  sunk-Safe i v n h =
      Safe-if (has_critical v && not (is_armed i n.loop)) (arm_last_in i n) (some n)
        (Safe-loop (arm_last i n.loop) n h) h

  pub appended-Safe :
      (i m : ℕ) (v : ErrorOr V) (n : Net V) → All (WithRoom i) n → Safe (appended i m v n)
  appended-Safe i m v n h =
      let n₁ = set_node i (pushed v (n.node i)) n in
      let h₁ =
        set_node-IsBounded i (pushed v (n.node i)) n (λ j. (h j).0)
          (pushed-InBounds v (n.node i) ((h i).1 refl)) in
      Safe-if (is_armed m n₁.loop) (some n₁) (arm_later_in m n₁) h₁
        (Safe-loop (arm_later m n₁.loop) n₁ h₁)

  pub Safe-guarded :
      (b : Bool) (m : Option (Net V)) (n : Net V)
      → IsBounded n
      → (b ≡ true → Safe m)
      → Safe (if b then m else some n)
  Safe-guarded true m n h f = f refl
  Safe-guarded false m n h f = h

  pub with_room : (i : ℕ) (n : Net V) → IsBounded n → HasRoom (n.node i) → All (WithRoom i) n
  with_room i n h r j = (h j, λ e. subst (λ k. HasRoom (n.node k)) (sym e) r)

  pub child_fired-Safe :
      (i : ℕ) (x : Node V) (n : Net V) → n.node i ≡ x → IsBounded n → Safe (child_fired i x n)
  child_fired-Safe i (adapt_node xs) n q h = tt
  child_fired-Safe i (buffer_node c xs m) n q h =
      Safe-guarded (has_node c && ltb (length xs) m) (get_result c n >>= λ r. buffered i r.0 r.1) n
        h
        (λ e.
          Safe-result (WithRoom i) (get_result c n) (λ r. buffered i r.0 r.1)
            (get_result-All (WithRoom i) (WithRoom-IsClosed i) c n
              (with_room i n h (subst HasRoom (sym q) (room_of (has_node c) (length xs) m e))))
            (λ r k. buffered-Safe i r.0 r.1 k))
  child_fired-Safe i (immediate_node v r) n q h = tt
  child_fired-Safe i (sink_node c s) n q h =
      Safe-guarded (has_node c) (get_result c n >>= λ r. sunk i r.0 r.1) n h (λ e.
        Safe-result (λ j x. InBounds x) (get_result c n) (λ r. sunk i r.0 r.1)
          (get_result-All (λ j x. InBounds x) InBounds-IsClosed c n h)
          (λ r k. sunk-Safe i r.0 r.1 k))
  child_fired-Safe i (merge_node us k) n q h = tt
  child_fired-Safe i (appendage c m v) n q h =
      Safe-assert (not (has_value v)) (get_result c n >>= λ r. appended i m r.0 r.1) (
        Safe-result (WithRoom i) (get_result c n) (λ r. appended i m r.0 r.1)
          (get_result-All (WithRoom i) (WithRoom-IsClosed i) c n
            (with_room i n h (subst HasRoom (sym q) tt)))
          (λ r k. appended-Safe i m r.0 r.1 k))
  child_fired-Safe i destroyed_node n q h = tt

  pub child_has_fired-Safe : (i : ℕ) (n : Net V) → IsBounded n → Safe (child_has_fired i n)
  unfolding child_has_fired
  child_has_fired-Safe i n h = child_fired-Safe i (n.node i) n refl h
