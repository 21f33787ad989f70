-- ===== src/Async/Conveyor/Move.antt =====
-- What an adapt node does for a buffer when it fires.
use mathlib.Core.Path.{subst}
use forstio.Prelude.{
  ℕ, ◌≤◌, ◌<◌, ◌≡◌, ◌≢◌, refl, sym, ap, ◌∙◌, Bool, true, false, ◌&&◌, Option, none, some, List, [],
  ◌∷◌, ◌++◌, length, ltb, if◌then◌else◌, ◌>>=◌, arith,
}
use forstio.Error.{ErrorOr}
use forstio.Async.Event.{is_armed, update}
use forstio.Async.Event.Link.{update-ne}
use forstio.Async.Event.Arm.{arm_later_returns}
use forstio.Async.Conveyor.{
  Pipe, Node, adapt_node, buffer_node, Net, set_node, set_child_storage, has_node, has_critical,
  queued, queued_of,
}
use forstio.Async.Conveyor.Fetch.{get_storage, get_result}
use forstio.Async.Conveyor.Fire.{
  arm_later_in, pushed, buffered, child_fired, child_has_fired, serve_parent, fire_node, fire,
}
use forstio.Async.Conveyor.Feed.{when_queued}
use forstio.Async.Conveyor.Pure.{apply, end_of, end_of-has_node, get_result-apply}

closed_guard : (b : Bool) (k m : ℕ) → m ≤ k → (b && ltb k m) ≡ false
closed_guard b k m h = ground arith

open_guard : (b : Bool) (k m : ℕ) → b ≡ true → k < m → (b && ltb k m) ≡ true
open_guard b k m p h = ground arith

module _ {V : Type 0} where
  -- `run` has left a network with the nodes `nodes`, in an entered loop.
  pub record Reaches (run : Option (Net V)) (nodes : ℕ → Node V) : Type 0 where
    pub net : Net V
    pub returned : run ≡ some net
    pub nodes_lem : net.node ≡ nodes
    pub inside : net.loop.entered ≡ true

  arm_later_in-Reaches :
      (i : ℕ) (n : Net V) → n.loop.entered ≡ true → Reaches (arm_later_in i n) n.node
  arm_later_in-Reaches i n h =
      let a = arm_later_returns i n.loop h in
      record {
        net = record n { loop = a.0 };
        returned = ap (λ m. m >>= λ l. some (record n { loop = l })) a.1;
        nodes_lem = refl;
        inside = a.2;
      }

  stays-Reaches : (n : Net V) → n.loop.entered ≡ true → Reaches (some n) n.node
  stays-Reaches n h = record { net = n; returned = refl; nodes_lem = refl; inside = h }

  if-Reaches :
      (g : Bool) (r s : Option (Net V)) (nodes : ℕ → Node V)
      → Reaches r nodes
      → Reaches s nodes
      → Reaches (if g then r else s) nodes
  if-Reaches true r s nodes p q = p
  if-Reaches false r s nodes p q = q

  then-Reaches :
      (r : Option (Net V)) (f : Net V → Option (Net V)) (nodes nodes' : ℕ → Node V)
      → Reaches r nodes
      → ((n : Net V) → n.node ≡ nodes → n.loop.entered ≡ true → Reaches (f n) nodes')
      → Reaches (r >>= f) nodes'
  then-Reaches r f nodes nodes' p g =
      let q = g p.net p.nodes_lem p.inside in
      record {
        net = q.net;
        returned = ap (λ m. m >>= f) p.returned ∙ q.returned;
        nodes_lem = q.nodes_lem;
        inside = q.inside;
      }

  pushed_in :
      (b : ℕ) (v : ErrorOr V) (n : Net V) (y : Node V)
      → n.node b ≡ y
      → n.loop.entered ≡ true
      → let n₂ = set_node b (pushed v (n.node b)) n in
        Reaches
          (if is_armed b n₂.loop then some n₂ else arm_later_in b n₂)
          (update n.node b (pushed v y))
  pushed_in b v n y p h =
      let n₂ = set_node b (pushed v (n.node b)) n in
      subst
        (λ z.
          Reaches (if is_armed b n₂.loop then some n₂ else arm_later_in b n₂)
            (update n.node b (pushed v z)))
        p
        (if-Reaches (is_armed b n₂.loop) (some n₂) (arm_later_in b n₂) n₂.node (stays-Reaches n₂ h)
          (arm_later_in-Reaches b n₂ h))

  buffered_in :
      (g : Bool) (b : ℕ) (v : ErrorOr V) (n : Net V) (y : Node V)
      → n.node b ≡ y
      → n.loop.entered ≡ true
      → let n₁ = if g then set_child_storage b none n else n in
        let n₂ = set_node b (pushed v (n₁.node b)) n₁ in
        Reaches
          (if is_armed b n₂.loop then some n₂ else arm_later_in b n₂)
          (update n.node b (pushed v y))
  buffered_in true b v n y p h = pushed_in b v (set_child_storage b none n) y p h
  buffered_in false b v n y p h = pushed_in b v n y p h

  module _ (n : Net V) (a b : ℕ) (c : Pipe V) (x : ErrorOr V) (xs ys : List (ErrorOr V)) (m : ℕ)
      (source : n.node a ≡ adapt_node (x ∷ xs)) (target : n.node b ≡ buffer_node c ys m)
      (above : n.parent a ≡ some b) where
    asked :
        (g : Bool)
        → (has_node c && ltb (length ys) m) ≡ g
        → child_has_fired b n ≡ (if g then (get_result c n >>= λ r. buffered b r.0 r.1) else some n)
    unfolding child_has_fired
    asked g p =
        ap (λ y. child_fired b y n) target
        ∙ ap (λ k. if k then (get_result c n >>= λ r. buffered b r.0 r.1) else some n) p

    served :
        fire a n
        ≡ (child_has_fired b n >>= λ k. if ltb 0 (queued a k) then arm_later_in a k else some k)
    unfolding fire
    served =
        ap (λ y. fire_node a y n) source
        ∙ ap (λ p. serve_parent (λ q k. ltb 0 (queued a k)) arm_later_in a p n) above

    -- An adapt node that holds an element and fires below a full buffer does nothing but arm its
    -- event again.
    pub fire-full : m ≤ length ys → fire a n ≡ arm_later_in a n
    fire-full h =
        served
        ∙ ap (λ r. r >>= λ k. if ltb 0 (queued a k) then arm_later_in a k else some k)
            (asked false (closed_guard (has_node c) (length ys) m h))
        ∙ ap (λ y. if ltb 0 (queued_of n y) then arm_later_in a n else some n) source
        ∙ when_queued (length xs) (arm_later_in a n) (some n)

    -- In an entered loop, an adapt node that fires below a buffer with room, whose chain ends in
    -- the node, moves its first element through the chain to the end of the buffer, and touches no
    -- other node.
    pub fire-moves :
        length ys < m
        → a ≢ b
        → end_of c ≡ some a
        → n.loop.entered ≡ true
        → Reaches
            (fire a n)
            (update (update n.node a (adapt_node xs)) b (buffer_node c (ys ++ apply c x ∷ []) m))
    fire-moves h ne e inside =
        let n₁ = set_node a (adapt_node xs) n in
        let v = apply c x in
        let got =
          get_result-apply c a n e
          ∙ ap (λ y. get_storage a y n >>= λ r. some (apply c r.0, r.1)) source in
        let p =
          asked true (open_guard (has_node c) (length ys) m (end_of-has_node c a e) h)
          ∙ ap (λ r. r >>= λ k. buffered b k.0 k.1) got in
        let stay =
          buffered_in (has_critical v) b v n₁ (buffer_node c ys m)
            (update-ne n.node a (adapt_node xs) b (λ q. ne (sym q)) ∙ target) inside in
        let nodes = update n₁.node b (buffer_node c (ys ++ v ∷ []) m) in
        subst (λ r. Reaches r nodes)
          (sym (
            served
            ∙ ap (λ r. r >>= λ k. if ltb 0 (queued a k) then arm_later_in a k else some k) p))
          (then-Reaches (buffered b v n₁)
            (λ k. if ltb 0 (queued a k) then arm_later_in a k else some k) nodes nodes stay
            (λ k q i.
              subst (λ z. Reaches (if ltb 0 (queued a k) then arm_later_in a k else some k) z) q
                (if-Reaches (ltb 0 (queued a k)) (arm_later_in a k) (some k) k.node
                  (arm_later_in-Reaches a k i) (stays-Reaches k i))))
