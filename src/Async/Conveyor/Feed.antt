-- ===== src/Async/Conveyor/Feed.antt =====
-- What is fed into a conveyor comes out of it.
use forstio.Prelude.{
  ℕ, zero, suc, ◌≡◌, refl, sym, ap, ◌∙◌, true, Option, some, List, [], ◌∷◌, ◌++◌, length,
  append_assoc, append-nil, ltb, if◌then◌else◌, ◌>>=◌, arith,
}
use forstio.Error.{ErrorOr, error, make_error, recoverable_error, exhausted}
use forstio.Async.Event.{update}
use forstio.Async.Event.Link.{update_at}
use forstio.Async.Event.Arm.{arm_next_returns}
use forstio.Async.Conveyor.{
  Pipe, storage_node, adapt_node, immediate_node, Net, set_node, queued_of,
}
use forstio.Async.Conveyor.Fetch.{get_storage, get_result}
use forstio.Async.Conveyor.Build.{Conveyor, take_element, feed, feed_node, immediate}
use forstio.Async.Conveyor.Pure.{apply, end_of, get_result-apply}

-- The branch of `take` that is for elements.
pub when_queued : {A : Type 0} (m : ℕ) (a b : A) → (if ltb 0 (suc m) then a else b) ≡ a
when_queued m a b = ground arith

module _ {V : Type 0} where
  abbrev pub feed_all : List (ErrorOr V) → ℕ → Net V → Option (Net V)
  feed_all [] i n = some n
  feed_all (v ∷ vs) i n = feed v i n >>= λ m. feed_all vs i m

  abbrev pub take_all : ℕ → Conveyor V → Net V → Option (List (ErrorOr V) × Net V)
  take_all zero c n = some ([], n)
  take_all (suc k) c n = take_element c n >>= λ r. take_all k c r.1 >>= λ s. some (r.0 ∷ s.0, s.1)

  abbrev pub apply_all : Pipe V → List (ErrorOr V) → List (ErrorOr V)
  apply_all p [] = []
  apply_all p (v ∷ vs) = apply p v ∷ apply_all p vs

  -- `run` has left a network with the elements `xs` in the storage `i`, in an entered loop.
  record Stores (run : Option (Net V)) (i : ℕ) (xs : List (ErrorOr V)) : Type 0 where
    net : Net V
    returned : run ≡ some net
    node_lem : net.node i ≡ adapt_node xs
    inside : net.loop.entered ≡ true

  feed-Stores :
      (v : ErrorOr V) (i : ℕ) (n : Net V) (xs : List (ErrorOr V))
      → n.node i ≡ adapt_node xs
      → n.loop.entered ≡ true
      → Stores (feed v i n) i (xs ++ v ∷ [])
  unfolding feed
  feed-Stores v i n xs p inside =
      let a = arm_next_returns i n.loop inside in
      let x = adapt_node (xs ++ v ∷ []) in
      record {
        net = record n { node = update n.node i x; loop = a.0 };
        returned =
            ap (λ y. feed_node v i y n) p
            ∙ ap (λ m. m >>= λ l. some (record n { node = update n.node i x; loop = l })) a.1;
        node_lem = update_at n.node i x;
        inside = a.2;
      }

  feed_all-Stores :
      (vs : List (ErrorOr V)) (i : ℕ) (n : Net V) (xs : List (ErrorOr V))
      → n.node i ≡ adapt_node xs
      → n.loop.entered ≡ true
      → Stores (feed_all vs i n) i (xs ++ vs)
  feed_all-Stores [] i n xs p inside = record {
    net = n;
    returned = refl;
    node_lem = p ∙ ap adapt_node (sym (append-nil xs));
    inside = inside;
  }
  feed_all-Stores (v ∷ vs) i n xs p inside =
      let s = feed-Stores v i n xs p inside in
      let t = feed_all-Stores vs i s.net (xs ++ v ∷ []) s.node_lem s.inside in
      record {
        net = t.net;
        returned = ap (λ m. m >>= λ m'. feed_all vs i m') s.returned ∙ t.returned;
        node_lem = t.node_lem ∙ ap adapt_node (append_assoc xs (v ∷ []) vs);
        inside = t.inside;
      }

  module _ (p : Pipe V) (i : ℕ) (e : end_of p ≡ some i) where
    abbrev conveyor : Conveyor V
    conveyor = record { node = p; storage = some i }

    take_stored :
        (x : ErrorOr V) (xs : List (ErrorOr V)) (n : Net V)
        → n.node i ≡ adapt_node (x ∷ xs)
        → take_element conveyor n ≡ some (apply p x, set_node i (adapt_node xs) n)
    unfolding take_element
    take_stored x xs n q =
        let none_left = some (error (recoverable_error "Conveyor buffer has no elements"), n) in
        ap (λ y. if ltb 0 (queued_of n y) then get_result p n else none_left) q
        ∙ when_queued (length xs) (get_result p n) none_left
        ∙ get_result-apply p i n e
        ∙ ap (λ y. get_storage i y n >>= λ r. some (apply p r.0, r.1)) q

    -- `run` has returned the elements `xs`, and the storage `i` has none left.
    record Returns (run : Option (List (ErrorOr V) × Net V)) (xs : List (ErrorOr V)) : Type 0 where
      net : Net V
      returned : run ≡ some (xs, net)
      left : net.node i ≡ adapt_node []

    take_all_stored :
        (xs : List (ErrorOr V)) (n : Net V)
        → n.node i ≡ adapt_node xs
        → Returns (take_all (length xs) conveyor n) (apply_all p xs)
    take_all_stored [] n q = record { net = n; returned = refl; left = q }
    take_all_stored (x ∷ xs) n q =
        let r =
          take_all_stored xs (set_node i (adapt_node xs) n) (update_at n.node i (adapt_node xs)) in
        record {
          net = r.net;
          returned =
              ap (λ m. m >>= λ s. take_all (length xs) conveyor s.1 >>= λ t. some (s.0 ∷ t.0, t.1))
                (take_stored x xs n q)
              ∙ ap (λ m. m >>= λ t. some (apply p x ∷ t.0, t.1)) r.returned;
          left = r.left;
        }

    -- In an entered loop, the values and errors that are fed into an empty conveyor are taken out of
    -- it in their order, each with the functions of the chain applied.
    pub take_all-feed_all :
        (vs : List (ErrorOr V)) (n : Net V)
        → n.node i ≡ adapt_node []
        → n.loop.entered ≡ true
        → (feed_all vs i n >>= λ m.
            take_all (length vs) (record { node = p; storage = some i }) m >>= λ r. some r.0)
          ≡ some (apply_all p vs)
    take_all-feed_all vs n q inside =
        let s = feed_all-Stores vs i n [] q inside in
        let r = take_all_stored vs s.net s.node_lem in
        ap (λ m. m >>= λ k. take_all (length vs) conveyor k >>= λ t. some t.0) s.returned
        ∙ ap (λ m. m >>= λ t. some t.0) r.returned

  -- `take` of a conveyor whose storage is the immediate node `i`.
  take_immediate :
      (i : ℕ) (v : ErrorOr V) (r : ℕ) (n : Net V)
      → n.node i ≡ immediate_node v r
      → take_element (record { node = storage_node i; storage = some i }) n ≡ (
          if ltb 0 (queued_of n (immediate_node v r))
          then get_storage i (immediate_node v r) n
          else some (error (recoverable_error "Conveyor buffer has no elements"), n))
  unfolding take_element
  take_immediate i v r n q =
      ap
        (λ y.
          if ltb 0 (queued_of n y)
          then get_storage i y n
          else some (error (recoverable_error "Conveyor buffer has no elements"), n))
        q

  -- A new `Conveyor` of a value or an error yields that first, then an error that it is exhausted, then
  -- that it has no elements.
  pub take_all-immediate :
      (v : ErrorOr V) (n : Net V)
      → (take_all 3 (immediate v n).0 (immediate v n).1 >>= λ s. some s.0)
        ≡ some (
            v
            ∷ error (make_error "Already taken value" exhausted)
            ∷ error (recoverable_error "Conveyor buffer has no elements")
            ∷ [])
  unfolding immediate
  take_all-immediate v n =
      let i = n.fresh in
      let m = (immediate v n).1 in
      let m₁ = set_node i (immediate_node v 1) m in
      let m₂ = set_node i (immediate_node v 2) m₁ in
      rw
        (
          take_immediate i v 0 m (update_at n.node i (immediate_node v 0)),
          take_immediate i v 1 m₁ (update_at m.node i (immediate_node v 1)),
          take_immediate i v 2 m₂ (update_at m₁.node i (immediate_node v 2)),
        )
        refl
