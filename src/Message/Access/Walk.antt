-- ===== src/Message/Access/Walk.antt =====
-- Setting a number through a chain of builders, and reading it back through a chain of readers:
-- `init` and `get` of every kind of message on the way, with the `get<i>` of a union, which throws away
-- what a union holds of another alternative.
use forstio.Prelude.{
  ℕ, ◌<◌, ◌≡◌, refl, sym, ap, ◌∙◌, Bool, true, false, Option, none, some, List, [], ◌∷◌, suc, zero,
  inl, inr, length, ltb, ◌==◌, if◌then◌else◌, ◌>>=◌, bind_some, some-injective, get_elem?, arith,
  lt→ltb,
}
use forstio.Stream.Defs.{Width}
use forstio.Message.Schema.{Schema, Number, primitive, Choices}
use forstio.Message.Value.{Message, Alternatives, index, fresh}
use forstio.Message.Keys.{InUnion, only, position}
use forstio.Message.Access.{
  get_member, get_item, get_held, select, Place, root, of_struct, of_tuple, of_union, of_array,
  load, union_get, array_get, set_primitive, get_primitive,
}
use forstio.Message.Access.Laws.{load-store, store-load}
use forstio.Message.Access.Union.{union_get-Selected}

-- What the calls of `init` and `get` from the root down to a place do to the message. Those of a struct and
-- of a tuple only take a reference.
unfoldable pub walk : {r s : Schema} → Place r s → Message r → Option (Message r)
walk root x = some x
walk (of_struct p i) x = walk p x
walk (of_tuple p i) x = walk p x
walk (of_union p i) x = walk p x >>= λ x₁. union_get p i x₁ >>= λ q. some q.1
walk (of_array p k) x = walk p x >>= λ x₁. array_get p k x₁ >>= λ q. some x₁

-- `set` at the end of a chain of builders.
unfoldable pub build_number :
    {r : Schema} {t : Number} {w : Width}
    → Place r (primitive t w)
    → ℕ
    → Message r
    → Option (Message r)
build_number p v x = do x₁ ← walk p x; set_primitive p v x₁

-- `get` at the end of a chain of readers, and the message behind it.
unfoldable pub read_number :
    {r : Schema} {t : Number} {w : Width}
    → Place r (primitive t w)
    → Message r
    → Option (ℕ × Message r)
read_number p x = do x₁ ← walk p x; v ← get_primitive p x₁; some (v, x₁)

-- A union holds the alternative that can be got from it.
get_held-index :
    {cs : Choices} {s : Schema} (i : InUnion cs s) (a : Alternatives cs) (m : Message s)
    → get_held i a ≡ some m
    → index cs a ≡ position i
unfolding get_held index position
get_held-index only a m e = refl
get_held-index InUnion.first (inl a) m e = refl
get_held-index InUnion.first (inr a) m e = absurd cc
get_held-index (InUnion.next i) (inl a) m e = absurd cc
get_held-index (InUnion.next i) (inr a) m e = ap suc (get_held-index i a m e)

index-get_held :
    {cs : Choices} {s : Schema} (i : InUnion cs s) (a : Alternatives cs)
    → index cs a ≡ position i
    → (m : Message s) × (get_held i a ≡ some m)
unfolding get_held index position
index-get_held only a e = (a, refl)
index-get_held InUnion.first (inl a) e = (a, refl)
index-get_held InUnion.first (inr a) e = absurd (omega (arith, e))
index-get_held (InUnion.next i) (inl a) e = absurd (omega (arith, e))
index-get_held (InUnion.next i) (inr a) e = index-get_held i a (omega (arith, e))

get_elem?-lt : {A : Type 0} (xs : List A) (k : ℕ) (a : A) → get_elem? xs k ≡ some a → k < length xs
get_elem?-lt [] k a e = absurd cc
get_elem?-lt (x ∷ xs) zero a e = omega arith
get_elem?-lt (x ∷ xs) (suc k) a e = omega (arith, get_elem?-lt xs k a e)

lt-get_elem? :
    {A : Type 0} (xs : List A) (k : ℕ) → k < length xs → (a : A) × (get_elem? xs k ≡ some a)
lt-get_elem? [] k h = absurd (omega arith)
lt-get_elem? (x ∷ xs) zero h = (x, refl)
lt-get_elem? (x ∷ xs) (suc k) h = lt-get_elem? xs k (omega arith)

same_index : (i j : ℕ) → i ≡ j → (i == j) ≡ true
same_index i j e = ground arith

-- What the alternative is that stands there already changes nothing.
select-held :
    {cs : Choices} {s : Schema} (i : InUnion cs s) (a : Alternatives cs) (m : Message s)
    → get_held i a ≡ some m
    → select i a ≡ a
unfolding select
select-held {cs} i a m e = rw (same_index (index cs a) (position i) (get_held-index i a m e)) refl

-- Where a place can be reached without a change, the calls down to it change nothing.
load-walk :
    {r s : Schema} (p : Place r s) (x : Message r) (m : Message s)
    → load p x ≡ some m
    → walk p x ≡ some x
unfolding load walk union_get array_get
load-walk root x m e = refl
load-walk (of_struct p i) x m e =
    let l = bind_some (load p x) (λ c. some (get_member i c)) m e in load-walk p x l.0 l.1
load-walk (of_tuple p i) x m e =
    let l = bind_some (load p x) (λ c. some (get_item i c)) m e in load-walk p x l.0 l.1
load-walk (of_union p i) x m e =
    let l = bind_some (load p x) (get_held i) m e in
    rw (load-walk p x l.0 l.1, l.1, select-held i l.0 m l.2, store-load p x l.0 l.1) refl
load-walk (of_array p k) x m e =
    let l = bind_some (load p x) (λ c. get_elem? c k) m e in
    rw (load-walk p x l.0 l.1, l.1, lt→ltb k (length l.0) (get_elem?-lt l.0 k m l.2)) refl

-- What the alternative that `get<i>` has selected holds.
selected_held :
    {cs : Choices} {s : Schema} (i : InUnion cs s) (a : Alternatives cs) (same : Bool)
    → (same ≡ true → index cs a ≡ position i)
    → (m : Message s) × ((if same then get_held i a else some (fresh s)) ≡ some m)
selected_held i a true h = index-get_held i a (h refl)
selected_held {s = s} i a false h = (fresh s, refl)

index_of : (i j : ℕ) → (i == j) ≡ true → i ≡ j
index_of i j e = ground arith

-- An index that passes the test of `at`.
within :
    {A B : Type 0} (k n : ℕ) (q : A) (y z : B)
    → ((if ltb k n then some q else none) >>= λ c. some y) ≡ some z
    → (k < n) × (y ≡ z)
within k n q y z e = (ground (arith, e), ground (arith, e))

-- Where the calls down to a place throw no exception, the place is there behind them.
walk-load :
    {r s : Schema} (p : Place r s) (x x₁ : Message r)
    → walk p x ≡ some x₁
    → (m : Message s) × (load p x₁ ≡ some m)
unfolding walk load array_get
walk-load root x x₁ e = (x₁, refl)
walk-load (of_struct p i) x x₁ e = let l = walk-load p x x₁ e in (get_member i l.0, rw l.1 refl)
walk-load (of_tuple p i) x x₁ e = let l = walk-load p x x₁ e in (get_item i l.0, rw l.1 refl)
walk-load {r} (of_union {cs} {s} p i) x x₁ e =
    let k = bind_some (walk p x) (λ y. union_get p i y >>= λ q. some q.1) x₁ e in
    let u = bind_some (union_get p i k.0) (λ q. some q.1) x₁ k.2 in
    let l = walk-load p x k.0 k.1 in
    let sel = union_get-Selected p i k.0 l.0 l.1 in
    let there : sel.after ≡ x₁ =
      ap (λ (q : Place r s × Message r). q.1) (some-injective (sym sel.returned ∙ u.1))
      ∙ some-injective u.2 in
    let m =
      selected_held i l.0 (index cs l.0 == position i) (index_of (index cs l.0) (position i)) in
    (m.0, ap (load (of_union p i)) (sym there) ∙ sel.found ∙ m.1)
walk-load (of_array p k) x x₁ e =
    let w = bind_some (walk p x) (λ y. array_get p k y >>= λ q. some y) x₁ e in
    let l = walk-load p x w.0 w.1 in
    let found =
      ap
        (λ o. (o >>= λ a. if ltb k (length a) then some (of_array p k) else none) >>= λ q. some w.0)
        (sym l.1)
      ∙ w.2 in
    let h = within k (length l.0) (of_array p k) w.0 x₁ found in
    let m = lt-get_elem? l.0 k h.0 in
    (m.0, ap (load (of_array p k)) (sym h.1) ∙ ap (λ o. o >>= λ a. get_elem? a k) l.1 ∙ m.1)

-- `v` is set, and readers that go the same way from the root get it, and change nothing.
pub record ReadsBack {r : Schema} {t : Number} {w : Width} (p : Place r (primitive t w)) (v : ℕ)
    (run : Option (Message r)) : Type 0 where
  pub after : Message r
  pub built : run ≡ some after
  pub read : read_number p after ≡ some (v, after)

-- Wherever in a message a number stands, under members, items, alternatives and elements of any depth:
-- if the builders on the way throw no exception (every index is within its array), setting the number
-- succeeds, whatever the unions on the way held before. Readers that then go the same way from the root
-- get that number, and leave the message as it is, although the `get` of a union may throw away what it
-- holds.
pub read_number-build_number :
    {r : Schema} {t : Number} {w : Width} (p : Place r (primitive t w)) (v : ℕ) (x x₁ : Message r)
    → walk p x ≡ some x₁
    → ReadsBack p v (build_number p v x)
unfolding build_number read_number set_primitive get_primitive
read_number-build_number p v x x₁ e =
    let m = walk-load p x x₁ e in
    let h = load-store p v x₁ m.0 m.1 in
    record {
      after = h.after;
      built = rw e h.returned;
      read = rw (load-walk p h.after v h.found, h.found) refl;
    }
