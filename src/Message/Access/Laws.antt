-- ===== src/Message/Access/Laws.antt =====
-- What is set is read back, and what selecting an alternative of a union does.
use forstio.Prelude.{
  bind_some, some-injective, ℕ, zero, suc, ◌≡◌, refl, sym, ap, ◌∙◌, Option, some, List, [], ◌∷◌,
  inl, inr, get_elem?, set,
}
use forstio.Message.Schema.{Schema, Schemas, Members, Choices}
use forstio.Message.Value.{Message, Messages, Fields, Alternatives, index}
use forstio.Message.Keys.{InStruct, InUnion, InTuple, only, position}
use forstio.Message.Access.{
  get_member, put_member, get_item, put_item, hold, get_held, Place, root, of_struct, of_tuple,
  of_union, of_array, load, store,
}

get_member-put_member :
    {ts : Members} {s : Schema} (i : InStruct ts s) (m : Message s) (fs : Fields ts)
    → get_member i (put_member i m fs) ≡ m
unfolding get_member put_member
get_member-put_member InStruct.first m fs = refl
get_member-put_member (InStruct.next i) m fs = get_member-put_member i m fs.1

put_member-get_member :
    {ts : Members} {s : Schema} (i : InStruct ts s) (fs : Fields ts)
    → put_member i (get_member i fs) fs ≡ fs
unfolding get_member put_member
put_member-get_member InStruct.first fs = refl
put_member-get_member (InStruct.next i) fs = ap (λ c. (fs.0, c)) (put_member-get_member i fs.1)

get_item-put_item :
    {ts : Schemas} {s : Schema} (i : InTuple ts s) (m : Message s) (ms : Messages ts)
    → get_item i (put_item i m ms) ≡ m
unfolding get_item put_item
get_item-put_item InTuple.first m ms = refl
get_item-put_item (InTuple.next i) m ms = get_item-put_item i m ms.1

put_item-get_item :
    {ts : Schemas} {s : Schema} (i : InTuple ts s) (ms : Messages ts)
    → put_item i (get_item i ms) ms ≡ ms
unfolding get_item put_item
put_item-get_item InTuple.first ms = refl
put_item-get_item (InTuple.next i) ms = ap (λ c. (ms.0, c)) (put_item-get_item i ms.1)

pub get_held-hold :
    {cs : Choices} {s : Schema} (i : InUnion cs s) (m : Message s) → get_held i (hold i m) ≡ some m
unfolding get_held hold
get_held-hold only m = refl
get_held-hold InUnion.first m = refl
get_held-hold (InUnion.next i) m = get_held-hold i m

pub index-hold :
    {cs : Choices} {s : Schema} (i : InUnion cs s) (m : Message s)
    → index cs (hold i m) ≡ position i
unfolding hold index position
index-hold only m = refl
index-hold InUnion.first m = refl
index-hold (InUnion.next i) m = ap suc (index-hold i m)

hold-get_held :
    {cs : Choices} {s : Schema} (i : InUnion cs s) (a : Alternatives cs) (m : Message s)
    → get_held i a ≡ some m
    → hold i m ≡ a
unfolding get_held hold
hold-get_held only a m e = sym (some-injective e)
hold-get_held InUnion.first (inl a) m e = ap inl (sym (some-injective e))
hold-get_held InUnion.first (inr a) m e = absurd cc
hold-get_held (InUnion.next i) (inl a) m e = absurd cc
hold-get_held (InUnion.next i) (inr a) m e = ap inr (hold-get_held i a m e)

get_elem?-set :
    {A : Type 0} (xs : List A) (n : ℕ) (v x : A)
    → get_elem? xs n ≡ some x
    → get_elem? (set xs n v) n ≡ some v
get_elem?-set [] n v x e = absurd cc
get_elem?-set (y ∷ ys) zero v x e = refl
get_elem?-set (y ∷ ys) (suc n) v x e = get_elem?-set ys n v x e

set-get_elem? :
    {A : Type 0} (xs : List A) (n : ℕ) (x : A) → get_elem? xs n ≡ some x → set xs n x ≡ xs
set-get_elem? [] n x e = absurd cc
set-get_elem? (y ∷ ys) zero x e = ap (λ c. c ∷ ys) (sym (some-injective e))
set-get_elem? (y ∷ ys) (suc n) x e = ap (λ (c : List _). y ∷ c) (set-get_elem? ys n x e)

-- `run` has stored `m`, and `m` is what stands there.
pub record StoredAt {r s : Schema} (p : Place r s) (m : Message s) (run : Option (Message r))
    : Type 0 where
  pub after : Message r
  pub returned : run ≡ some after
  pub found : load p after ≡ some m

-- What is set at any place that can be reached, through members, alternatives and elements of any
-- depth, succeeds and is read back there.
pub load-store :
    {r s : Schema} (p : Place r s) (m : Message s) (x : Message r) (a : Message s)
    → load p x ≡ some a
    → StoredAt p m (store p m x)
unfolding load store
load-store root m x a e = record { after = m; returned = refl; found = refl }
load-store (of_struct p i) m x a e =
    let l = bind_some (load p x) (λ c. some (get_member i c)) a e in
    let h = load-store p (put_member i m l.0) x l.0 l.1 in
    record {
      after = h.after;
      returned = rw l.1 h.returned;
      found = rw (h.found, get_member-put_member i m l.0) refl;
    }
load-store (of_tuple p i) m x a e =
    let l = bind_some (load p x) (λ c. some (get_item i c)) a e in
    let h = load-store p (put_item i m l.0) x l.0 l.1 in
    record {
      after = h.after;
      returned = rw l.1 h.returned;
      found = rw (h.found, get_item-put_item i m l.0) refl;
    }
load-store (of_union p i) m x a e =
    let l = bind_some (load p x) (get_held i) a e in
    let h = load-store p (hold i m) x l.0 l.1 in
    record {
      after = h.after;
      returned = rw (l.1, l.2) h.returned;
      found = rw (h.found, get_held-hold i m) refl;
    }
load-store (of_array p n) m x a e =
    let l = bind_some (load p x) (λ c. get_elem? c n) a e in
    let h = load-store p (set l.0 n m) x l.0 l.1 in
    record {
      after = h.after;
      returned = rw (l.1, l.2) h.returned;
      found = rw (h.found, get_elem?-set l.0 n m a l.2) refl;
    }

-- Setting what stands there changes nothing.
pub store-load :
    {r s : Schema} (p : Place r s) (x : Message r) (a : Message s)
    → load p x ≡ some a
    → store p a x ≡ some x
unfolding load store
store-load root x a e = sym e
store-load (of_struct p i) x a e =
    let l = bind_some (load p x) (λ c. some (get_member i c)) a e in
    let same : get_member i l.0 ≡ a = some-injective l.2 in
    rw l.1 (
      ap (λ c. store p (put_member i c l.0) x) (sym same)
      ∙ ap (λ c. store p c x) (put_member-get_member i l.0)
      ∙ store-load p x l.0 l.1)
store-load (of_tuple p i) x a e =
    let l = bind_some (load p x) (λ c. some (get_item i c)) a e in
    let same : get_item i l.0 ≡ a = some-injective l.2 in
    rw l.1 (
      ap (λ c. store p (put_item i c l.0) x) (sym same)
      ∙ ap (λ c. store p c x) (put_item-get_item i l.0)
      ∙ store-load p x l.0 l.1)
store-load (of_union p i) x a e =
    let l = bind_some (load p x) (get_held i) a e in
    rw (l.1, l.2) (ap (λ c. store p c x) (hold-get_held i l.0 a l.2) ∙ store-load p x l.0 l.1)
store-load (of_array p n) x a e =
    let l = bind_some (load p x) (λ c. get_elem? c n) a e in
    rw (l.1, l.2) (ap (λ c. store p c x) (set-get_elem? l.0 n a l.2) ∙ store-load p x l.0 l.1)
