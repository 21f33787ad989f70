-- ===== src/Message/Access.antt =====
-- The containers of source/forstio/message_container.h and the `Builder`s and `Reader`s of
-- source/forstio/message.h. Both hold a reference into a message; here the reference is the way
-- from the root, and what they do is done to the root. `none` is an exception: `std::get` of a
-- variant that holds something else, `at` past the end, or `resize` to more than the `max_size` of the
-- vector.
pub mod Laws
pub mod Union
pub mod Walk
use forstio.Prelude.{
  ℕ, zero, suc, ◌≡◌, Bool, Option, none, some, String, List, [], ◌∷◌, ◌⊎◌, inl, inr, length,
  if◌then◌else◌, ltb, ◌==◌, ◌>>=◌, get_elem?, set,
}
use forstio.Message.Schema.{
  Number, Schema, primitive, string, array, tuple, struct, union, Schemas, cons, Members, member,
  Choices, last, choice,
}
use forstio.Message.Value.{Message, Messages, Fields, Alternatives, fresh, index, resize}
use forstio.Message.Keys.{InStruct, InUnion, InTuple, only, position, choice_keys, key_index}
use forstio.Message.Keys as Keys
use forstio.Stream.Defs.{Width}

-- `MessageContainer<Struct>::get` and `MessageContainer<Tuple>::get`, to read and to assign.
unfoldable pub get_member : {ts : Members} {s : Schema} → InStruct ts s → Fields ts → Message s
get_member InStruct.first fs = fs.0
get_member (InStruct.next i) fs = get_member i fs.1

unfoldable pub put_member :
    {ts : Members} {s : Schema} → InStruct ts s → Message s → Fields ts → Fields ts
put_member InStruct.first m fs = (m, fs.1)
put_member (InStruct.next i) m fs = (fs.0, put_member i m fs.1)

unfoldable pub get_item : {ts : Schemas} {s : Schema} → InTuple ts s → Messages ts → Message s
get_item InTuple.first ms = ms.0
get_item (InTuple.next i) ms = get_item i ms.1

unfoldable pub put_item :
    {ts : Schemas} {s : Schema} → InTuple ts s → Message s → Messages ts → Messages ts
put_item InTuple.first m ms = (m, ms.1)
put_item (InTuple.next i) m ms = (ms.0, put_item i m ms.1)

-- A variant that holds alternative `i`.
unfoldable pub hold : {cs : Choices} {s : Schema} → InUnion cs s → Message s → Alternatives cs
hold only m = m
hold InUnion.first m = inl m
hold (InUnion.next i) m = inr (hold i m)

-- `std::get<i>` of a variant
unfoldable pub get_held :
    {cs : Choices} {s : Schema} → InUnion cs s → Alternatives cs → Option (Message s)
get_held only a = some a
get_held InUnion.first (inl m) = some m
get_held InUnion.first (inr a) = none
get_held (InUnion.next i) (inl m) = none
get_held (InUnion.next i) (inr a) = get_held i a

-- What `MessageContainer<Union>::get<i>` does to the variant: another alternative is thrown away.
unfoldable pub select :
    {cs : Choices} {s : Schema} → InUnion cs s → Alternatives cs → Alternatives cs
select {cs} {s} i a = if index cs a == position i then a else hold i (fresh s)

-- Where in a message with the schema `r` a `Builder` or a `Reader` stands.
pub data Place (r : Schema) : Schema → Type 0 where
  root : Place r r
  of_struct : {ts : Members} {s : Schema} → Place r (struct ts) → InStruct ts s → Place r s
  of_tuple : {ts : Schemas} {s : Schema} → Place r (tuple ts) → InTuple ts s → Place r s
  of_union : {cs : Choices} {s : Schema} → Place r (union cs) → InUnion cs s → Place r s
  of_array : {s : Schema} → Place r (array s) → ℕ → Place r s

-- Through the reference that a `Builder` or a `Reader` holds: what stands there, and an assignment to it.
-- The reference is to the member, item, held alternative or element itself, so that neither calls an
-- accessor; the accessors are below.
unfoldable pub load : {r s : Schema} → Place r s → Message r → Option (Message s)
load root x = some x
load (of_struct p i) x = do a ← load p x; some (get_member i a)
load (of_tuple p i) x = do a ← load p x; some (get_item i a)
load (of_union p i) x = do a ← load p x; get_held i a
load (of_array p n) x = do a ← load p x; get_elem? a n

unfoldable pub store : {r s : Schema} → Place r s → Message s → Message r → Option (Message r)
store root m x = some m
store (of_struct p i) m x = do a ← load p x; store p (put_member i m a) x
store (of_tuple p i) m x = do a ← load p x; store p (put_item i m a) x
store (of_union p i) m x = do a ← load p x; _ ← get_held i a; store p (hold i m) x
store (of_array p n) m x = do a ← load p x; _ ← get_elem? a n; store p (set a n m) x

module _ {r : Schema} where
  -- `Builder(msg, size)` of an array
  unfoldable pub array_builder :
      {s : Schema} → (Schema → ℕ) → Place r (array s) → ℕ → Message r → Option (Message r)
  array_builder {s} max_size p size x = do
    a ← load p x
    if ltb 0 size then (resize (max_size s) (fresh s) size a >>= λ c. store p c x) else some x

  -- `init<i>()` of a struct's and of a tuple's builder, and `get<i>()` of their readers.
  unfoldable pub struct_get :
      {ts : Members} {s : Schema} → Place r (struct ts) → InStruct ts s → Place r s
  struct_get p i = of_struct p i

  unfoldable pub tuple_get :
      {ts : Schemas} {s : Schema} → Place r (tuple ts) → InTuple ts s → Place r s
  tuple_get p i = of_tuple p i

  -- `init<i>(size)` where the member is an array
  unfoldable pub struct_init_array :
      {ts : Members} {s : Schema}
      → (Schema → ℕ)
      → Place r (struct ts)
      → InStruct ts (array s)
      → ℕ
      → Message r
      → Option (Place r (array s) × Message r)
  struct_init_array max_size p i size x = do
    x' ← array_builder max_size (of_struct p i) size x
    some (of_struct p i, x')

  unfoldable pub tuple_init_array :
      {ts : Schemas} {s : Schema}
      → (Schema → ℕ)
      → Place r (tuple ts)
      → InTuple ts (array s)
      → ℕ
      → Message r
      → Option (Place r (array s) × Message r)
  tuple_init_array max_size p i size x = do
    x' ← array_builder max_size (of_tuple p i) size x
    some (of_tuple p i, x')

  -- `init<i>()` of a union's builder, and `get<i>()` of its reader: both select the alternative.
  unfoldable pub union_get :
      {cs : Choices} {s : Schema}
      → Place r (union cs)
      → InUnion cs s
      → Message r
      → Option (Place r s × Message r)
  union_get p i x = do a ← load p x; x' ← store p (select i a) x; some (of_union p i, x')

  unfoldable pub union_init_array :
      {cs : Choices} {s : Schema}
      → (Schema → ℕ)
      → Place r (union cs)
      → InUnion cs (array s)
      → ℕ
      → Message r
      → Option (Place r (array s) × Message r)
  union_init_array max_size p i size x = do
    q ← union_get p i x
    x' ← array_builder max_size q.0 size q.1
    some (q.0, x')

  -- `Reader::index` and `Reader::hasAlternative`; `key` is the index that `toIndex` has found.
  unfoldable pub union_index : {cs : Choices} → Place r (union cs) → Message r → Option ℕ
  union_index {cs} p x = do a ← load p x; some (index cs a)

  unfoldable pub has_alternative :
      {cs : Choices} → String → Place r (union cs) → Message r → Option Bool
  has_alternative {cs} literal p x = do
    key ← key_index literal (choice_keys cs)
    i ← union_index p x
    some (i == key)

  -- `init(i)` and `get(i)` of an array
  unfoldable pub array_get : {s : Schema} → Place r (array s) → ℕ → Message r → Option (Place r s)
  array_get p n x = do a ← load p x; if ltb n (length a) then some (of_array p n) else none

  -- `size()` and `resize(size)` of an array
  unfoldable pub array_size : {s : Schema} → Place r (array s) → Message r → Option ℕ
  array_size p x = do a ← load p x; some (length a)

  unfoldable pub array_resize :
      {s : Schema} → (Schema → ℕ) → Place r (array s) → ℕ → Message r → Option (Message r)
  array_resize {s} max_size p size x = do
    a ← load p x
    (resize (max_size s) (fresh s) size a >>= λ c. store p c x)

  -- `set` and `get` of numbers and strings
  unfoldable pub set_primitive :
      {t : Number} {w : Width} → Place r (primitive t w) → ℕ → Message r → Option (Message r)
  set_primitive p v x = store p v x

  unfoldable pub get_primitive :
      {t : Number} {w : Width} → Place r (primitive t w) → Message r → Option ℕ
  get_primitive p x = load p x

  unfoldable pub set_string : Place r string → List ℕ → Message r → Option (Message r)
  set_string p v x = store p v x

  unfoldable pub get_string : Place r string → Message r → Option (List ℕ)
  get_string p x = load p x
