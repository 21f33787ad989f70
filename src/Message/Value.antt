-- ===== src/Message/Value.antt =====
-- source/forstio/message_container.h: what the containers hold. A number is its bit pattern, a
-- string its bytes, an array a vector, a tuple and a struct a `std::tuple`, a union a
-- `std::variant`.
use forstio.Prelude.{
  ℕ, zero, suc, ◌<◌, ◌≤◌, ◌^◌, ◌*◌, Option, none, some, ltb, if◌then◌else◌, List, [], ◌∷◌, ◌⊎◌, inl,
  inr, length,
}
use forstio.Stream.Defs.{size}
use forstio.Stream.Bytes.{AreBytes}
use forstio.Message.Schema.{
  Schema, primitive, string, array, tuple, struct, union, Schemas, nil, cons, Members, end, member,
  Choices, last, choice,
}

abbrev mutual
  pub Message : Schema → Type 0
  Message (primitive t w) = ℕ
  Message string = List ℕ
  Message (array s) = List (Message s)
  Message (tuple ss) = Messages ss
  Message (struct ms) = Fields ms
  Message (union cs) = Alternatives cs

  pub Messages : Schemas → Type 0
  Messages nil = Unit {0}
  Messages (cons s ss) = Message s × Messages ss

  pub Fields : Members → Type 0
  Fields end = Unit {0}
  Fields (member s k ms) = Message s × Fields ms

  pub Alternatives : Choices → Type 0
  Alternatives (last s k) = Message s
  Alternatives (choice s k cs) = Message s ⊎ Alternatives cs

-- What the default constructors give: numbers are 0, a variant holds its first alternative.
unfoldable mutual
  pub fresh : (s : Schema) → Message s
  fresh (primitive t w) = 0
  fresh string = []
  fresh (array s) = []
  fresh (tuple ss) = fresh_tuple ss
  fresh (struct ms) = fresh_struct ms
  fresh (union cs) = fresh_union cs

  pub fresh_tuple : (ss : Schemas) → Messages ss
  fresh_tuple nil = tt
  fresh_tuple (cons s ss) = (fresh s, fresh_tuple ss)

  pub fresh_struct : (ms : Members) → Fields ms
  fresh_struct end = tt
  fresh_struct (member s k ms) = (fresh s, fresh_struct ms)

  pub fresh_union : (cs : Choices) → Alternatives cs
  fresh_union (last s k) = fresh s
  fresh_union (choice s k cs) = inl (fresh s)

-- `std::variant::index`
unfoldable pub index : (cs : Choices) → Alternatives cs → ℕ
index (last s k) a = 0
index (choice s k cs) (inl m) = 0
index (choice s k cs) (inr a) = suc (index cs a)

-- `sizeof...(V)` of a union
unfoldable pub count : Choices → ℕ
count (last s k) = 1
count (choice s k cs) = suc (count cs)

-- What `std::vector::resize` makes of the elements: what is there stays, new elements are default
-- constructed.
unfoldable pub resized {ℓ} : {A : Type ℓ} → A → ℕ → List A → List A
resized d zero xs = []
resized d (suc n) [] = d ∷ resized d n []
resized d (suc n) (x ∷ xs) = x ∷ resized d n xs

-- `std::vector::resize` of a vector with the given `max_size()`: `none` is the `std::length_error` that
-- it throws for more elements than that.
unfoldable pub resize {ℓ} : {A : Type ℓ} → ℕ → A → ℕ → List A → Option (List A)
resize max_size d n xs = if ltb max_size n then none else some (resized d n xs)

abbrev pub AllFit : {A : Type 0} → (A → Type 0) → List A → Type 0
AllFit P [] = Unit {0}
AllFit P (x ∷ xs) = P x × AllFit P xs

-- The ranges of the C++ types: numbers have no more bits than their type, `char`s are bytes, and
-- sizes and the index of a union fit the types that the codec sends them in.
abbrev mutual
  pub Fits : (s : Schema) → Message s → Type 0
  Fits (primitive t w) m = m < 2 ^ (size w * 8)
  Fits string m = AreBytes m × (length m < 2 ^ 64)
  Fits (array s) ms = (length ms < 2 ^ 64) × AllFit (Fits s) ms
  Fits (tuple ss) ms = FitsTuple ss ms
  Fits (struct ms) fs = FitsStruct ms fs
  Fits (union cs) a = (index cs a < 2 ^ 32) × FitsUnion cs a

  pub FitsTuple : (ss : Schemas) → Messages ss → Type 0
  FitsTuple nil ms = Unit {0}
  FitsTuple (cons s ss) ms = Fits s ms.0 × FitsTuple ss ms.1

  pub FitsStruct : (ms : Members) → Fields ms → Type 0
  FitsStruct end fs = Unit {0}
  FitsStruct (member s k ms) fs = Fits s fs.0 × FitsStruct ms fs.1

  pub FitsUnion : (cs : Choices) → Alternatives cs → Type 0
  FitsUnion (last s k) a = Fits s a
  FitsUnion (choice s k cs) (inl m) = Fits s m
  FitsUnion (choice s k cs) (inr a) = FitsUnion cs a

-- The arrays are no longer than vectors can be; `max_size s` is the `max_size()` of a vector of messages
-- with the schema `s`.
abbrev mutual
  pub IsHeld : (Schema → ℕ) → (s : Schema) → Message s → Type 0
  IsHeld max_size (primitive t w) m = Unit {0}
  IsHeld max_size string m = Unit {0}
  IsHeld max_size (array s) ms = (length ms ≤ max_size s) × AllFit (IsHeld max_size s) ms
  IsHeld max_size (tuple ss) ms = IsHeldTuple max_size ss ms
  IsHeld max_size (struct ms) fs = IsHeldStruct max_size ms fs
  IsHeld max_size (union cs) a = IsHeldUnion max_size cs a

  pub IsHeldTuple : (Schema → ℕ) → (ss : Schemas) → Messages ss → Type 0
  IsHeldTuple max_size nil ms = Unit {0}
  IsHeldTuple max_size (cons s ss) ms = IsHeld max_size s ms.0 × IsHeldTuple max_size ss ms.1

  pub IsHeldStruct : (Schema → ℕ) → (ms : Members) → Fields ms → Type 0
  IsHeldStruct max_size end fs = Unit {0}
  IsHeldStruct max_size (member s k ms) fs = IsHeld max_size s fs.0 × IsHeldStruct max_size ms fs.1

  pub IsHeldUnion : (Schema → ℕ) → (cs : Choices) → Alternatives cs → Type 0
  IsHeldUnion max_size (last s k) a = IsHeld max_size s a
  IsHeldUnion max_size (choice s k cs) (inl m) = IsHeld max_size s m
  IsHeldUnion max_size (choice s k cs) (inr a) = IsHeldUnion max_size cs a
