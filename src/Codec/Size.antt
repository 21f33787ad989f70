-- ===== src/Codec/Size.antt =====
-- `ProtoKelEncodeImpl<…>::size`, in `size_t`.
pub mod Correct
use forstio.Prelude.{ℕ, suc, zero, List, [], ◌∷◌, inl, inr, length, add_size}
use forstio.Stream.Defs.{size}
use forstio.Message.Schema.{
  Schema, primitive, string, array, tuple, struct, union, Schemas, nil, cons, Members, end, member,
  Choices, last, choice,
}
use forstio.Message.Value.{Message, Messages, Fields, Alternatives}

-- The loop of an array: `members` is what has been added up.
unfoldable pub size_elements : {A : Type 0} → (A → ℕ) → ℕ → List A → ℕ
size_elements f members [] = members
size_elements f members (x ∷ xs) = size_elements f (add_size members (f x)) xs

unfoldable mutual
  pub message_size : (s : Schema) → Message s → ℕ
  message_size (primitive t w) m = size w
  message_size string m = add_size 8 (length m)
  message_size (array s) ms = size_elements (message_size s) 8 ms
  message_size (tuple ss) ms = size_tuple ss ms
  message_size (struct ms) fs = size_struct ms fs
  message_size (union cs) a = add_size 4 (size_union cs a)

  pub size_tuple : (ss : Schemas) → Messages ss → ℕ
  size_tuple nil ms = 0
  size_tuple (cons s ss) ms = add_size (message_size s ms.0) (size_tuple ss ms.1)

  pub size_struct : (ms : Members) → Fields ms → ℕ
  size_struct end fs = 0
  size_struct (member s k ms) fs = add_size (message_size s fs.0) (size_struct ms fs.1)

  -- `sizeMembers` of a union: the member that the variant holds
  pub size_union : (cs : Choices) → Alternatives cs → ℕ
  size_union (last s k) a = message_size s a
  size_union (choice s k cs) (inl m) = message_size s m
  size_union (choice s k cs) (inr a) = size_union cs a
