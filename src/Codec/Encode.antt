-- ===== src/Codec/Encode.antt =====
-- `ProtoKelEncodeImpl<…>::encode`.
pub mod Correct
use forstio.Prelude.{
  ℕ, suc, zero, ◌%◌, ◌^◌, Option, none, some, List, inl, inr, length, add_size, if◌then◌else◌,
  ◌>>=◌,
}
use forstio.Error.{Error, no_error, failed}
use forstio.Buffer.Defs.{Buffer}
use forstio.Buffer.Contract.Append.{store_each}
use forstio.Stream.Defs.{w4, w8}
use forstio.Stream.Defs as Stream
use forstio.Message.Schema.{
  Schema, primitive, string, array, tuple, struct, union, Schemas, nil, cons, Members, end, member,
  Choices, last, choice,
}
use forstio.Message.Value.{Message, Messages, Fields, Alternatives}
use forstio.Codec.Steps.{then_encode, encode_elements}

module _ {S : Type 0} (b : Buffer S) where
  -- A string: its size, then its bytes by the loop over `buffer.write(i)`.
  unfoldable pub encode_string : List ℕ → S → Option (Error × S)
  encode_string view s = do
    e ← b.write_require_length s (add_size 8 (length view))
    if failed e
        then some (e, s)
        else then_encode (Stream.encode b w8 (length view) s) λ s'. do
          s'' ← store_each b s' 0 view
          s''' ← b.write_advance s'' (length view)
          some (no_error, s''')

  unfoldable mutual
    pub encode : (s : Schema) → Message s → S → Option (Error × S)
    encode (primitive t w) m st = Stream.encode b w m st
    encode string m st = encode_string m st
    encode (array s) ms st =
        then_encode (Stream.encode b w8 (length ms) st) (encode_elements (encode s) ms)
    encode (tuple ss) ms st = encode_tuple ss ms st
    encode (struct ms) fs st = encode_struct ms fs st
    encode (union cs) a st = encode_union cs 0 a st

    -- `encodeMembers` of a tuple
    pub encode_tuple : (ss : Schemas) → Messages ss → S → Option (Error × S)
    encode_tuple nil ms st = some (no_error, st)
    encode_tuple (cons s ss) ms st = then_encode (encode s ms.0 st) (encode_tuple ss ms.1)

    -- `encodeMembers` of a struct
    pub encode_struct : (ms : Members) → Fields ms → S → Option (Error × S)
    encode_struct end fs st = some (no_error, st)
    encode_struct (member s k ms) fs st = then_encode (encode s fs.0 st) (encode_struct ms fs.1)

    -- `encodeMembers<i>` of a union: the alternative that the variant holds is the one whose
    -- index is `reader.index()`.
    pub encode_union : (cs : Choices) → ℕ → Alternatives cs → S → Option (Error × S)
    encode_union (last s k) i a st = then_encode (Stream.encode b w4 (i % 2 ^ 32) st) (encode s a)
    encode_union (choice s k cs) i (inl m) st =
        then_encode (Stream.encode b w4 (i % 2 ^ 32) st) (encode s m)
    encode_union (choice s k cs) i (inr a) st = encode_union cs (suc i) a st
