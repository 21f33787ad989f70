-- ===== src/Codec/Format/Bytes.antt =====
-- A payload and a packet consist of bytes, and how long a packet is.
use forstio.Prelude.Laws.{length-append}
use forstio.Prelude.{◌≡◌, ◌+◌, arith, ℕ, List, [], ◌∷◌, inl, inr, length}
use forstio.Stream.Defs.{size}
use forstio.Stream.Bytes.{AreBytes, AreBytes-append, le_bytes, length-le_bytes, le_bytes-AreBytes}
use forstio.Message.Schema.{
  Schema, primitive, string, array, tuple, struct, union, Schemas, nil, cons, Members, end, member,
  Choices, last, choice,
}
use forstio.Message.Value.{
  Message, Messages, Fields, Alternatives, index, AllFit, Fits, FitsTuple, FitsStruct, FitsUnion,
}
use forstio.Codec.Format.{concat_map, payload, payload_tuple, payload_struct, payload_union, packet}

concat_map-AreBytes :
    {A : Type 0} (P : A → Type 0) (g : A → List ℕ)
    → ((x : A) → P x → AreBytes (g x))
    → (xs : List A) → AllFit P xs
    → AreBytes (concat_map g xs)
unfolding concat_map
concat_map-AreBytes P g each [] h = tt
concat_map-AreBytes P g each (x ∷ xs) h =
    AreBytes-append (g x) (concat_map g xs) (each x h.0) (concat_map-AreBytes P g each xs h.1)

mutual
  unfolding payload

  message_bytes : (t : Schema) (m : Message t) → Fits t m → AreBytes (payload t m)
  message_bytes (primitive t w) m h = le_bytes-AreBytes (size w) m
  message_bytes string m h =
      AreBytes-append (le_bytes 8 (length m)) m (le_bytes-AreBytes 8 (length m)) h.0
  message_bytes (array t) ms h =
      AreBytes-append (le_bytes 8 (length ms)) (concat_map (payload t) ms)
        (le_bytes-AreBytes 8 (length ms))
        (concat_map-AreBytes (Fits t) (payload t) (message_bytes t) ms h.1)
  message_bytes (tuple ts) ms h = tuple_bytes ts ms h
  message_bytes (struct ts) ms h = struct_bytes ts ms h
  message_bytes (union cs) a h =
      AreBytes-append (le_bytes 4 (index cs a)) (payload_union cs a)
        (le_bytes-AreBytes 4 (index cs a)) (union_bytes cs a h.1)

  tuple_bytes : (ts : Schemas) (ms : Messages ts) → FitsTuple ts ms → AreBytes (payload_tuple ts ms)
  tuple_bytes nil ms h = tt
  tuple_bytes (cons t ts) ms h =
      AreBytes-append (payload t ms.0) (payload_tuple ts ms.1) (message_bytes t ms.0 h.0)
        (tuple_bytes ts ms.1 h.1)

  struct_bytes :
      (ts : Members) (ms : Fields ts) → FitsStruct ts ms → AreBytes (payload_struct ts ms)
  struct_bytes end ms h = tt
  struct_bytes (member t k ts) ms h =
      AreBytes-append (payload t ms.0) (payload_struct ts ms.1) (message_bytes t ms.0 h.0)
        (struct_bytes ts ms.1 h.1)

  union_bytes :
      (cs : Choices) (a : Alternatives cs) → FitsUnion cs a → AreBytes (payload_union cs a)
  union_bytes (last t k) a h = message_bytes t a h
  union_bytes (choice t k cs) (inl m) h = message_bytes t m h
  union_bytes (choice t k cs) (inr a) h = union_bytes cs a h

-- A packet consists of bytes.
pub packet-AreBytes : (t : Schema) (m : Message t) → Fits t m → AreBytes (packet t m)
unfolding packet
packet-AreBytes t m h =
    AreBytes-append (le_bytes 8 (length (payload t m))) (payload t m)
      (le_bytes-AreBytes 8 (length (payload t m))) (message_bytes t m h)

-- The length of a packet.
pub length-packet : (t : Schema) (m : Message t) → length (packet t m) ≡ 8 + length (payload t m)
unfolding packet
length-packet t m = omega (
  arith,
  length-append (le_bytes 8 (length (payload t m))) (payload t m),
  length-le_bytes 8 (length (payload t m)),
)
