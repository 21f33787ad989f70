-- ===== src/Codec/Format.antt =====
-- The packet format: what a message is as a list of bytes.
pub mod Bytes
use forstio.Prelude.{ℕ, suc, zero, List, [], ◌∷◌, ◌++◌, inl, inr, length}
use forstio.Stream.Defs.{size}
use forstio.Stream.Bytes.{le_bytes}
use forstio.Message.Schema.{
  Schema, primitive, string, array, tuple, struct, union, Schemas, nil, cons, Members, end, member,
  Choices, last, choice,
}
use forstio.Message.Value.{Message, Messages, Fields, Alternatives, index}

unfoldable pub concat_map : {A : Type 0} → (A → List ℕ) → List A → List ℕ
concat_map f [] = []
concat_map f (x ∷ xs) = f x ++ concat_map f xs

-- A number is its bytes, the lowest first; a string and an array are preceded by their length in
-- 8 bytes, the alternative of a union by its index in 4; members follow each other.
unfoldable mutual
  pub payload : (s : Schema) → Message s → List ℕ
  payload (primitive t w) m = le_bytes (size w) m
  payload string m = le_bytes 8 (length m) ++ m
  payload (array s) ms = le_bytes 8 (length ms) ++ concat_map (payload s) ms
  payload (tuple ss) ms = payload_tuple ss ms
  payload (struct ms) fs = payload_struct ms fs
  payload (union cs) a = le_bytes 4 (index cs a) ++ payload_union cs a

  pub payload_tuple : (ss : Schemas) → Messages ss → List ℕ
  payload_tuple nil ms = []
  payload_tuple (cons s ss) ms = payload s ms.0 ++ payload_tuple ss ms.1

  pub payload_struct : (ms : Members) → Fields ms → List ℕ
  payload_struct end fs = []
  payload_struct (member s k ms) fs = payload s fs.0 ++ payload_struct ms fs.1

  pub payload_union : (cs : Choices) → Alternatives cs → List ℕ
  payload_union (last s k) a = payload s a
  payload_union (choice s k cs) (inl m) = payload s m
  payload_union (choice s k cs) (inr a) = payload_union cs a

-- A packet is the length of the payload in 8 bytes, and the payload.
unfoldable pub packet : (s : Schema) → Message s → List ℕ
packet s m = le_bytes 8 (length (payload s m)) ++ payload s m
