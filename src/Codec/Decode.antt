-- ===== src/Codec/Decode.antt =====
-- `ProtoKelDecodeImpl<…>::decode`. A builder refers to a message that is overwritten in place, so
-- each function takes what the message holds and returns what it holds then, on a failure too. `none` is
-- a failed assertion of the buffer, or the `std::length_error` of `std::vector::resize`: `max_size s` is
-- the `max_size()` of a vector of messages with the schema `s`.
pub mod Agree
pub mod Correct
use forstio.Prelude.{
  ℕ, suc, zero, true, false, Option, none, some, List, [], ◌∷◌, ◌⊎◌, inl, inr, length, ltb, leb,
  ◌==◌, if◌then◌else◌, ◌>>=◌,
}
use forstio.Error.{Error, no_error, failed, critical_error}
use forstio.Buffer.Defs.{Buffer, too_small}
use forstio.Buffer.Contract.Load.{load_each}
use forstio.Stream.Defs.{Width, w4, w8}
use forstio.Stream.Defs as Stream
use forstio.Message.Schema.{
  Schema, primitive, string, array, tuple, struct, union, Schemas, nil, cons, Members, end, member,
  Choices, last, choice,
}
use forstio.Message.Value.{Message, Messages, Fields, Alternatives, fresh, count, resize}
use forstio.Codec.Steps.{then_decode, decode_elements}

abbrev pub no_such_alternative : Error
no_such_alternative = critical_error "Union doesn't have this many id's"

-- The alternative that `init<i>()` of a union's builder starts from: the one that is there, or a
-- new one if the variant holds another.
abbrev pub init_first : {A B : Type 0} → A → Option (A ⊎ B) → A
init_first d none = d
init_first d (some (inl a)) = a
init_first d (some (inr c)) = d

abbrev pub init_last : {A : Type 0} → A → Option A → A
init_last d none = d
init_last d (some a) = a

abbrev pub past_first : {A B : Type 0} → Option (A ⊎ B) → Option B
past_first none = none
past_first (some (inl a)) = none
past_first (some (inr c)) = some c

-- The variant after the members from some index on: `none` if none of them has touched it.
abbrev pub in_rest : {A B : Type 0} → Option B → Option (A ⊎ B)
in_rest none = none
in_rest (some c) = some (inr c)

abbrev pub keep_first : {A B : Type 0} → A → Option B → Option (A ⊎ B)
keep_first a none = some (inl a)
keep_first a (some c) = some (inr c)

abbrev pub or_old : {A : Type 0} → A → Option A → A
or_old old none = old
or_old old (some a) = a

module _ {S : Type 0} (b : Buffer S) where
  -- A number: `val` starts at 0, and is set also if it could not be read.
  unfoldable pub decode_number : Width → S → Option (Error × ℕ × S)
  decode_number w st = Stream.decode b w 0 st

  -- The characters of a string of the size that has been read: the size is checked before the
  -- resize and after it, and the bytes are read by the loop over `buffer.read(i)`. The resize is to no
  -- more characters than there are bytes in the buffer.
  unfoldable pub decode_characters : List ℕ → ℕ → S → Option (Error × List ℕ × S)
  decode_characters old size st = do
    left ← b.read_composite_length st
    if ltb left size then some (too_small, old, st) else (do
      value ← load_each b st 0 size
      st' ← b.read_advance st size
      some (no_error, value, st'))

  unfoldable pub decode_string : List ℕ → S → Option (Error × List ℕ × S)
  decode_string old st = do
    n ← b.read_composite_length st
    if ltb n 8
        then some (too_small, old, st)
        else then_decode (Stream.decode b w8 0 st) (λ _. old) (decode_characters old)

module _ {S : Type 0} (b : Buffer S) (max_size : Schema → ℕ) where
  unfoldable mutual
    pub decode : (s : Schema) → Message s → S → Option (Error × Message s × S)
    decode (primitive t w) old st = decode_number b w st
    decode string old st = decode_string b old st
    decode (array s) old st =
        then_decode (Stream.decode b w8 0 st) (λ _. old)
          (λ n st'. resize (max_size s) (fresh s) n old >>= λ ms. decode_elements (decode s) ms st')
    decode (tuple ss) old st = decode_tuple ss old st
    decode (struct ms) old st = decode_struct ms old st
    decode (union cs) old st =
        then_decode (Stream.decode b w4 0 st) (λ _. old)
          (λ id st'.
            if leb (count cs) id
            then some (no_such_alternative, old, st')
            else (do r ← decode_union cs 0 id (some old) st'; some (r.0, or_old old r.1, r.2)))

    -- `decodeMembers` of a tuple
    pub decode_tuple : (ss : Schemas) → Messages ss → S → Option (Error × Messages ss × S)
    decode_tuple nil old st = some (no_error, tt, st)
    decode_tuple (cons s ss) old st =
        then_decode (decode s old.0 st) (λ m. (m, old.1))
          (λ m st'.
            then_decode (decode_tuple ss old.1 st') (λ ms. (m, ms))
              (λ ms st''. some (no_error, (m, ms), st'')))

    -- `decodeMembers` of a struct
    pub decode_struct : (ms : Members) → Fields ms → S → Option (Error × Fields ms × S)
    decode_struct end old st = some (no_error, tt, st)
    decode_struct (member s k ms) old st =
        then_decode (decode s old.0 st) (λ m. (m, old.1))
          (λ m st'.
            then_decode (decode_struct ms old.1 st') (λ fs. (m, fs))
              (λ fs st''. some (no_error, (m, fs), st'')))

    -- `decodeMembers<i>` of a union, which goes on behind the member that it has decoded. The
    -- variant is given as far as it holds one of the members from `i` on.
    pub decode_union :
        (cs : Choices)
        → ℕ
        → ℕ
        → Option (Alternatives cs)
        → S
        → Option (Error × Option (Alternatives cs) × S)
    decode_union (last s k) i id old st =
        if id == i
        then then_decode (decode s (init_last (fresh s) old) st) some
            (λ m st'. some (no_error, some m, st'))
        else some (no_error, none, st)
    decode_union (choice s k cs) i id old st =
        if id == i
        then then_decode (decode s (init_first (fresh s) old) st) (λ m. some (inl m))
            (λ m st'. do r ← decode_union cs (suc i) id none st'; some (r.0, keep_first m r.1, r.2))
        else (do r ← decode_union cs (suc i) id (past_first old) st; some (r.0, in_rest r.1, r.2))
