-- ===== src/Message/Schema.antt =====
-- source/forstio/schema.h: the descriptions of messages. The parameter packs of the templates are
-- lists; a `std::variant` has one alternative at least, so the list of a union is not empty.
use forstio.Prelude.{String}
use forstio.Stream.Defs.{Width}

-- `SignedInteger`, `UnsignedInteger` and `FloatingPoint`
pub data Number : Type 0 where
  signed unsigned floating : Number

mutual
  pub data Schema : Type 0 where
    primitive : Number → Width → Schema
    string : Schema
    array : Schema → Schema
    tuple : Schemas → Schema
    struct : Members → Schema
    union : Choices → Schema

  -- `T...` of `Tuple<T...>`
  pub data Schemas : Type 0 where
    nil : Schemas
    cons : Schema → Schemas → Schemas

  -- `NamedMember<V, K>...` of a `Struct`
  pub data Members : Type 0 where
    end : Members
    member : Schema → String → Members → Members

  -- `NamedMember<V, K>...` of a `Union`
  pub data Choices : Type 0 where
    last : Schema → String → Choices
    choice : Schema → String → Choices → Choices
