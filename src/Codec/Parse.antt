-- ===== src/Codec/Parse.antt =====
-- A parser of the packet format over a list of bytes, which knows of no buffer, no view and no
-- message that is overwritten: the specification of the decoder.
pub mod RoundTrip
use forstio.Prelude.{
  ℕ, suc, zero, List, [], ◌∷◌, ◌++◌, ◌⊎◌, inl, inr, length, take, drop, ltb, leb, ◌==◌,
  if◌then◌else◌,
}
use forstio.Error.{Error}
use forstio.Buffer.Defs.{too_small}
use forstio.Stream.Defs.{Width, w4, w8, size}
use forstio.Stream.Bytes.{le_value}
use forstio.Message.Schema.{
  Schema, primitive, string, array, tuple, struct, union, Schemas, nil, cons, Members, end, member,
  Choices, last, choice,
}
use forstio.Message.Value.{Message, Messages, Fields, Alternatives}
use forstio.Codec.Decode.{no_such_alternative}

-- A value and the bytes behind it, or the error of the first part that cannot be read, or an array that
-- is announced to be longer than a vector can be.
pub data Parsed (A : Type 0) : Type 0 where
  ok : A → List ℕ → Parsed A
  fail : Error → Parsed A
  throws : Parsed A

infixl 5 ◌>>=◌
abbrev pub ◌>>=◌ : {A B : Type 0} → Parsed A → (A → List ℕ → Parsed B) → Parsed B
ok a rest >>= f = f a rest
fail e >>= f = fail e
throws >>= f = throws

unfoldable pub parse_number : Width → List ℕ → Parsed ℕ
parse_number w bs =
    if ltb (length bs) (size w)
    then fail too_small
    else ok (le_value (take (size w) bs)) (drop (size w) bs)

unfoldable pub parse_characters : ℕ → List ℕ → Parsed (List ℕ)
parse_characters n bs = if ltb (length bs) n then fail too_small else ok (take n bs) (drop n bs)

unfoldable pub parse_elements : {A : Type 0} → (List ℕ → Parsed A) → ℕ → List ℕ → Parsed (List A)
parse_elements f zero bs = ok [] bs
parse_elements f (suc n) bs =
    f bs >>= λ x bs'. parse_elements f n bs' >>= λ xs bs''. ok (x ∷ xs) bs''

unfoldable pub parse_array : {A : Type 0} → ℕ → (List ℕ → Parsed A) → ℕ → List ℕ → Parsed (List A)
parse_array max_size f n bs = if ltb max_size n then throws else parse_elements f n bs

module _ (max_size : Schema → ℕ) where
  unfoldable mutual
    pub parse : (s : Schema) → List ℕ → Parsed (Message s)
    parse (primitive t w) bs = parse_number w bs
    parse string bs = parse_number w8 bs >>= parse_characters
    parse (array s) bs = parse_number w8 bs >>= parse_array (max_size s) (parse s)
    parse (tuple ss) bs = parse_tuple ss bs
    parse (struct ms) bs = parse_struct ms bs
    parse (union cs) bs = parse_number w4 bs >>= parse_union cs

    pub parse_tuple : (ss : Schemas) → List ℕ → Parsed (Messages ss)
    parse_tuple nil bs = ok tt bs
    parse_tuple (cons s ss) bs =
        parse s bs >>= λ m bs'. parse_tuple ss bs' >>= λ ms bs''. ok (m, ms) bs''

    pub parse_struct : (ms : Members) → List ℕ → Parsed (Fields ms)
    parse_struct end bs = ok tt bs
    parse_struct (member s k ms) bs =
        parse s bs >>= λ m bs'. parse_struct ms bs' >>= λ fs bs''. ok (m, fs) bs''

    -- The alternative with the given number.
    pub parse_union : (cs : Choices) → ℕ → List ℕ → Parsed (Alternatives cs)
    parse_union (last s k) zero bs = parse s bs
    parse_union (last s k) (suc id) bs = fail no_such_alternative
    parse_union (choice s k cs) zero bs = parse s bs >>= λ m rest. ok (inl m) rest
    parse_union (choice s k cs) (suc id) bs = parse_union cs id bs >>= λ a rest. ok (inr a) rest
