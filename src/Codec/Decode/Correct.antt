-- ===== src/Codec/Decode/Correct.antt =====
-- The decoder agrees with the parser, whatever the message held before.
use mathlib.Core.Path.{subst}
use forstio.Prelude.{
  ℕ, suc, zero, ◌+◌, ◌≤◌, ◌<◌, ◌≡◌, refl, ap, true, false, Option, none, some, List, [], ◌∷◌,
  length, if◌then◌else◌, arith, le→leb, lt→leb, le→ltb, lt→ltb, lt_or_le, inl, inr, ◌⊎◌, leb, ◌==◌,
  ◌>>=◌,
}
use forstio.Error.{Error, no_error}
use forstio.Buffer.Defs.{Buffer}
use forstio.Buffer.Contract.{IsReader}
use forstio.Stream.Defs.{w4, w8}
use forstio.Stream.Defs as Stream
use forstio.Stream.Bytes.{AreBytes}
use forstio.Message.Schema.{
  Schema, primitive, string, array, tuple, struct, union, Schemas, nil, cons, Members, end, member,
  Choices, last, choice,
}
use forstio.Message.Value.{Message, Messages, Fields, Alternatives, fresh, count, resize, resized}
use forstio.Codec.Steps.{then_decode, decode_elements}
use forstio.Codec.Parse.{
  Parsed, ok, fail, throws, parse_number, parse_characters, parse_elements, parse_array, parse,
  parse_tuple, parse_struct, parse_union,
}
use forstio.Codec.Parse as Parse
use forstio.Codec.Decode.{
  no_such_alternative, decode_number, decode, decode_tuple, decode_struct, decode_union, init_first,
  init_last, past_first, in_rest, keep_first, or_old,
}
use forstio.Codec.Decode.Agree.{
  Agrees, then-Agrees, done-Agrees, number-Agrees, string-Agrees, elements-Agrees,
}

pub length-resized {ℓ} : {A : Type ℓ} (d : A) (n : ℕ) (xs : List A) → length (resized d n xs) ≡ n
unfolding resized
length-resized d zero xs = refl
length-resized d (suc n) [] = ap suc (length-resized d n [])
length-resized d (suc n) (x ∷ xs) = ap suc (length-resized d n xs)

-- No member has a number past the last.
parse_union_past :
    (max_size : Schema → ℕ) (cs : Choices) (j : ℕ) (bs : List ℕ)
    → count cs ≤ j
    → parse_union max_size cs j bs ≡ fail no_such_alternative
unfolding count parse
parse_union_past max_size (last t k) zero bs h = absurd (omega arith)
parse_union_past max_size (last t k) (suc j) bs h = refl
parse_union_past max_size (choice t k cs) zero bs h = absurd (omega arith)
parse_union_past max_size (choice t k cs) (suc j) bs h =
    rw (parse_union_past max_size cs j bs (omega arith)) refl

same : (a c : ℕ) → a ≡ c → (a == c) ≡ true
same a c e = ground arith

other : (a c : ℕ) → c < a → (a == c) ≡ false
other a c e = ground arith

module _ {S : Type 0} (b : Buffer S) (max_size : Schema → ℕ) where
  -- Behind the member that has been decoded no other member is.
  skip_lem :
      (cs : Choices) (i id : ℕ) (st : S)
      → id < i
      → decode_union b max_size cs i id none st ≡ some (no_error, none, st)
  unfolding decode_union
  skip_lem (last s k) i id st h = ground arith
  skip_lem (choice s k cs) i id st h = ground (arith, skip_lem cs (suc i) id st)

module _ {S : Type 0} {b : Buffer S} {Valid : S → Type 0} {readable : S → List ℕ}
    (r : IsReader b Valid readable) (bytes : (s : S) → Valid s → AreBytes (readable s))
    (max_size : Schema → ℕ) where
  resized-Agrees :
      (t : Schema) (old : List (Message t)) (n : ℕ) (st : S)
      → Valid st
      → ((x : Message t) (st : S)
          → Valid st
          → Agrees Valid readable (parse max_size t (readable st)) (decode b max_size t x st))
      → Agrees Valid readable (parse_array (max_size t) (parse max_size t) n (readable st)) (
          resize (max_size t) (fresh t) n old >>= λ ms. decode_elements (decode b max_size t) ms st)
  unfolding parse_array resize
  resized-Agrees t old n st v each = elim (lt_or_le (max_size t) n) [
    | inl long ↦ rw (lt→ltb (max_size t) n long) refl
    | inr fit ↦ rw (le→ltb (max_size t) n fit) (
        subst
          (λ k.
            Agrees Valid readable (parse_elements (parse max_size t) k (readable st))
              (decode_elements (decode b max_size t) (resized (fresh t) n old) st))
          (length-resized (fresh t) n old)
          (elements-Agrees r bytes (parse max_size t) (decode b max_size t) each
            (resized (fresh t) n old) st v))
  ]

  array-Agrees :
      (t : Schema) (old : List (Message t)) (st : S)
      → Valid st
      → ((x : Message t) (st : S)
          → Valid st
          → Agrees Valid readable (parse max_size t (readable st)) (decode b max_size t x st))
      → Agrees Valid readable
          (Parse.◌>>=◌
            (parse_number w8 (readable st))
            (parse_array (max_size t) (parse max_size t)))
          (then_decode
            (Stream.decode b w8 0 st)
            (λ _. old)
            (λ n st'. resize (max_size t) (fresh t) n old >>= λ ms.
              decode_elements (decode b max_size t) ms st'))
  array-Agrees t old st v each =
      then-Agrees r bytes (parse_number w8 (readable st))
        (parse_array (max_size t) (parse max_size t)) (Stream.decode b w8 0 st) (λ _. old)
        (λ n st'. resize (max_size t) (fresh t) n old >>= λ ms.
          decode_elements (decode b max_size t) ms st')
        (number-Agrees r bytes w8 0 st v) (λ n st' v'. resized-Agrees t old n st' v' each)

  -- The member that the number stands for.
  here-Agrees :
      {A B : Type 0} (p : Parsed A) (run : Option (Error × A × S))
      (after : S → Option (Error × Option B × S))
      → Agrees Valid readable p run
      → ((st : S) → after st ≡ some (no_error, none, st))
      → Agrees Valid readable
          (Parse.◌>>=◌
            (Parse.◌>>=◌ {B = A ⊎ B} p (λ m rest. ok (inl m) rest))
            (λ a rest. ok (some a) rest))
          (then_decode run
            (λ m. some (inl m))
            (λ m st'. after st' >>= λ q. some (q.0, keep_first m q.1, q.2)))
  here-Agrees (ok m rest) run after h skip = (h.0, rw (h.1, skip h.0) refl, h.2, h.3)
  here-Agrees (fail e) run after h skip = (h.0, some (inl h.1), rw (h.2, h.4) refl, h.3, h.4)
  here-Agrees throws run after h skip = rw h refl

  -- A member before it.
  there-Agrees :
      (A : Type 0) {B : Type 0} (p : Parsed B) (run : Option (Error × Option B × S))
      → Agrees Valid readable (Parse.◌>>=◌ p (λ a rest. ok (some a) rest)) run
      → Agrees Valid readable
          (Parse.◌>>=◌
            (Parse.◌>>=◌ {B = A ⊎ B} p (λ a rest. ok (inr a) rest))
            (λ a rest. ok (some a) rest))
          (run >>= λ q. some (q.0, in_rest q.1, q.2))
  there-Agrees A (ok m rest) run h = (h.0, rw h.1 refl, h.2, h.3)
  there-Agrees A (fail e) run h = (h.0, in_rest h.1, rw h.2 refl, h.3, h.4)
  there-Agrees A throws run h = rw h refl

  -- The variant as a whole.
  whole-Agrees :
      {A : Type 0} (p : Parsed A) (old : A) (run : Option (Error × Option A × S))
      → Agrees Valid readable (Parse.◌>>=◌ p (λ a rest. ok (some a) rest)) run
      → Agrees Valid readable p (run >>= λ q. some (q.0, or_old old q.1, q.2))
  whole-Agrees (ok m rest) old run h = (h.0, rw h.1 refl, h.2, h.3)
  whole-Agrees (fail e) old run h = (h.0, or_old old h.1, rw h.2 refl, h.3, h.4)
  whole-Agrees throws old run h = rw h refl

  alternative-Agrees :
      (cs : Choices) (id : ℕ) (old : Alternatives cs) (st : S)
      → Valid st
      → (id < count cs
          → Agrees Valid readable
              (Parse.◌>>=◌ (parse_union max_size cs id (readable st)) (λ a rest. ok (some a) rest))
              (decode_union b max_size cs 0 id (some old) st))
      → Agrees Valid readable (parse_union max_size cs id (readable st)) (
          if leb (count cs) id
          then some (no_such_alternative, old, st)
          else (decode_union b max_size cs 0 id (some old) st >>= λ q.
              some (q.0, or_old old q.1, q.2)))
  alternative-Agrees cs id old st v h = elim (lt_or_le id (count cs)) [
    | inl small ↦ rw (lt→leb (count cs) id small) (
        whole-Agrees (parse_union max_size cs id (readable st)) old
          (decode_union b max_size cs 0 id (some old) st) (h small))
    | inr large ↦
        rw (le→leb (count cs) id large, parse_union_past max_size cs id (readable st) large)
          (st, old, refl, v, refl)
  ]

  mutual
    unfolding decode parse decode_number count

    decode-Agrees :
        (t : Schema) (old : Message t) (st : S)
        → Valid st
        → Agrees Valid readable (parse max_size t (readable st)) (decode b max_size t old st)
    decode-Agrees (primitive t n) old st v = number-Agrees r bytes n 0 st v
    decode-Agrees string old st v = string-Agrees r bytes old st v
    decode-Agrees (array t) old st v = array-Agrees t old st v (decode-Agrees t)
    decode-Agrees (tuple ts) old st v = tuple-Agrees ts old st v
    decode-Agrees (struct ts) old st v = struct-Agrees ts old st v
    decode-Agrees (union cs) old st v =
        then-Agrees r bytes (parse_number w4 (readable st)) (parse_union max_size cs)
          (Stream.decode b w4 0 st) (λ _. old)
          (λ id st'.
            if leb (count cs) id
            then some (no_such_alternative, old, st')
            else (decode_union b max_size cs 0 id (some old) st' >>= λ q.
                some (q.0, or_old old q.1, q.2)))
          (number-Agrees r bytes w4 0 st v)
          (λ id st' v'.
            alternative-Agrees cs id old st' v'
              (λ small. union-Agrees cs 0 id id (some old) st' v' (omega arith) small))

    tuple-Agrees :
        (ts : Schemas) (old : Messages ts) (st : S)
        → Valid st
        → Agrees Valid readable
            (parse_tuple max_size ts (readable st))
            (decode_tuple b max_size ts old st)
    tuple-Agrees nil old st v = (st, refl, v, refl)
    tuple-Agrees (cons t ts) old st v =
        then-Agrees r bytes (parse max_size t (readable st))
          (λ m bs. Parse.◌>>=◌ (parse_tuple max_size ts bs) (λ ms rest. ok (m, ms) rest))
          (decode b max_size t old.0 st) (λ m. (m, old.1))
          (λ m st'.
            then_decode (decode_tuple b max_size ts old.1 st') (λ ms. (m, ms))
              (λ ms st''. some (no_error, (m, ms), st'')))
          (decode-Agrees t old.0 st v)
          (λ m st' v'.
            done-Agrees r bytes (parse_tuple max_size ts (readable st')) (λ ms. (m, ms))
              (decode_tuple b max_size ts old.1 st') (λ ms. (m, ms)) (tuple-Agrees ts old.1 st' v'))

    struct-Agrees :
        (ts : Members) (old : Fields ts) (st : S)
        → Valid st
        → Agrees Valid readable
            (parse_struct max_size ts (readable st))
            (decode_struct b max_size ts old st)
    struct-Agrees end old st v = (st, refl, v, refl)
    struct-Agrees (member t k ts) old st v =
        then-Agrees r bytes (parse max_size t (readable st))
          (λ m bs. Parse.◌>>=◌ (parse_struct max_size ts bs) (λ ms rest. ok (m, ms) rest))
          (decode b max_size t old.0 st) (λ m. (m, old.1))
          (λ m st'.
            then_decode (decode_struct b max_size ts old.1 st') (λ ms. (m, ms))
              (λ ms st''. some (no_error, (m, ms), st'')))
          (decode-Agrees t old.0 st v)
          (λ m st' v'.
            done-Agrees r bytes (parse_struct max_size ts (readable st')) (λ ms. (m, ms))
              (decode_struct b max_size ts old.1 st') (λ ms. (m, ms))
              (struct-Agrees ts old.1 st' v'))

    union-Agrees :
        (cs : Choices) (i j id : ℕ) (old : Option (Alternatives cs)) (st : S)
        → Valid st
        → id ≡ i + j
        → j < count cs
        → Agrees Valid readable
            (Parse.◌>>=◌ (parse_union max_size cs j (readable st)) (λ a rest. ok (some a) rest))
            (decode_union b max_size cs i id old st)
    union-Agrees (last t k) i zero id old st v e h = rw (same id i (omega arith)) (
        done-Agrees r bytes (parse max_size t (readable st)) some
          (decode b max_size t (init_last (fresh t) old) st) some
          (decode-Agrees t (init_last (fresh t) old) st v))
    union-Agrees (last t k) i (suc j) id old st v e h = absurd (omega arith)
    union-Agrees (choice t k cs) i zero id old st v e h = rw (same id i (omega arith)) (
        here-Agrees (parse max_size t (readable st))
          (decode b max_size t (init_first (fresh t) old) st)
          (decode_union b max_size cs (suc i) id none)
          (decode-Agrees t (init_first (fresh t) old) st v)
          (λ st'. skip_lem b max_size cs (suc i) id st' (omega arith)))
    union-Agrees (choice t k cs) i (suc j) id old st v e h = rw (other id i (omega arith)) (
        there-Agrees (Message t) (parse_union max_size cs j (readable st))
          (decode_union b max_size cs (suc i) id (past_first old) st)
          (union-Agrees cs (suc i) j id (past_first old) st v (omega arith) (omega arith)))

  -- In a valid buffer that keeps the contract of a reader and holds bytes, decoding agrees with
  -- parsing the bytes that can be read, whatever the message held before: the parsed value is
  -- returned and what follows is left, or the parser's error is reported. In these cases the call
  -- returns, so that no assertion fails. It does not return, since the resize throws, exactly where the
  -- parser meets an array that is announced to be longer than a vector of its elements can be, and there
  -- before any of its elements is read.
  pub decode_refines :
      (t : Schema) (old : Message t) (st : S)
      → Valid st
      → Agrees Valid readable (parse max_size t (readable st)) (decode b max_size t old st)
  decode_refines = decode-Agrees
