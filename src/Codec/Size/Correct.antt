-- ===== src/Codec/Size/Correct.antt =====
-- The size that the codec computes is that of the payload.
use forstio.Prelude.{
  ℕ, ◌+◌, ◌<◌, ◌^◌, ◌≡◌, refl, sym, ap, ◌∙◌, List, [], ◌∷◌, ◌++◌, length, arith, inl, inr, add_size,
}
use forstio.Prelude.Laws.{length-append}
use forstio.Stream.Defs.{size}
use forstio.Stream.Bytes.{le_bytes, length-le_bytes}
use forstio.Message.Schema.{
  Schema, primitive, string, array, tuple, struct, union, Schemas, nil, cons, Members, end, member,
  Choices, last, choice,
}
use forstio.Message.Value.{Message, Messages, Fields, Alternatives, index}
use forstio.Codec.Format.{concat_map, payload, payload_tuple, payload_struct, payload_union}
use forstio.Codec.Size.{size_elements, message_size, size_tuple, size_struct, size_union}

-- Two parts one after the other, whose sizes are added.
sum_lem :
    (xs ys : List ℕ) (m n : ℕ)
    → length (xs ++ ys) < 2 ^ 64
    → (length xs < 2 ^ 64 → m ≡ length xs)
    → (length ys < 2 ^ 64 → n ≡ length ys)
    → add_size m n ≡ length (xs ++ ys)
sum_lem xs ys m n h p q =
    let len = length-append xs ys in
    omega (arith, p (omega (arith, len)), q (omega (arith, len)), len)

elements_lem :
    {A : Type 0} (f : A → ℕ) (g : A → List ℕ)
    → ((x : A) → length (g x) < 2 ^ 64 → f x ≡ length (g x))
    → (members : ℕ) (xs : List A) → members + length (concat_map g xs) < 2 ^ 64
    → size_elements f members xs ≡ members + length (concat_map g xs)
unfolding size_elements concat_map
elements_lem f g each members [] h = omega arith
elements_lem f g each members (x ∷ xs) h =
    let len = length-append (g x) (concat_map g xs) in
    let e = each x (omega (arith, len)) in
    let now : add_size members (f x) ≡ members + length (g x) = omega (arith, len) in
    ap (λ k. size_elements f k xs) now
    ∙ elements_lem f g each (members + length (g x)) xs (omega (arith, len))
    ∙ omega (arith, len)

mutual
  unfolding message_size payload index

  message_lem :
      (t : Schema) (m : Message t)
      → length (payload t m) < 2 ^ 64
      → message_size t m ≡ length (payload t m)
  message_lem (primitive t w) m h = sym (length-le_bytes (size w) m)
  message_lem string m h =
      sum_lem (le_bytes 8 (length m)) m 8 (length m) h (λ _. sym (length-le_bytes 8 (length m)))
        (λ _. refl)
  message_lem (array t) ms h =
      let len = length-append (le_bytes 8 (length ms)) (concat_map (payload t) ms) in
      let eight = length-le_bytes 8 (length ms) in
      elements_lem (message_size t) (payload t) (message_lem t) 8 ms (omega (arith, len, eight))
      ∙ omega (arith, len, eight)
  message_lem (tuple ts) ms h = tuple_lem ts ms h
  message_lem (struct ts) ms h = struct_lem ts ms h
  message_lem (union cs) a h =
      sum_lem (le_bytes 4 (index cs a)) (payload_union cs a) 4 (size_union cs a) h
        (λ _. sym (length-le_bytes 4 (index cs a))) (union_lem cs a)

  tuple_lem :
      (ts : Schemas) (ms : Messages ts)
      → length (payload_tuple ts ms) < 2 ^ 64
      → size_tuple ts ms ≡ length (payload_tuple ts ms)
  tuple_lem nil ms h = refl
  tuple_lem (cons t ts) ms h =
      sum_lem (payload t ms.0) (payload_tuple ts ms.1) (message_size t ms.0) (size_tuple ts ms.1) h
        (message_lem t ms.0) (tuple_lem ts ms.1)

  struct_lem :
      (ts : Members) (ms : Fields ts)
      → length (payload_struct ts ms) < 2 ^ 64
      → size_struct ts ms ≡ length (payload_struct ts ms)
  struct_lem end ms h = refl
  struct_lem (member t k ts) ms h =
      sum_lem (payload t ms.0) (payload_struct ts ms.1) (message_size t ms.0) (size_struct ts ms.1)
        h (message_lem t ms.0) (struct_lem ts ms.1)

  union_lem :
      (cs : Choices) (a : Alternatives cs)
      → length (payload_union cs a) < 2 ^ 64
      → size_union cs a ≡ length (payload_union cs a)
  union_lem (last t k) a h = message_lem t a h
  union_lem (choice t k cs) (inl m) h = message_lem t m h
  union_lem (choice t k cs) (inr a) h = union_lem cs a h

-- `size` is the number of bytes of the payload, as long as that is below 2 ^ 64.
pub message_size-length-payload :
    (t : Schema) (m : Message t)
    → length (payload t m) < 2 ^ 64
    → message_size t m ≡ length (payload t m)
message_size-length-payload = message_lem
