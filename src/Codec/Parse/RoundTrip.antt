-- ===== src/Codec/Parse/RoundTrip.antt =====
-- Parsing a payload gives back the message and leaves what follows.
use forstio.Prelude.{
  ℕ, ◌*◌, ◌≤◌, ◌<◌, ◌^◌, ◌≡◌, refl, sym, ap, ap₂, ◌∙◌, List, [], ◌∷◌, ◌++◌, length, take, drop,
  arith, le→ltb, inl, inr, append_assoc,
}
use forstio.Prelude.Laws.{length-append, take-length_append, drop-length_append}
use forstio.Stream.Defs.{Width, size, w4, w8}
use forstio.Stream.Bytes.{le_bytes, le_value, length-le_bytes, le_value-le_bytes}
use forstio.Message.Schema.{
  Schema, primitive, string, array, tuple, struct, union, Schemas, nil, cons, Members, end, member,
  Choices, last, choice,
}
use forstio.Message.Value.{
  Message, Messages, Fields, Alternatives, index, AllFit, Fits, FitsTuple, FitsStruct, FitsUnion,
  IsHeld, IsHeldTuple, IsHeldStruct, IsHeldUnion,
}
use forstio.Codec.Format.{concat_map, payload, payload_tuple, payload_struct, payload_union}
use forstio.Codec.Parse.{
  Parsed, ok, parse_number, parse_characters, parse_elements, parse_array, parse, parse_tuple,
  parse_struct, parse_union, ◌>>=◌,
}

pub parse_number-le_bytes :
    (w : Width) (n : ℕ) (rest : List ℕ)
    → n < 2 ^ (size w * 8)
    → parse_number w (le_bytes (size w) n ++ rest) ≡ ok n rest
unfolding parse_number
parse_number-le_bytes w n rest h =
    let bs = le_bytes (size w) n in
    let len : length bs ≡ size w = length-le_bytes (size w) n in
    rw (le→ltb (length (bs ++ rest)) (size w) (omega (arith, length-append bs rest))) (
      ap₂ ok
        (ap (λ k. le_value (take k (bs ++ rest))) (sym len)
          ∙ ap le_value (take-length_append bs rest)
          ∙ le_value-le_bytes (size w) n h)
        (ap (λ k. drop k (bs ++ rest)) (sym len) ∙ drop-length_append bs rest))

parse_characters_lem : (m rest : List ℕ) → parse_characters (length m) (m ++ rest) ≡ ok m rest
unfolding parse_characters
parse_characters_lem m rest =
    rw (le→ltb (length (m ++ rest)) (length m) (omega (arith, length-append m rest)))
      (ap₂ ok (take-length_append m rest) (drop-length_append m rest))

-- A number in front of what the next step parses.
number-then :
    {A : Type 0} (w : Width) (n : ℕ) (bs rest : List ℕ) (f : ℕ → List ℕ → Parsed A) {a : A}
    → n < 2 ^ (size w * 8)
    → f n (bs ++ rest) ≡ ok a rest
    → (parse_number w ((le_bytes (size w) n ++ bs) ++ rest) >>= f) ≡ ok a rest
number-then w n bs rest f h e =
    ap (λ c. parse_number w c >>= f) (append_assoc (le_bytes (size w) n) bs rest)
    ∙ ap (λ p. p >>= f) (parse_number-le_bytes w n (bs ++ rest) h)
    ∙ e

-- One value in front of the others.
value-then :
    {A B C : Type 0} (xs ys rest : List ℕ) (f : List ℕ → Parsed A) (g : List ℕ → Parsed B)
    (mk : A → B → C) (a : A) (c : B)
    → f (xs ++ (ys ++ rest)) ≡ ok a (ys ++ rest)
    → g (ys ++ rest) ≡ ok c rest
    → (f ((xs ++ ys) ++ rest) >>= λ x bs. g bs >>= λ y bs'. ok (mk x y) bs') ≡ ok (mk a c) rest
value-then xs ys rest f g mk a c p q =
    ap (λ bs. f bs >>= λ x bs'. g bs' >>= λ y bs''. ok (mk x y) bs'') (append_assoc xs ys rest)
    ∙ ap (λ r. r >>= λ x bs'. g bs' >>= λ y bs''. ok (mk x y) bs'') p
    ∙ ap (λ r. r >>= λ y bs''. ok (mk a y) bs'') q

elements_lem :
    {A : Type 0} (P : A → Type 0) (f : List ℕ → Parsed A) (g : A → List ℕ)
    → ((x : A) (rest : List ℕ) → P x → f (g x ++ rest) ≡ ok x rest)
    → (xs : List A) (rest : List ℕ) → AllFit P xs
    → parse_elements f (length xs) (concat_map g xs ++ rest) ≡ ok xs rest
unfolding parse_elements concat_map
elements_lem P f g each [] rest h = refl
elements_lem P f g each (x ∷ xs) rest h =
    value-then (g x) (concat_map g xs) rest f (parse_elements f (length xs)) (λ y ys. y ∷ ys) x xs
      (each x (concat_map g xs ++ rest) h.0) (elements_lem P f g each xs rest h.1)

array_lem :
    {A : Type 0} (P : A → Type 0) (max_size : ℕ) (f : List ℕ → Parsed A) (g : A → List ℕ)
    → ((x : A) (rest : List ℕ) → P x → f (g x ++ rest) ≡ ok x rest)
    → (xs : List A) (rest : List ℕ) → length xs ≤ max_size
    → AllFit P xs
    → parse_array max_size f (length xs) (concat_map g xs ++ rest) ≡ ok xs rest
unfolding parse_array
array_lem P max_size f g each xs rest h all =
    rw (le→ltb max_size (length xs) h) (elements_lem P f g each xs rest all)

AllFit-both :
    {A : Type 0} (P Q : A → Type 0) (xs : List A)
    → AllFit P xs
    → AllFit Q xs
    → AllFit (λ x. P x × Q x) xs
AllFit-both P Q [] h k = tt
AllFit-both P Q (x ∷ xs) h k = ((h.0, k.0), AllFit-both P Q xs h.1 k.1)

module _ (max_size : Schema → ℕ) where
  mutual
    unfolding parse payload index

    message_lem :
        (t : Schema) (m : Message t) (rest : List ℕ)
        → Fits t m
        → IsHeld max_size t m
        → parse max_size t (payload t m ++ rest) ≡ ok m rest
    message_lem (primitive t w) m rest h k = parse_number-le_bytes w m rest h
    message_lem string m rest h k =
        number-then w8 (length m) m rest parse_characters h.1 (parse_characters_lem m rest)
    message_lem (array t) ms rest h k =
        number-then w8 (length ms) (concat_map (payload t) ms) rest
          (parse_array (max_size t) (parse max_size t)) h.0
          (array_lem (λ m. Fits t m × IsHeld max_size t m) (max_size t) (parse max_size t)
            (payload t) (λ m r c. message_lem t m r c.0 c.1) ms rest k.0
            (AllFit-both (Fits t) (IsHeld max_size t) ms h.1 k.1))
    message_lem (tuple ts) ms rest h k = tuple_lem ts ms rest h k
    message_lem (struct ts) ms rest h k = struct_lem ts ms rest h k
    message_lem (union cs) a rest h k =
        number-then w4 (index cs a) (payload_union cs a) rest (parse_union max_size cs) h.0
          (union_lem cs a rest h.1 k)

    tuple_lem :
        (ts : Schemas) (ms : Messages ts) (rest : List ℕ)
        → FitsTuple ts ms
        → IsHeldTuple max_size ts ms
        → parse_tuple max_size ts (payload_tuple ts ms ++ rest) ≡ ok ms rest
    tuple_lem nil ms rest h k = refl
    tuple_lem (cons t ts) ms rest h k =
        value-then (payload t ms.0) (payload_tuple ts ms.1) rest (parse max_size t)
          (parse_tuple max_size ts) (λ m ms'. (m, ms')) ms.0 ms.1
          (message_lem t ms.0 (payload_tuple ts ms.1 ++ rest) h.0 k.0)
          (tuple_lem ts ms.1 rest h.1 k.1)

    struct_lem :
        (ts : Members) (ms : Fields ts) (rest : List ℕ)
        → FitsStruct ts ms
        → IsHeldStruct max_size ts ms
        → parse_struct max_size ts (payload_struct ts ms ++ rest) ≡ ok ms rest
    struct_lem end ms rest h k = refl
    struct_lem (member t k ts) ms rest h held =
        value-then (payload t ms.0) (payload_struct ts ms.1) rest (parse max_size t)
          (parse_struct max_size ts) (λ m ms'. (m, ms')) ms.0 ms.1
          (message_lem t ms.0 (payload_struct ts ms.1 ++ rest) h.0 held.0)
          (struct_lem ts ms.1 rest h.1 held.1)

    union_lem :
        (cs : Choices) (a : Alternatives cs) (rest : List ℕ)
        → FitsUnion cs a
        → IsHeldUnion max_size cs a
        → parse_union max_size cs (index cs a) (payload_union cs a ++ rest) ≡ ok a rest
    union_lem (last t k) a rest h held = message_lem t a rest h held
    union_lem (choice t k cs) (inl m) rest h held = rw (message_lem t m rest h held) refl
    union_lem (choice t k cs) (inr a) rest h held = rw (union_lem cs a rest h held) refl

  -- Every message in the ranges of its types, with arrays no longer than vectors can be, is read back
  -- from its payload, with what follows left.
  pub parse-payload :
      (t : Schema) (m : Message t) (rest : List ℕ)
      → Fits t m
      → IsHeld max_size t m
      → parse max_size t (payload t m ++ rest) ≡ ok m rest
  parse-payload = message_lem
