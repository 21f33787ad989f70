-- ===== src/Codec/Encode/Correct.antt =====
-- Encoding a message appends its payload.
use mathlib.Core.Path.{subst}
use forstio.Prelude.{
  ℕ, suc, ◌+◌, ◌*◌, ◌%◌, ◌^◌, ◌≤◌, ◌<◌, ◌≡◌, refl, sym, ap, ◌∙◌, Option, some, List, [], ◌∷◌, ◌++◌,
  inl, inr, length, drop, add_size, ◌>>=◌, arith, append_assoc, append-nil,
}
use forstio.Prelude.Laws.{length-append, length-drop, drop-drop}
use forstio.Error.{Error, no_error}
use forstio.Buffer.Defs.{Buffer}
use forstio.Buffer.Contract.{IsWriter, WriteAdvanced}
use forstio.Buffer.Contract.Append.{store_each, store_each-Filled, advance-Appended}
use forstio.Stream.Defs.{w4, w8}
use forstio.Stream.Defs as Stream
use forstio.Stream.Bytes.{le_bytes, length-le_bytes}
use forstio.Stream.Encode.{Encoded, encode-Encoded}
use forstio.Message.Schema.{
  Schema, primitive, string, array, tuple, struct, union, Schemas, nil, cons, Members, end, member,
  Choices, last, choice,
}
use forstio.Message.Value.{
  Message, Messages, Fields, Alternatives, index, AllFit, Fits, FitsTuple, FitsStruct, FitsUnion,
}
use forstio.Codec.Steps.{then_encode, encode_elements}
use forstio.Codec.Format.{concat_map, payload, payload_tuple, payload_struct, payload_union}
use forstio.Codec.Encode.{encode_string, encode, encode_tuple, encode_struct, encode_union}

module _ {S : Type 0} {b : Buffer S} {Valid : S → Type 0} {spare written : S → List ℕ}
    (w : IsWriter b Valid spare written)
    (idle : (s : S) → Valid s → WriteAdvanced b Valid spare written s 0) where
  -- `run` is to append `bs` to `s`, if they fit.
  abbrev Appends : S → List ℕ → Option (Error × S) → Type 0
  Appends s bs run = length bs ≤ length (spare s) → Encoded Valid spare written s bs run

  nothing-Appends : (s : S) → Valid s → Appends s [] (some (no_error, s))
  nothing-Appends s v _ = record {
    state = s;
    returned = refl;
    valid = v;
    spare_after = refl;
    written_after = sym (append-nil (written s));
  }

  then-Appends :
      (s : S) (xs ys : List ℕ) (run : Option (Error × S)) (k : S → Option (Error × S))
      → Appends s xs run
      → ((s' : S) → Valid s' → Appends s' ys (k s'))
      → Appends s (xs ++ ys) (then_encode run k)
  then-Appends s xs ys run k first rest fit =
      let p = first (omega (arith, length-append xs ys)) in
      let q =
        rest p.state p.valid
          (rw (p.spare_after, length-drop) (omega (arith, length-append xs ys))) in
      record {
        state = q.state;
        returned = rw p.returned q.returned;
        valid = q.valid;
        spare_after =
            q.spare_after
            ∙ ap (drop (length ys)) p.spare_after
            ∙ drop-drop (length ys) (length xs) (spare s)
            ∙ ap (λ n. drop n (spare s)) (sym (length-append xs ys));
        written_after =
            q.written_after
            ∙ ap (λ (c : List ℕ). c ++ ys) p.written_after
            ∙ append_assoc (written s) xs ys;
      }

  number-Appends :
      (t : Stream.Width) (n : ℕ) (s : S)
      → Valid s
      → n < 2 ^ (Stream.size t * 8)
      → Appends s (le_bytes (Stream.size t) n) (Stream.encode b t n s)
  number-Appends t n s v small fit =
      encode-Encoded w t n s v small (omega (arith, length-le_bytes (Stream.size t) n))

  -- The characters of a string.
  characters-Appends :
      (s : S) (bs : List ℕ)
      → Valid s
      → Appends s bs (
          store_each b s 0 bs >>= λ s'.
          b.write_advance s' (length bs) >>= λ s''. some (no_error, s''))
  unfolding store_each
  characters-Appends s [] v fit =
      let a = idle s v in
      record {
        state = a.state;
        returned = rw a.moved refl;
        valid = a.valid;
        spare_after = a.spare_after;
        written_after = a.written_after;
      }
  characters-Appends s (x ∷ xs) v fit =
      let f = store_each-Filled w s 0 (x ∷ xs) v (omega arith) in
      let a = advance-Appended w s (x ∷ xs) f (omega arith) fit in
      let moved : b.write_advance f.state (length (x ∷ xs)) ≡ some a.state =
        ap (λ run. run >>= λ s'. b.write_advance s' (length (x ∷ xs))) (sym f.returned)
        ∙ a.returned in
      record {
        state = a.state;
        returned = rw (f.returned, moved) refl;
        valid = a.valid;
        spare_after = a.spare_after;
        written_after = a.written_after;
      }

  string-Appends :
      (m : List ℕ) (s : S)
      → Valid s
      → length m < 2 ^ 64
      → Appends s (le_bytes 8 (length m) ++ m) (encode_string b m s)
  unfolding encode_string
  string-Appends m s v small fit =
      let need : add_size 8 (length m) ≤ length (spare s) = omega (
        arith,
        length-append (le_bytes 8 (length m)) m,
        length-le_bytes 8 (length m),
        w.small s v,
      ) in
      rw (w.fits s (add_size 8 (length m)) v need) (
        then-Appends s (le_bytes 8 (length m)) m (Stream.encode b w8 (length m) s)
          (λ s'. store_each b s' 0 m >>= λ s''.
            b.write_advance s'' (length m) >>= λ s'''. some (no_error, s'''))
          (number-Appends w8 (length m) s v small) (λ s' v'. characters-Appends s' m v') fit)

  elements-Appends :
      {A : Type 0} (P : A → Type 0) (f : A → S → Option (Error × S)) (g : A → List ℕ)
      → ((x : A) (s : S) → Valid s → P x → Appends s (g x) (f x s))
      → (xs : List A) (s : S) → Valid s
      → AllFit P xs
      → Appends s (concat_map g xs) (encode_elements f xs s)
  unfolding concat_map encode_elements
  elements-Appends P f g each [] s v h = nothing-Appends s v
  elements-Appends P f g each (x ∷ xs) s v h =
      then-Appends s (g x) (concat_map g xs) (f x s) (encode_elements f xs) (each x s v h.0)
        (λ s' v'. elements-Appends P f g each xs s' v' h.1)

  tag-Appends :
      (i j : ℕ) (s : S)
      → Valid s
      → i ≡ j
      → j < 2 ^ 32
      → Appends s (le_bytes 4 j) (Stream.encode b w4 (i % 2 ^ 32) s)
  tag-Appends i j s v e small =
      subst (λ k. Appends s (le_bytes 4 j) (Stream.encode b w4 k s)) {x = j} {y = i % 2 ^ 32}
        (omega arith) (number-Appends w4 j s v small)

  mutual
    unfolding payload encode index

    encode-Appends :
        (t : Schema) (m : Message t) (s : S)
        → Valid s
        → Fits t m
        → Appends s (payload t m) (encode b t m s)
    encode-Appends (primitive t n) m s v h = number-Appends n m s v h
    encode-Appends string m s v h = string-Appends m s v h.1
    encode-Appends (array t) ms s v h =
        then-Appends s (le_bytes 8 (length ms)) (concat_map (payload t) ms)
          (Stream.encode b w8 (length ms) s) (encode_elements (encode b t) ms)
          (number-Appends w8 (length ms) s v h.0)
          (λ s' v'.
            elements-Appends (Fits t) (encode b t) (payload t) (encode-Appends t) ms s' v' h.1)
    encode-Appends (tuple ts) ms s v h = tuple-Appends ts ms s v h
    encode-Appends (struct ts) ms s v h = struct-Appends ts ms s v h
    encode-Appends (union cs) a s v h = union-Appends cs 0 (index cs a) a s v (omega arith) h.0 h.1

    tuple-Appends :
        (ts : Schemas) (ms : Messages ts) (s : S)
        → Valid s
        → FitsTuple ts ms
        → Appends s (payload_tuple ts ms) (encode_tuple b ts ms s)
    tuple-Appends nil ms s v h = nothing-Appends s v
    tuple-Appends (cons t ts) ms s v h =
        then-Appends s (payload t ms.0) (payload_tuple ts ms.1) (encode b t ms.0 s)
          (encode_tuple b ts ms.1) (encode-Appends t ms.0 s v h.0)
          (λ s' v'. tuple-Appends ts ms.1 s' v' h.1)

    struct-Appends :
        (ts : Members) (ms : Fields ts) (s : S)
        → Valid s
        → FitsStruct ts ms
        → Appends s (payload_struct ts ms) (encode_struct b ts ms s)
    struct-Appends end ms s v h = nothing-Appends s v
    struct-Appends (member t k ts) ms s v h =
        then-Appends s (payload t ms.0) (payload_struct ts ms.1) (encode b t ms.0 s)
          (encode_struct b ts ms.1) (encode-Appends t ms.0 s v h.0)
          (λ s' v'. struct-Appends ts ms.1 s' v' h.1)

    union-Appends :
        (cs : Choices) (i j : ℕ) (a : Alternatives cs) (s : S)
        → Valid s
        → i + index cs a ≡ j
        → j < 2 ^ 32
        → FitsUnion cs a
        → Appends s (le_bytes 4 j ++ payload_union cs a) (encode_union b cs i a s)
    union-Appends (last t k) i j a s v e small h =
        then-Appends s (le_bytes 4 j) (payload t a) (Stream.encode b w4 (i % 2 ^ 32) s)
          (encode b t a) (tag-Appends i j s v (omega arith) small)
          (λ s' v'. encode-Appends t a s' v' h)
    union-Appends (choice t k cs) i j (inl m) s v e small h =
        then-Appends s (le_bytes 4 j) (payload t m) (Stream.encode b w4 (i % 2 ^ 32) s)
          (encode b t m) (tag-Appends i j s v (omega arith) small)
          (λ s' v'. encode-Appends t m s' v' h)
    union-Appends (choice t k cs) i j (inr a) s v e small h =
        union-Appends cs (suc i) j a s v (omega arith) small h

  -- In a valid buffer that keeps the contract of a writer and lets one advance by no bytes, a message
  -- in the ranges of its types whose payload fits is encoded as exactly its payload, and no error
  -- is reported.
  pub encode-Encoded-payload :
      (t : Schema) (m : Message t) (s : S)
      → Valid s
      → Fits t m
      → length (payload t m) ≤ length (spare s)
      → Encoded Valid spare written s (payload t m) (encode b t m s)
  encode-Encoded-payload = encode-Appends
