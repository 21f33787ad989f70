-- ===== src/Codec/Decode/Agree.antt =====
-- When a decoder over a buffer agrees with a parser over the bytes that can be read.
use mathlib.Core.Path.{subst}
use forstio.Prelude.{
  ℕ, ◌≡◌, refl, sym, ap, ◌∙◌, true, Option, none, some, List, [], ◌∷◌, ◌++◌, length, take, drop,
  le→ltb, lt→ltb, lt_or_le, inl, inr,
}
use forstio.Prelude.Laws.{take-append-drop, length-take}
use forstio.Error.{Error, no_error, failed}
use forstio.Buffer.Defs.{Buffer}
use forstio.Buffer.Contract.{IsReader}
use forstio.Buffer.Contract.Load.{load_each, load_each_lem}
use forstio.Stream.Defs.{Width, w8, size}
use forstio.Stream.Defs as Stream
use forstio.Stream.Bytes.{AreBytes, AreBytes-left}
use forstio.Stream.Decode.{decode-Decoded, decode-refused}
use forstio.Codec.Steps.{then_decode, decode_elements}
use forstio.Codec.Parse.{Parsed, ok, fail, throws, parse_number, parse_characters, parse_elements}
use forstio.Codec.Parse as Parse
use forstio.Codec.Decode.{decode_characters, decode_string}

-- A parsed value is returned without an error, in a state that has the rest to read; an error is
-- reported as it is, in a valid state; and too long an array ends in an exception.
abbrev pub Agrees :
    {S A : Type 0} (Valid : S → Type 0) (readable : S → List ℕ)
    → Parsed A
    → Option (Error × A × S)
    → Type 0
Agrees {S} {A} Valid readable (ok m rest) run =
    (st : S) × (run ≡ some (no_error, m, st)) × Valid st × (readable st ≡ rest)
Agrees {S} {A} Valid readable (fail e) run =
    (st : S) × (m : A) × (run ≡ some (e, m, st)) × Valid st × (failed e ≡ true)
Agrees {S} {A} Valid readable throws run = run ≡ none

module _ {S : Type 0} {b : Buffer S} {Valid : S → Type 0} {readable : S → List ℕ}
    (r : IsReader b Valid readable) (bytes : (s : S) → Valid s → AreBytes (readable s)) where
  pub then-Agrees :
      {A B : Type 0} (p : Parsed A) (q : A → List ℕ → Parsed B) (run : Option (Error × A × S))
      (keep : A → B) (k : A → S → Option (Error × B × S))
      → Agrees Valid readable p run
      → ((m : A) (st : S) → Valid st → Agrees Valid readable (q m (readable st)) (k m st))
      → Agrees Valid readable (Parse.◌>>=◌ p q) (then_decode run keep k)
  then-Agrees (ok m rest) q run keep k h next =
      rw h.1 (subst (λ (c : List ℕ). Agrees Valid readable (q m c) (k m h.0)) h.3 (next m h.0 h.2))
  then-Agrees (fail e) q run keep k h next = (h.0, keep h.1, rw (h.2, h.4) refl, h.3, h.4)
  then-Agrees throws q run keep k h next = rw h refl

  -- The last step only builds the value.
  pub done-Agrees :
      {A B : Type 0} (p : Parsed A) (g : A → B) (run : Option (Error × A × S)) (keep : A → B)
      → Agrees Valid readable p run
      → Agrees Valid readable
          (Parse.◌>>=◌ p (λ a rest. ok (g a) rest))
          (then_decode run keep (λ a st. some (no_error, g a, st)))
  done-Agrees p g run keep h =
      then-Agrees p (λ a rest. ok (g a) rest) run keep (λ a st. some (no_error, g a, st)) h
        (λ m st v. (st, refl, v, refl))

  pub number-Agrees :
      (w : Width) (val : ℕ) (st : S)
      → Valid st
      → Agrees Valid readable (parse_number w (readable st)) (Stream.decode b w val st)
  unfolding parse_number
  number-Agrees w val st v = elim (lt_or_le (length (readable st)) (size w)) [
    | inl short ↦
        rw (lt→ltb (length (readable st)) (size w) short)
          (st, val, decode-refused r w val st v short, v, refl)
    | inr fit ↦
        let bs = take (size w) (readable st) in
        let rest = drop (size w) (readable st) in
        let e : bs ++ rest ≡ readable st = take-append-drop (size w) (readable st) in
        let d =
          decode-Decoded r w val st bs rest v (sym e)
            (AreBytes-left bs rest (subst AreBytes (sym e) (bytes st v)))
            (length-take (size w) (readable st) fit) in
        rw (le→ltb (length (readable st)) (size w) fit)
          (d.state, d.returned, d.valid, d.readable_after)
  ]

  characters-Agrees :
      (old : List ℕ) (n : ℕ) (st : S)
      → Valid st
      → Agrees Valid readable (parse_characters n (readable st)) (decode_characters b old n st)
  unfolding decode_characters parse_characters
  characters-Agrees old n st v = elim (lt_or_le (length (readable st)) n) [
    | inl short ↦
        rw (lt→ltb (length (readable st)) n short)
          (st, old, rw (r.composite st v, lt→ltb (length (readable st)) n short) refl, v, refl)
    | inr fit ↦
        let a = r.advance st n v fit in
        let bs = take n (readable st) in
        let l : load_each b st 0 n ≡ some bs =
          ap (load_each b st 0) (sym (length-take n (readable st) fit))
          ∙ load_each_lem r st 0 bs (drop n (readable st)) v
              (sym (take-append-drop n (readable st))) in
        rw (le→ltb (length (readable st)) n fit) (
          a.state,
          rw (r.composite st v, le→ltb (length (readable st)) n fit, l, a.moved) refl,
          a.valid,
          a.readable_after,
        )
  ]

  pub string-Agrees :
      (old : List ℕ) (st : S)
      → Valid st
      → Agrees Valid readable
          (Parse.◌>>=◌ (parse_number w8 (readable st)) parse_characters)
          (decode_string b old st)
  unfolding decode_string
  string-Agrees old st v = elim (lt_or_le (length (readable st)) 8) [
    | inl short ↦
        rw (r.composite st v, lt→ltb (length (readable st)) 8 short)
          (unfold parse_number in
            rw (lt→ltb (length (readable st)) 8 short) (st, old, refl, v, refl))
    | inr fit ↦
        rw (r.composite st v, le→ltb (length (readable st)) 8 fit)
          (then-Agrees (parse_number w8 (readable st)) parse_characters (Stream.decode b w8 0 st)
            (λ _. old) (decode_characters b old) (number-Agrees w8 0 st v)
            (λ n st' v'. characters-Agrees old n st' v'))
  ]

  pub elements-Agrees :
      {A : Type 0} (g : List ℕ → Parsed A) (f : A → S → Option (Error × A × S))
      → ((x : A) (st : S) → Valid st → Agrees Valid readable (g (readable st)) (f x st))
      → (xs : List A) (st : S) → Valid st
      → Agrees Valid readable (parse_elements g (length xs) (readable st)) (decode_elements f xs st)
  unfolding parse_elements decode_elements
  elements-Agrees g f each [] st v = (st, refl, v, refl)
  elements-Agrees g f each (x ∷ xs) st v =
      then-Agrees (g (readable st))
        (λ y bs. Parse.◌>>=◌ (parse_elements g (length xs) bs) (λ ys rest. ok (y ∷ ys) rest))
        (f x st) (λ y. y ∷ xs)
        (λ y st'.
          then_decode (decode_elements f xs st') (λ ys. y ∷ ys)
            (λ ys st''. some (no_error, y ∷ ys, st'')))
        (each x st v)
        (λ y st' v'.
          done-Agrees (parse_elements g (length xs) (readable st')) (λ ys. y ∷ ys)
            (decode_elements f xs st') (λ ys. y ∷ ys) (elements-Agrees g f each xs st' v'))
