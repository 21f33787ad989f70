-- ===== src/Stream/Decode.antt =====
-- Decoding a number takes its bytes.
use native.Mathlib.Nat.{pow-le-pow_right, mod-eq_of_lt, le_trans}
use forstio.Prelude.{
  ℕ, suc, ◌+◌, ◌*◌, ◌%◌, ◌^◌, ◌≤◌, ◌<◌, ◌≡◌, refl, sym, ap, ap₂, ◌∙◌, Option, some, List, [], ◌∷◌,
  ◌++◌, length, take, drop, arith, bit_or, lt→ltb, le→ltb,
}
use forstio.Prelude.Laws.{drop-drop, drop-length_append, length-append}
use forstio.Prelude.Bits.{bit_or-high}
use forstio.Error.{Error, no_error}
use forstio.Buffer.Defs.{Buffer, too_small}
use forstio.Buffer.Contract.{IsReader}
use forstio.Buffer.Contract.Load.{load_lem}
use forstio.Buffer.Pop.{pop_lem, pop-refused}
use forstio.Stream.Defs.{Width, w1, w2, w4, w8, size, read_loop, decode_shift, decode, only}
use forstio.Stream.Bytes.{le_value, AreBytes, shift_suc}

-- `run` reports no error, hands out `value` and leaves `rest` to read.
pub record Decoded {S : Type 0} (Valid : S → Type 0) (readable : S → List ℕ) (value : ℕ)
    (rest : List ℕ) (run : Option (Error × ℕ × S)) : Type 0 where
  pub state : S
  pub returned : run ≡ some (no_error, value, state)
  pub valid : Valid state
  pub readable_after : readable state ≡ rest

value_step : (raw x l p q : ℕ) → q ≡ 256 * p → raw + x * p + l * q ≡ raw + (x + 256 * l) * p
value_step raw x l p q e = rw e (omega arith)

-- One round: the byte goes above the bits that are there, and nothing is cut off.
round_lem :
    (bits i raw v : ℕ)
    → raw < 2 ^ (i * 8)
    → v < 256
    → suc i * 8 ≤ bits
    → (bit_or raw (v * 2 ^ (i * 8)) % 2 ^ bits ≡ raw + v * 2 ^ (i * 8))
      × (raw + v * 2 ^ (i * 8) < 2 ^ (suc i * 8))
round_lem bits i raw v small byte fit =
    let above : raw + v * 2 ^ (i * 8) < 2 ^ (suc i * 8) = grind (arith, shift_suc i) in
    (
      rw (bit_or-high (i * 8) raw v small)
          (mod-eq_of_lt (le_trans above (pow-le-pow_right {n = 2} (omega arith) fit))),
      above,
    )

module _ {S : Type 0} {b : Buffer S} {Valid : S → Type 0} {readable : S → List ℕ}
    (r : IsReader b Valid readable) where
  read_loop_lem :
      (bits : ℕ) (s : S) (i raw : ℕ) (bs rest : List ℕ)
      → Valid s
      → drop i (readable s) ≡ bs ++ rest
      → AreBytes bs
      → raw < 2 ^ (i * 8)
      → (i + length bs) * 8 ≤ bits
      → read_loop b bits s i raw (length bs) ≡ some (raw + le_value bs * 2 ^ (i * 8))
  unfolding read_loop le_value
  read_loop_lem bits s i raw [] rest v e bytes small fit = ap some (omega arith)
  read_loop_lem bits s i raw (x ∷ xs) rest v e bytes small fit =
      let t = round_lem bits i raw x small bytes.0 (omega arith) in
      let next : drop (suc i) (readable s) ≡ xs ++ rest =
        ap (λ k. drop k (readable s)) {x = suc i} {y = i + 1} (omega arith)
        ∙ sym (drop-drop 1 i (readable s))
        ∙ ap (drop 1) e in
      rw (load_lem r s i x v e, t.0)
        (read_loop_lem bits s (suc i) (raw + x * 2 ^ (i * 8)) xs rest v next bytes.1 t.1
            (omega arith)
          ∙ ap some (value_step raw x (le_value xs) (2 ^ (i * 8)) (2 ^ (suc i * 8)) (shift_suc i)))

  decode_shift-Decoded :
      (n val : ℕ) (s : S) (bs rest : List ℕ)
      → Valid s
      → readable s ≡ bs ++ rest
      → AreBytes bs
      → length bs ≡ n
      → Decoded Valid readable (le_value bs) rest (decode_shift b n val s)
  unfolding decode_shift
  decode_shift-Decoded n val s bs rest v e bytes len =
      let fit : n ≤ length (readable s) = omega (arith, length-append bs rest, ap length e) in
      let l : read_loop b (n * 8) s 0 0 (length bs) ≡ some (0 + le_value bs * 2 ^ (0 * 8)) =
        read_loop_lem (n * 8) s 0 0 bs rest v e bytes (omega arith) (omega arith) in
      let loop : read_loop b (n * 8) s 0 0 n ≡ some (le_value bs) =
        ap (read_loop b (n * 8) s 0 0) (sym len) ∙ l ∙ ap some (omega arith) in
      let a = r.advance s n v fit in
      record {
        state = a.state;
        returned = rw (r.composite s v, le→ltb (length (readable s)) n fit, loop, a.moved) refl;
        valid = a.valid;
        readable_after = a.readable_after ∙ ap₂ drop (sym len) e ∙ drop-length_append bs rest;
      }

  decode_one-Decoded :
      (val : ℕ) (s : S) (x : ℕ) (rest : List ℕ)
      → Valid s
      → readable s ≡ x ∷ rest
      → Decoded Valid readable (le_value (x ∷ [])) rest (decode b w1 val s)
  unfolding decode le_value
  decode_one-Decoded val s x rest v e =
      let p = pop_lem r s (val ∷ []) 1 v (omega (arith, ap length e)) in
      let got : only b val (take 1 (readable s) ++ drop 1 (val ∷ [])) ≡ x + 256 * 0 =
        ap (λ (c : List ℕ). only b val (take 1 c ++ drop 1 (val ∷ []))) e ∙ omega arith in
      record {
        state = p.0;
        returned = rw p.1 (ap (λ k. some (no_error, k, p.0)) got);
        valid = p.2;
        readable_after = p.3 ∙ ap (drop 1) e;
      }

  -- In a valid buffer that keeps the contract of a reader, a number is decoded from the bytes of its
  -- width at the front, the lowest first, whatever its target held, and what follows is left.
  pub decode-Decoded :
      (t : Width) (val : ℕ) (s : S) (bs rest : List ℕ)
      → Valid s
      → readable s ≡ bs ++ rest
      → AreBytes bs
      → length bs ≡ size t
      → Decoded Valid readable (le_value bs) rest (decode b t val s)
  unfolding decode
  decode-Decoded w1 val s [] rest v e bytes len = absurd (omega arith)
  decode-Decoded w1 val s (x ∷ []) rest v e bytes len = decode_one-Decoded val s x rest v e
  decode-Decoded w1 val s (x ∷ y ∷ ys) rest v e bytes len = absurd (omega arith)
  decode-Decoded w2 val s bs rest v e bytes len = decode_shift-Decoded 2 val s bs rest v e bytes len
  decode-Decoded w4 val s bs rest v e bytes len = decode_shift-Decoded 4 val s bs rest v e bytes len
  decode-Decoded w8 val s bs rest v e bytes len = decode_shift-Decoded 8 val s bs rest v e bytes len

  -- In a valid buffer that keeps the contract of a reader, with too few bytes to read the error for a
  -- buffer that is too small is reported, and neither target nor buffer changes.
  pub decode-refused :
      (t : Width) (val : ℕ) (s : S)
      → Valid s
      → length (readable s) < size t
      → decode b t val s ≡ some (too_small, val, s)
  unfolding decode decode_shift
  decode-refused w1 val s v h = rw (pop-refused r s (val ∷ []) 1 v h) refl
  decode-refused w2 val s v h = rw (r.composite s v, lt→ltb (length (readable s)) 2 h) refl
  decode-refused w4 val s v h = rw (r.composite s v, lt→ltb (length (readable s)) 4 h) refl
  decode-refused w8 val s v h = rw (r.composite s v, lt→ltb (length (readable s)) 8 h) refl
