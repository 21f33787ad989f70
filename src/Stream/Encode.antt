-- ===== src/Stream/Encode.antt =====
-- Encoding a number appends its bytes.
use mathlib.Core.Path.{subst, fun_ext}
use native.Mathlib.Nat.{div-div-eq-div-mul}
use forstio.Prelude.{
  ℕ, suc, zero, ◌*◌, ◌/◌, ◌%◌, ◌^◌, ◌≤◌, ◌<◌, ◌≡◌, refl, sym, ap, ◌∙◌, Option, some, List, [], ◌∷◌,
  ◌++◌, length, drop, arith, ◌>>=◌,
}
use forstio.Error.{Error, no_error}
use forstio.Buffer.Defs.{Buffer, store, too_small, push}
use forstio.Buffer.Contract.{IsWriter, Refuses}
use forstio.Buffer.Contract.Append.{store_each, store_each-Filled, advance-Appended}
use forstio.Buffer.Push.{push-Appended, push-refused}
use forstio.Stream.Defs.{Width, w1, w2, w4, w8, size, write_loop, encode_shift, encode}
use forstio.Stream.Bytes.{le_bytes, length-le_bytes, shift_suc}

-- `run` reports no error and has written `bs` more than `s`.
pub record Encoded {S : Type 0} (Valid : S → Type 0) (spare written : S → List ℕ) (s : S)
    (bs : List ℕ) (run : Option (Error × S)) : Type 0 where
  pub state : S
  pub returned : run ≡ some (no_error, state)
  pub valid : Valid state
  pub spare_after : spare state ≡ drop (length bs) (spare s)
  pub written_after : written state ≡ written s ++ bs

shifted : (raw i : ℕ) → raw / 2 ^ (i * 8) / 256 ≡ raw / 2 ^ (suc i * 8)
shifted raw i =
    div-div-eq-div-mul raw (2 ^ (i * 8)) 256 ∙ ap (λ k. raw / k) (omega (arith, shift_suc i))

one_byte : (raw : ℕ) → raw < 2 ^ (1 * 8) → raw ∷ [] ≡ le_bytes 1 raw
unfolding le_bytes
one_byte raw h = ap (λ k. k ∷ []) (omega arith)

module _ {S : Type 0} (b : Buffer S) where
  write_loop-store_each :
      (s : S) (raw i n : ℕ)
      → write_loop b s raw i n ≡ store_each b s i (le_bytes n (raw / 2 ^ (i * 8)))
  unfolding write_loop store_each le_bytes
  write_loop-store_each s raw i zero = refl
  write_loop-store_each s raw i (suc n) =
      ap (λ (rest : S → Option S). store b s i (raw / 2 ^ (i * 8) % 256) >>= rest)
        (fun_ext λ s'.
          write_loop-store_each s' raw (suc i) n
          ∙ ap (λ k. store_each b s' (suc i) (le_bytes n k)) (sym (shifted raw i)))

module _ {S : Type 0} {b : Buffer S} {Valid : S → Type 0} {spare written : S → List ℕ}
    (w : IsWriter b Valid spare written) where
  encode_shift-Encoded :
      (n raw : ℕ) (s : S)
      → Valid s
      → 1 ≤ n
      → n ≤ length (spare s)
      → Encoded Valid spare written s (le_bytes n raw) (encode_shift b n raw s)
  unfolding encode_shift
  encode_shift-Encoded n raw s v one fit =
      let len = length-le_bytes n raw in
      let e : write_loop b s raw 0 n ≡ store_each b s 0 (le_bytes n raw) =
        write_loop-store_each b s raw 0 n
        ∙ ap (λ k. store_each b s 0 (le_bytes n k)) (omega arith) in
      let f = store_each-Filled w s 0 (le_bytes n raw) v (omega arith) in
      let a = advance-Appended w s (le_bytes n raw) f (omega arith) (omega arith) in
      let moved : b.write_advance f.state n ≡ some a.state =
        ap (b.write_advance f.state) (sym len)
        ∙ ap (λ run. run >>= λ s'. b.write_advance s' (length (le_bytes n raw))) (sym f.returned)
        ∙ a.returned in
      record {
        state = a.state;
        returned = rw (w.fits s n v fit, e, f.returned, moved) refl;
        valid = a.valid;
        spare_after = a.spare_after;
        written_after = a.written_after;
      }

  -- In a valid buffer that keeps the contract of a writer and has the room, a number in the range of
  -- its width is encoded as its bytes, the lowest first, without an error.
  pub encode-Encoded :
      (t : Width) (raw : ℕ) (s : S)
      → Valid s
      → raw < 2 ^ (size t * 8)
      → size t ≤ length (spare s)
      → Encoded Valid spare written s (le_bytes (size t) raw) (encode b t raw s)
  unfolding encode
  encode-Encoded w1 raw s v small fit =
      let r = push-Appended w s (raw ∷ []) v fit in
      subst (λ bs. Encoded Valid spare written s bs (push b s (raw ∷ []))) (one_byte raw small)
        (record {
          state = r.0;
          returned = r.1;
          valid = r.2;
          spare_after = r.3;
          written_after = r.4;
        })
  encode-Encoded w2 raw s v small fit = encode_shift-Encoded 2 raw s v (omega arith) fit
  encode-Encoded w4 raw s v small fit = encode_shift-Encoded 4 raw s v (omega arith) fit
  encode-Encoded w8 raw s v small fit = encode_shift-Encoded 8 raw s v (omega arith) fit

  -- In a valid buffer that keeps the contract of a writer and refuses what does not fit, a number
  -- that does not fit is refused with the error for a buffer that is too small, and the buffer
  -- stays as it is.
  pub encode-refused :
      (t : Width) (raw : ℕ) (s : S)
      → Refuses b Valid spare
      → Valid s
      → length (spare s) < size t
      → encode b t raw s ≡ some (too_small, s)
  unfolding encode encode_shift
  encode-refused w1 raw s no_room v h = push-refused w s (raw ∷ []) no_room v h (omega arith)
  encode-refused w2 raw s no_room v h = rw (no_room s 2 v h (omega arith)) refl
  encode-refused w4 raw s no_room v h = rw (no_room s 4 v h (omega arith)) refl
  encode-refused w8 raw s no_room v h = rw (no_room s 8 v h (omega arith)) refl
