-- ===== src/Buffer/Push.antt =====
-- `Buffer::push` of a block and of a byte, over any buffer that keeps the contract of a writer.
use forstio.Prelude.{
  ℕ, suc, zero, ◌+◌, ◌≤◌, ◌<◌, ◌^◌, min, ◌≡◌, refl, sym, ap, ◌∙◌, Option, some, List, [], ◌∷◌, ◌++◌,
  length, take, drop, ◌>>=◌, arith, append_assoc, append-nil, lt→ltb, le→ltb, bind_assoc,
}
use mathlib.Core.Path.{subst}
use forstio.Prelude.Laws.{length-append, length-take, length-drop, take-append-drop, drop-drop}
use forstio.Error.{no_error}
use forstio.Buffer.Defs.{Buffer, push, push_loop, push_byte, too_small, store_block}
use forstio.Buffer.Contract.{IsWriter, WriteSegment, Refuses}
use forstio.Buffer.Contract.Append.{Appended, store_block-Filled, store-Filled, advance-Appended}

module _ {S : Type 0} {b : Buffer S} {Valid : S → Type 0} {spare written : S → List ℕ}
    (w : IsWriter b Valid spare written) where
  -- Two runs of appended bytes, one after the other.
  Appended-append :
      (s : S) (xs ys : List ℕ) {run : Option S} (f : S → Option S)
      (p : Appended Valid spare written s xs run)
      → Appended Valid spare written p.state ys (f p.state)
      → length xs + length ys ≡ length (xs ++ ys)
      → Appended Valid spare written s (xs ++ ys) (run >>= f)
  Appended-append s xs ys f p q len = record {
    state = q.state;
    returned = rw p.returned q.returned;
    valid = q.valid;
    spare_after =
        q.spare_after
        ∙ ap (drop (length ys)) p.spare_after
        ∙ drop-drop (length ys) (length xs) (spare s)
        ∙ ap (λ n. drop n (spare s)) len;
    written_after =
        q.written_after
        ∙ ap (λ (c : List ℕ). c ++ ys) p.written_after
        ∙ append_assoc (written s) xs ys;
  }

  -- One round of the loop.
  round-Appended :
      (s : S) (bs : List ℕ) (n : ℕ) (g : WriteSegment b Valid spare written s 0)
      → 1 ≤ n
      → n ≤ length bs
      → n ≤ g.size
      → Appended Valid spare written s
          (take n bs)
          (store_block b s 0 (take n bs) >>= λ s'. b.write_advance s' n)
  round-Appended s bs n g one len room =
      let e : length (take n bs) ≡ n = length-take n bs len in
      subst
        (λ k.
          Appended Valid spare written s (take n bs)
            (store_block b s 0 (take n bs) >>= λ s'. b.write_advance s' k))
        e
        (advance-Appended w s (take n bs) (store_block-Filled w s 0 (take n bs) g (omega arith))
          (omega arith) (omega (arith, g.inside)))

  push_loop-Appended :
      (fuel : ℕ) (s : S) (bs : List ℕ)
      → Valid s
      → length bs ≤ fuel
      → length bs ≤ length (spare s)
      → Appended Valid spare written s bs (push_loop b fuel s bs)
  unfolding push_loop
  push_loop-Appended fuel s [] v h fit = record {
    state = s;
    returned = refl;
    valid = v;
    spare_after = refl;
    written_after = sym (append-nil (written s));
  }
  push_loop-Appended zero s (x ∷ xs) v h fit = absurd (omega arith)
  push_loop-Appended (suc fuel) s (x ∷ xs) v h fit =
      let g = w.segment s 0 v (omega arith) in
      let bs = x ∷ xs in
      let n : ℕ = min g.size (length bs) in
      let p = round-Appended s bs n g (omega (arith, g.positive)) (omega arith) (omega arith) in
      let e : length (take n bs) ≡ n = length-take n bs (omega arith) in
      let q =
        push_loop-Appended fuel p.state (drop n bs) p.valid
          (rw length-drop (omega (arith, g.positive)))
          (rw (length-drop, p.spare_after, length-drop, e) (omega arith)) in
      let r =
        Appended-append s (take n bs) (drop n bs) (λ s''. push_loop b fuel s'' (drop n bs)) p q
          (sym (length-append (take n bs) (drop n bs))) in
      rw g.reported (
        subst (λ run. Appended Valid spare written s bs run)
          (bind_assoc (store_block b s 0 (take n bs)) (λ s'. b.write_advance s' n)
            (λ s''. push_loop b fuel s'' (drop n bs)))
          (subst
            (λ cs. Appended Valid spare written s cs (
              store_block b s 0 (take n bs)
              >>= (λ s'. b.write_advance s' n)
              >>= (λ s''. push_loop b fuel s'' (drop n bs))))
            (take-append-drop n bs) r))

  -- In a valid buffer that keeps the contract of a writer, a block that fits into the spare cells
  -- is appended whole, and `push` reports no error. The loop ends.
  pub push-Appended :
      (s : S) (bs : List ℕ)
      → Valid s
      → length bs ≤ length (spare s)
      → (s' : S) × (push b s bs ≡ some (no_error, s'))
        × Valid s'
        × (spare s' ≡ drop (length bs) (spare s))
        × (written s' ≡ written s ++ bs)
  unfolding push
  push-Appended s bs v fit =
      let r = push_loop-Appended (length bs) s bs v (omega arith) fit in
      (
        r.state,
        rw (w.fits s (length bs) v fit, r.returned) refl,
        r.valid,
        r.spare_after,
        r.written_after,
      )

  -- Where the buffer also refuses what does not fit, a block of less than 2 ^ 64 bytes that does
  -- not fit is refused whole with the error for a buffer that is too small, and the buffer stays
  -- as it is.
  pub push-refused :
      (s : S) (bs : List ℕ)
      → Refuses b Valid spare
      → Valid s
      → length (spare s) < length bs
      → length bs < 2 ^ 64
      → push b s bs ≡ some (too_small, s)
  unfolding push
  push-refused s bs no_room v h small = rw (no_room s (length bs) v h small) refl

  -- In a valid buffer that keeps the contract of a writer and has room for a byte, `push` of a byte
  -- appends it and reports no error.
  pub push_byte-Appended :
      (s : S) (x : ℕ)
      → Valid s
      → 1 ≤ length (spare s)
      → (s' : S) × (push_byte b s x ≡ some (no_error, s'))
        × Valid s'
        × (spare s' ≡ drop 1 (spare s))
        × (written s' ≡ written s ++ x ∷ [])
  unfolding push_byte
  push_byte-Appended s x v h =
      let f = store-Filled w s 0 x v h in
      let r = advance-Appended w s (x ∷ []) f (omega arith) h in
      let moved : b.write_advance f.state 1 ≡ some r.state =
        ap (λ run. run >>= λ s'. b.write_advance s' 1) (sym f.returned) ∙ r.returned in
      (
        r.state,
        rw (w.composite s v, lt→ltb 0 (length (spare s)) h, f.returned, moved) refl,
        r.valid,
        r.spare_after,
        r.written_after,
      )

  -- Without room `push` of a byte reports the error and changes nothing.
  pub push_byte-refused :
      (s : S) (x : ℕ) → Valid s → length (spare s) ≡ 0 → push_byte b s x ≡ some (too_small, s)
  unfolding push_byte
  push_byte-refused s x v h = rw (w.composite s v, le→ltb 0 (length (spare s)) (omega arith)) refl
