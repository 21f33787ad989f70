-- ===== src/Buffer/Pop.antt =====
-- `Buffer::pop` of a block and of a byte, and `toString`, over any buffer that keeps the contract
-- of a reader.
use forstio.Prelude.{
  ℕ, suc, zero, ◌+◌, ◌-◌, ◌≤◌, ◌<◌, min, ◌≡◌, refl, sym, ap, ◌∙◌, some, List, [], ◌∷◌, ◌++◌, length,
  take, drop, arith, lt→ltb, le→leb, lt→leb,
}
use forstio.Prelude.Laws.{length-drop, drop-drop, take-add}
use forstio.Error.{no_error}
use forstio.Buffer.Defs.{Buffer, pop, pop_loop, pop_byte, too_small, to_string, to_string_loop}
use forstio.Buffer.Contract.{IsReader}
use forstio.Buffer.Contract.Load.{load_lem}

module _ {S : Type 0} {b : Buffer S} {Valid : S → Type 0} {readable : S → List ℕ}
    (r : IsReader b Valid readable) where
  pop_loop_lem :
      (fuel : ℕ) (s : S) (n : ℕ)
      → Valid s
      → n ≤ fuel
      → n ≤ length (readable s)
      → (s' : S) × (pop_loop b fuel s n ≡ some (take n (readable s), s'))
        × Valid s'
        × (readable s' ≡ drop n (readable s))
  unfolding pop_loop
  pop_loop_lem fuel s zero v h fit = (s, refl, v, refl)
  pop_loop_lem zero s (suc n) v h fit = absurd (omega arith)
  pop_loop_lem (suc fuel) s (suc n) v h fit =
      let g = r.segment s 0 v (omega arith) in
      let k : ℕ = min g.size (suc n) in
      let a = r.advance s k v (omega arith) in
      let q =
        pop_loop_lem fuel a.state (suc n - k) a.valid (omega (arith, g.positive))
          (rw (a.readable_after, length-drop) (omega arith)) in
      (
        q.0,
        rw (g.reported, g.at, g.loaded k (omega arith), a.moved, q.1)
            (ap (λ (c : List ℕ). some (c, q.0))
              (ap (λ (c : List ℕ). take k (readable s) ++ take (suc n - k) c) a.readable_after
                ∙ sym (take-add k (suc n - k) (readable s))
                ∙ ap (λ m. take m (readable s)) {x = k + (suc n - k)} {y = suc n} (omega arith))),
        q.2,
        q.3
            ∙ ap (drop (suc n - k)) a.readable_after
            ∙ drop-drop (suc n - k) k (readable s)
            ∙ ap (λ m. drop m (readable s)) {x = k + (suc n - k)} {y = suc n} (omega arith),
      )

  -- In a valid buffer that keeps the contract of a reader, `pop` of a size that is there hands out
  -- the first bytes, in order, and consumes exactly them; what the target held beyond them stays.
  -- The loop ends.
  pub pop_lem :
      (s : S) (target : List ℕ) (n : ℕ)
      → Valid s
      → n ≤ length (readable s)
      → (s' : S) × (pop b s target n ≡ some (no_error, take n (readable s) ++ drop n target, s'))
        × Valid s'
        × (readable s' ≡ drop n (readable s))
  unfolding pop
  pop_lem s target n v h =
      let q = pop_loop_lem n s n v (omega arith) h in
      (q.0, rw (r.composite s v, le→leb n (length (readable s)) h, q.1) refl, q.2, q.3)

  -- In a valid buffer that keeps the contract of a reader, `pop` of more than is there reports the
  -- error for a buffer that is too small and changes neither target nor buffer.
  pub pop-refused :
      (s : S) (target : List ℕ) (n : ℕ)
      → Valid s
      → length (readable s) < n
      → pop b s target n ≡ some (too_small, target, s)
  unfolding pop
  pop-refused s target n v h = rw (r.composite s v, lt→leb n (length (readable s)) h) refl

  -- In a valid buffer that keeps the contract of a reader and has a byte to read, `pop` of a byte
  -- hands out the first one, leaves the others, and reports no error.
  pub pop_byte_lem :
      (s : S) (target x : ℕ) (rest : List ℕ)
      → Valid s
      → readable s ≡ x ∷ rest
      → (s' : S) × (pop_byte b s target ≡ some (no_error, x, s')) × Valid s' × (readable s' ≡ rest)
  unfolding pop_byte
  pop_byte_lem s target x rest v e =
      let some_left : 1 ≤ length (readable s) = omega (arith, ap length e) in
      let a = r.advance s 1 v some_left in
      (
        a.state,
        rw
            (
              r.composite s v,
              lt→ltb 0 (length (readable s)) some_left,
              load_lem r s 0 x v e,
              a.moved,
            )
            refl,
        a.valid,
        a.readable_after ∙ ap (drop 1) e,
      )

  to_string_loop_lem :
      (s : S) (i : ℕ) (bs : List ℕ)
      → Valid s
      → drop i (readable s) ≡ bs
      → to_string_loop b s i (length bs) ≡ some bs
  unfolding to_string_loop
  to_string_loop_lem s i [] v e = refl
  to_string_loop_lem s i (c ∷ cs) v e =
      rw
        (
          load_lem r s i c v e,
          to_string_loop_lem s (suc i) cs v (
              ap (λ k. drop k (readable s)) {x = suc i} {y = i + 1} (omega arith)
              ∙ sym (drop-drop 1 i (readable s))
              ∙ ap (drop 1) e),
        )
        refl

  -- For a valid buffer that keeps the contract of a reader, `toString` is the readable bytes in
  -- order, and no access faults.
  pub to_string_lem : (s : S) → Valid s → to_string b s ≡ some (readable s)
  unfolding to_string
  to_string_lem s v = rw (r.composite s v) (to_string_loop_lem s 0 (readable s) v refl)
