-- ===== src/Buffer/Contract/Append.antt =====
-- Bytes that are stored behind `write(0)` and then passed by `writeAdvance` are appended.
use forstio.Prelude.{
  ℕ, suc, ◌+◌, ◌≤◌, ◌<◌, ◌≡◌, refl, ap, ◌∙◌, Option, some, List, [], ◌∷◌, ◌++◌, length, take, drop,
  overwrite, ◌>>=◌, arith, copy_to, store_at,
}
use forstio.Prelude.Laws.{
  overwrite-zero, take-length_append, drop-length_append, length-append, length-set,
}
use forstio.Buffer.Defs.{Buffer, store, store_block}
use forstio.Buffer.Contract.{IsWriter, WriteSegment}

-- `run` returns a state in which `bs` stands over the spare cells from `off` on.
pub record Filled {S : Type 0} (Valid : S → Type 0) (spare written : S → List ℕ) (s : S) (off : ℕ)
    (bs : List ℕ) (run : Option S) : Type 0 where
  pub state : S
  pub returned : run ≡ some state
  pub valid : Valid state
  pub spare_after : spare state ≡ overwrite (spare s) off bs
  pub written_after : written state ≡ written s

-- `run` returns a state that has written `bs` more than `s`.
pub record Appended {S : Type 0} (Valid : S → Type 0) (spare written : S → List ℕ) (s : S)
    (bs : List ℕ) (run : Option S) : Type 0 where
  pub state : S
  pub returned : run ≡ some state
  pub valid : Valid state
  pub spare_after : spare state ≡ drop (length bs) (spare s)
  pub written_after : written state ≡ written s ++ bs

-- The loop `for (i = …) buffer.write(i) = …` over given bytes.
unfoldable pub store_each : {S : Type 0} (b : Buffer S) → S → ℕ → List ℕ → Option S
store_each b s i [] = some s
store_each b s i (v ∷ vs) = store b s i v >>= λ s'. store_each b s' (suc i) vs

module _ {S : Type 0} {b : Buffer S} {Valid : S → Type 0} {spare written : S → List ℕ}
    (w : IsWriter b Valid spare written) where
  pub store_block-Filled :
      (s : S) (off : ℕ) (bs : List ℕ) (g : WriteSegment b Valid spare written s off)
      → length bs ≤ g.size
      → Filled Valid spare written s off bs (store_block b s off bs)
  store_block-Filled s off bs g h =
      let r = g.stored bs h in
      record {
        state = b.with_storage s r.cells;
        returned = cc (r.at, r.copied);
        valid = r.valid;
        spare_after = r.spare_after;
        written_after = r.written_after;
      }

  pub store-Filled :
      (s : S) (off v : ℕ)
      → Valid s
      → off < length (spare s)
      → Filled Valid spare written s off (v ∷ []) (store b s off v)
  unfolding copy_to
  store-Filled s off v valid h =
      let g = w.segment s off valid h in
      let r = g.stored (v ∷ []) g.positive in
      record {
        state = b.with_storage s r.cells;
        returned = rw r.at (one (b.storage s) r.place r.cells r.copied);
        valid = r.valid;
        spare_after = r.spare_after;
        written_after = r.written_after;
      }
    where
      one :
          (m : List ℕ) (p : ℕ) (m' : List ℕ)
          → copy_to m p (v ∷ []) ≡ some m'
          → (store_at m p v >>= λ c. some (b.with_storage s c)) ≡ some (b.with_storage s m')
      one m p m' e = ground arith

  pub store_each-Filled :
      (s : S) (off : ℕ) (bs : List ℕ)
      → Valid s
      → off + length bs ≤ length (spare s)
      → Filled Valid spare written s off bs (store_each b s off bs)
  unfolding store_each
  store_each-Filled s off [] valid h = record {
    state = s;
    returned = refl;
    valid = valid;
    spare_after = refl;
    written_after = refl;
  }
  store_each-Filled s off (v ∷ vs) valid h =
      let f = store-Filled s off v valid (omega arith) in
      let r =
        store_each-Filled f.state (suc off) vs f.valid
          (rw f.spare_after (rw length-set (omega arith))) in
      record {
        state = r.state;
        returned = rw f.returned r.returned;
        valid = r.valid;
        spare_after = r.spare_after ∙ ap (λ (c : List ℕ). overwrite c (suc off) vs) f.spare_after;
        written_after = r.written_after ∙ f.written_after;
      }

  pub advance-Appended :
      (s : S) (bs : List ℕ) {run : Option S} (f : Filled Valid spare written s 0 bs run)
      → 1 ≤ length bs
      → length bs ≤ length (spare s)
      → Appended Valid spare written s bs (run >>= λ s'. b.write_advance s' (length bs))
  advance-Appended s bs f one fit =
      let laid : spare f.state ≡ bs ++ drop (length bs) (spare s) =
        f.spare_after ∙ overwrite-zero (spare s) bs fit in
      let r =
        w.advance f.state (length bs) f.valid one (rw laid (rw length-append (omega arith))) in
      record {
        state = r.state;
        returned = rw f.returned r.moved;
        valid = r.valid;
        spare_after =
            r.spare_after
            ∙ ap (drop (length bs)) laid
            ∙ drop-length_append bs (drop (length bs) (spare s));
        written_after =
            r.written_after
            ∙ ap (λ (c : List ℕ). c ++ take (length bs) (spare f.state)) f.written_after
            ∙ ap (λ (c : List ℕ). written s ++ c)
                (ap (take (length bs)) laid ∙ take-length_append bs (drop (length bs) (spare s)));
      }
