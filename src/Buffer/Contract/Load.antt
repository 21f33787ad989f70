-- ===== src/Buffer/Contract/Load.antt =====
-- Single bytes read by index, and runs of them.
use forstio.Prelude.{
  ℕ, suc, zero, ◌+◌, ◌<◌, ◌≡◌, refl, sym, ap, ◌∙◌, Option, some, List, [], ◌∷◌, ◌++◌, length, take,
  drop, ◌>>=◌, arith, copy_from, get_elem?,
}
use forstio.Prelude.Laws.{length-drop, drop-drop}
use forstio.Buffer.Defs.{Buffer, load}
use forstio.Buffer.Contract.{IsReader}

-- The loop `for (i = …; n rounds; ++i)` over `buffer.read(i)`.
unfoldable pub load_each : {S : Type 0} (b : Buffer S) → S → ℕ → ℕ → Option (List ℕ)
load_each b s i zero = some []
load_each b s i (suc n) = load b s i >>= λ v. load_each b s (suc i) n >>= λ vs. some (v ∷ vs)

module _ {S : Type 0} {b : Buffer S} {Valid : S → Type 0} {readable : S → List ℕ}
    (r : IsReader b Valid readable) where
  pub load_lem :
      (s : S) (i v : ℕ) {rest : List ℕ}
      → Valid s
      → drop i (readable s) ≡ v ∷ rest
      → load b s i ≡ some v
  unfolding copy_from
  load_lem s i v {rest} h e =
      let inside : i < length (readable s) =
        omega (arith, length-drop i (readable s), ap length e) in
      let g = r.segment s i h inside in
      let c : copy_from (b.storage s) g.place 1 ≡ some (v ∷ []) =
        g.loaded 1 g.positive ∙ ap (λ (c : List ℕ). some (take 1 c)) e in
      rw g.at (one (get_elem? (b.storage s) g.place) c)
    where
      one : (o : Option ℕ) → (o >>= λ c. some (c ∷ [])) ≡ some (v ∷ []) → o ≡ some v
      one o p = ground arith

  pub load_each_lem :
      (s : S) (i : ℕ) (bs rest : List ℕ)
      → Valid s
      → drop i (readable s) ≡ bs ++ rest
      → load_each b s i (length bs) ≡ some bs
  unfolding load_each
  load_each_lem s i [] rest h e = refl
  load_each_lem s i (v ∷ vs) rest h e =
      rw
        (
          load_lem s i v h e,
          load_each_lem s (suc i) vs rest h (
              ap (λ k. drop k (readable s)) {x = suc i} {y = i + 1} (omega arith)
              ∙ sym (drop-drop 1 i (readable s))
              ∙ ap (drop 1) e),
        )
        refl
