-- ===== src/Prelude/Laws.antt =====
-- Laws of the list operations.
use Prim.Native.Nat.{ℕ, zero, suc, ◌+◌, ◌-◌, ◌≤◌, ◌<◌}
use mathlib.Core.Path.{◌≡◌, refl, ap, sym, ◌∙◌}
use mathlib.Core.Option.{some}
use mathlib.Core.List.{List, [], ◌∷◌, ◌++◌}
use native.Mathlib.Omega.{arith}
use forstio.Prelude.Tests.{lt→ltb}
use forstio.Prelude.Lists.{length, get_elem?, set, take, drop, overwrite, replicate, store_at}

module _ {ℓ} {A : Type ℓ} where
  pub length-append : (xs ys : List A) → length (xs ++ ys) ≡ length xs + length ys
  length-append [] ys = omega arith
  length-append (x ∷ xs) ys = omega (arith, length-append xs ys)

  pub length-set : (xs : List A) (i : ℕ) (v : A) → length (set xs i v) ≡ length xs
  length-set [] i v = refl
  length-set (x ∷ xs) zero v = refl
  length-set (x ∷ xs) (suc i) v = ap suc (length-set xs i v)

  pub length-overwrite :
      (xs : List A) (i : ℕ) (bs : List A) → length (overwrite xs i bs) ≡ length xs
  length-overwrite xs i [] = refl
  length-overwrite xs i (b ∷ bs) = length-overwrite (set xs i b) (suc i) bs ∙ length-set xs i b

  pub length-drop : (n : ℕ) (xs : List A) → length (drop n xs) ≡ length xs - n
  length-drop zero xs = omega arith
  length-drop (suc n) [] = omega arith
  length-drop (suc n) (x ∷ xs) = omega (arith, length-drop n xs)

  pub length-take : (n : ℕ) (xs : List A) → n ≤ length xs → length (take n xs) ≡ n
  length-take zero xs h = refl
  length-take (suc n) [] h = absurd (omega arith)
  length-take (suc n) (x ∷ xs) h = ap suc (length-take n xs (omega arith))

  pub length-replicate : (n : ℕ) (x : A) → length (replicate n x) ≡ n
  length-replicate zero x = refl
  length-replicate (suc n) x = ap suc (length-replicate n x)

  pub take-append-drop : (n : ℕ) (xs : List A) → take n xs ++ drop n xs ≡ xs
  take-append-drop zero xs = refl
  take-append-drop (suc n) [] = refl
  take-append-drop (suc n) (x ∷ xs) = ap (λ (ys : List A). x ∷ ys) (take-append-drop n xs)

  pub take-length_append : (xs ys : List A) → take (length xs) (xs ++ ys) ≡ xs
  take-length_append [] ys = refl
  take-length_append (x ∷ xs) ys = ap (λ (zs : List A). x ∷ zs) (take-length_append xs ys)

  pub drop-length_append : (xs ys : List A) → drop (length xs) (xs ++ ys) ≡ ys
  drop-length_append [] ys = refl
  drop-length_append (x ∷ xs) ys = drop-length_append xs ys

  pub drop-nil : (n : ℕ) → ◌≡◌ {A = List A} (drop n []) []
  drop-nil zero = refl
  drop-nil (suc n) = refl

  pub drop-drop : (m n : ℕ) (xs : List A) → drop m (drop n xs) ≡ drop (n + m) xs
  drop-drop m zero xs = ap (λ k. drop k xs) (omega arith)
  drop-drop m (suc n) [] = drop-nil m ∙ sym (drop-nil (suc n + m))
  drop-drop m (suc n) (x ∷ xs) =
      drop-drop m n xs ∙ ap (λ k. drop k (x ∷ xs)) {x = suc (n + m)} {y = suc n + m} (omega arith)

  -- The first `n` and the next `m`.
  pub take-add : (n m : ℕ) (xs : List A) → take (n + m) xs ≡ take n xs ++ take m (drop n xs)
  take-add zero m xs = ap (λ k. take k xs) (omega arith)
  take-add (suc n) m [] =
      ap (λ k. take k []) {x = suc n + m} {y = suc (n + m)} (omega arith) ∙ nils m
    where
      nils : (k : ℕ) → ◌≡◌ {A = List A} [] (take k [])
      nils zero = refl
      nils (suc k) = refl
  take-add (suc n) m (x ∷ xs) =
      ap (λ k. take k (x ∷ xs)) {x = suc n + m} {y = suc (n + m)} (omega arith)
      ∙ ap (λ (ys : List A). x ∷ ys) (take-add n m xs)

  pub get_elem?-drop : (n i : ℕ) (xs : List A) → get_elem? (drop n xs) i ≡ get_elem? xs (n + i)
  get_elem?-drop zero i xs = ap (get_elem? xs) (omega arith)
  get_elem?-drop (suc n) i [] = refl
  get_elem?-drop (suc n) i (x ∷ xs) =
      get_elem?-drop n i xs
      ∙ ap (get_elem? (x ∷ xs)) {x = suc (n + i)} {y = suc n + i} (omega arith)

  pub drop-set : (n i : ℕ) (xs : List A) (v : A) → drop n (set xs (n + i) v) ≡ set (drop n xs) i v
  drop-set zero i xs v = ap (λ k. set xs k v) (omega arith)
  drop-set (suc n) i [] v = refl
  drop-set (suc n) i (x ∷ xs) v =
      ap (λ k. drop (suc n) (set (x ∷ xs) k v)) {x = suc n + i} {y = suc (n + i)} (omega arith)
      ∙ drop-set n i xs v

  pub take-set : (n i : ℕ) (xs : List A) (v : A) → n ≤ i → take n (set xs i v) ≡ take n xs
  take-set zero i xs v h = refl
  take-set (suc n) i [] v h = refl
  take-set (suc n) zero (x ∷ xs) v h = absurd (omega arith)
  take-set (suc n) (suc i) (x ∷ xs) v h =
      ap (λ (ys : List A). x ∷ ys) (take-set n i xs v (omega arith))

  pub drop-overwrite :
      (n i : ℕ) (xs bs : List A) → drop n (overwrite xs (n + i) bs) ≡ overwrite (drop n xs) i bs
  drop-overwrite n i xs [] = refl
  drop-overwrite n i xs (b ∷ bs) =
      ap (λ k. drop n (overwrite (set xs (n + i) b) k bs)) {x = suc (n + i)} {y = n + suc i}
        (omega arith)
      ∙ drop-overwrite n (suc i) (set xs (n + i) b) bs
      ∙ ap (λ (ys : List A). overwrite ys (suc i) bs) (drop-set n i xs b)

  pub take-overwrite : (n i : ℕ) (xs bs : List A) → n ≤ i → take n (overwrite xs i bs) ≡ take n xs
  take-overwrite n i xs [] h = refl
  take-overwrite n i xs (b ∷ bs) h =
      take-overwrite n (suc i) (set xs i b) bs (omega arith) ∙ take-set n i xs b h

  overwrite-cons :
      (x : A) (xs : List A) (i : ℕ) (bs : List A)
      → overwrite (x ∷ xs) (suc i) bs ≡ x ∷ overwrite xs i bs
  overwrite-cons x xs i [] = refl
  overwrite-cons x xs i (b ∷ bs) = overwrite-cons x (set xs i b) (suc i) bs

  -- Writing from the start puts `bs` in front of the rest.
  pub overwrite-zero :
      (xs bs : List A) → length bs ≤ length xs → overwrite xs 0 bs ≡ bs ++ drop (length bs) xs
  overwrite-zero xs [] h = refl
  overwrite-zero [] (b ∷ bs) h = absurd (omega arith)
  overwrite-zero (x ∷ xs) (b ∷ bs) h =
      overwrite-cons b xs 0 bs ∙ ap (λ (ys : List A). b ∷ ys) (overwrite-zero xs bs (omega arith))

  pub store_at_lem : (m : List A) (p : ℕ) (v : A) → p < length m → store_at m p v ≡ some (set m p v)
  store_at_lem m p v h = rw (lt→ltb p (length m) h)
