-- ===== src/Buffer/Ring/Turn.antt =====
-- Turning a turned list further.
use forstio.Prelude.{
  ℕ, suc, zero, ◌+◌, ◌-◌, ◌≤◌, ◌<◌, ◌≡◌, refl, sym, ap, ap₂, ◌∙◌, List, [], ◌∷◌, ◌++◌, length, take,
  drop, arith, append_assoc, inl, inr,
}
use forstio.Prelude.Laws.{length-drop, drop-drop, take-add, take-append-drop}
use forstio.Buffer.Ring.Order.{rotate, At}

take-append_left : (xs ys : List ℕ) (n : ℕ) → n ≤ length xs → take n (xs ++ ys) ≡ take n xs
take-append_left xs ys zero h = refl
take-append_left [] ys (suc n) h = absurd (omega arith)
take-append_left (x ∷ xs) ys (suc n) h =
    ap (λ (c : List ℕ). x ∷ c) (take-append_left xs ys n (omega arith))

pub drop-append_left :
    (xs ys : List ℕ) (n : ℕ) → n ≤ length xs → drop n (xs ++ ys) ≡ drop n xs ++ ys
drop-append_left xs ys zero h = refl
drop-append_left [] ys (suc n) h = absurd (omega arith)
drop-append_left (x ∷ xs) ys (suc n) h = drop-append_left xs ys n (omega arith)

take-append_right : (xs ys : List ℕ) (k : ℕ) → take (length xs + k) (xs ++ ys) ≡ xs ++ take k ys
take-append_right [] ys k = ap (λ n. take n ys) (omega arith)
take-append_right (x ∷ xs) ys k =
    ap (λ n. take n (x ∷ (xs ++ ys))) {x = suc (length xs) + k} {y = suc (length xs + k)}
      (omega arith)
    ∙ ap (λ (c : List ℕ). x ∷ c) (take-append_right xs ys k)

drop-append_right : (xs ys : List ℕ) (k : ℕ) → drop (length xs + k) (xs ++ ys) ≡ drop k ys
drop-append_right [] ys k = ap (λ n. drop n ys) (omega arith)
drop-append_right (x ∷ xs) ys k =
    ap (λ n. drop n (x ∷ (xs ++ ys))) {x = suc (length xs) + k} {y = suc (length xs + k)}
      (omega arith)
    ∙ drop-append_right xs ys k

pub drop-take : (n l : ℕ) (xs : List ℕ) → n ≤ l → drop n (take l xs) ≡ take (l - n) (drop n xs)
drop-take zero l xs h = ap (λ k. take k xs) (omega arith)
drop-take (suc n) zero xs h = absurd (omega arith)
drop-take (suc n) (suc l) [] h = sym (nils (suc l - suc n))
  where
    nils : (k : ℕ) → ◌≡◌ {A = List ℕ} (take k []) []
    nils zero = refl
    nils (suc k) = refl
drop-take (suc n) (suc l) (x ∷ xs) h =
    drop-take n l xs (omega arith) ∙ ap (λ k. take k (drop n xs)) (omega arith)

pub take-take : (k h : ℕ) (xs : List ℕ) → k ≤ h → take k (take h xs) ≡ take k xs
take-take zero h xs le = refl
take-take (suc k) zero xs le = absurd (omega arith)
take-take (suc k) (suc h) [] le = refl
take-take (suc k) (suc h) (x ∷ xs) le = ap (λ (c : List ℕ). x ∷ c) (take-take k h xs (omega arith))

-- The two halves of a list, the first of them shortened from the left.
drop-take_append : (k h : ℕ) (xs : List ℕ) → k ≤ h → drop k (take h xs) ++ drop h xs ≡ drop k xs
drop-take_append zero h xs le = take-append-drop h xs
drop-take_append (suc k) zero xs le = absurd (omega arith)
drop-take_append (suc k) (suc h) [] le = refl
drop-take_append (suc k) (suc h) (x ∷ xs) le = drop-take_append k h xs (omega arith)

pub rotate-rotate :
    (m : List ℕ) (h n p : ℕ)
    → h < length m
    → n ≤ length m
    → p < length m
    → At m h n p
    → rotate m p ≡ drop n (rotate m h) ++ take n (rotate m h)
unfolding rotate
rotate-rotate m h n p hh hn hp (inl e) =
    let inside : n ≤ length (drop h m) = rw length-drop (omega arith) in
    ap₂ ◌++◌ (ap (λ k. drop k m) e ∙ sym (drop-drop n h m)) (ap (λ k. take k m) e ∙ take-add h n m)
    ∙ sym (append_assoc (drop n (drop h m)) (take h m) (take n (drop h m)))
    ∙ sym (
        ap₂ ◌++◌ (drop-append_left (drop h m) (take h m) n inside)
          (take-append_left (drop h m) (take h m) n inside))
rotate-rotate m h n p hh hn hp (inr e) =
    let split : n ≡ length (drop h m) + p = rw length-drop (omega arith) in
    sym (
      ap₂ ◌++◌
        (ap (λ k. drop k (drop h m ++ take h m)) split ∙ drop-append_right (drop h m) (take h m) p)
        (ap (λ k. take k (drop h m ++ take h m)) split ∙ take-append_right (drop h m) (take h m) p)
      ∙ sym (append_assoc (drop p (take h m)) (drop h m) (take p (take h m)))
      ∙ ap₂ ◌++◌ (drop-take_append p h m (omega arith)) (take-take p h m (omega arith)))

pub take-drop_append :
    (n l : ℕ) (xs : List ℕ)
    → n ≤ l
    → l ≤ length xs
    → take (l - n) (drop n xs ++ take n xs) ≡ drop n (take l xs)
take-drop_append n l xs h k =
    take-append_left (drop n xs) (take n xs) (l - n) (rw length-drop (omega arith))
    ∙ sym (drop-take n l xs h)
