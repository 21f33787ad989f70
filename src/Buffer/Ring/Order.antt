-- ===== src/Buffer/Ring/Order.antt =====
-- A list turned so that it starts at index `h`, and what loads, stores and copies do to it.
use forstio.Prelude.{
  ℕ, suc, zero, ◌+◌, ◌≤◌, ◌<◌, ◌≡◌, refl, sym, ap, ap₂, ◌∙◌, ◌⊎◌, inl, inr, some, List, [], ◌∷◌,
  ◌++◌, length, get_elem?, set, take, drop, overwrite, copy_to, copy_from, arith,
}
use forstio.Prelude.Laws.{
  length-append, length-set, length-take, length-drop, drop-set, take-set, get_elem?-drop,
  store_at_lem,
}

unfoldable pub rotate : List ℕ → ℕ → List ℕ
rotate m h = drop h m ++ take h m

-- Index `j` of the list turned to `h` is the cell `p`.
abbrev pub At : List ℕ → ℕ → ℕ → ℕ → Type 0
At m h j p = (p ≡ h + j) ⊎ (p + length m ≡ h + j)

pub length-rotate : (m : List ℕ) (h : ℕ) → h ≤ length m → length (rotate m h) ≡ length m
unfolding rotate
length-rotate m h le = rw (length-append, length-drop, length-take h m le) (omega arith)

set-append_left : (xs ys : List ℕ) (i v : ℕ) → i < length xs → set (xs ++ ys) i v ≡ set xs i v ++ ys
set-append_left [] ys i v h = absurd (omega arith)
set-append_left (x ∷ xs) ys zero v h = refl
set-append_left (x ∷ xs) ys (suc i) v h =
    ap (λ (c : List ℕ). x ∷ c) (set-append_left xs ys i v (omega arith))

set-append_right : (xs ys : List ℕ) (i v : ℕ) → set (xs ++ ys) (length xs + i) v ≡ xs ++ set ys i v
set-append_right [] ys i v = ap (λ k. set ys k v) (omega arith)
set-append_right (x ∷ xs) ys i v =
    ap (λ k. set (x ∷ (xs ++ ys)) k v) {x = suc (length xs) + i} {y = suc (length xs + i)}
      (omega arith)
    ∙ ap (λ (c : List ℕ). x ∷ c) (set-append_right xs ys i v)

get_elem?-append_left :
    (xs ys : List ℕ) (i : ℕ) → i < length xs → get_elem? (xs ++ ys) i ≡ get_elem? xs i
get_elem?-append_left [] ys i h = absurd (omega arith)
get_elem?-append_left (x ∷ xs) ys zero h = refl
get_elem?-append_left (x ∷ xs) ys (suc i) h = get_elem?-append_left xs ys i (omega arith)

get_elem?-append_right :
    (xs ys : List ℕ) (i : ℕ) → get_elem? (xs ++ ys) (length xs + i) ≡ get_elem? ys i
get_elem?-append_right [] ys i = ap (get_elem? ys) (omega arith)
get_elem?-append_right (x ∷ xs) ys i =
    ap (get_elem? (x ∷ (xs ++ ys))) {x = suc (length xs) + i} {y = suc (length xs + i)}
      (omega arith)
    ∙ get_elem?-append_right xs ys i

get_elem?-take : (n i : ℕ) (xs : List ℕ) → i < n → get_elem? (take n xs) i ≡ get_elem? xs i
get_elem?-take zero i xs h = absurd (omega arith)
get_elem?-take (suc n) i [] h = refl
get_elem?-take (suc n) zero (x ∷ xs) h = refl
get_elem?-take (suc n) (suc i) (x ∷ xs) h = get_elem?-take n i xs (omega arith)

drop-set_before : (n i : ℕ) (xs : List ℕ) (v : ℕ) → i < n → drop n (set xs i v) ≡ drop n xs
drop-set_before zero i xs v h = absurd (omega arith)
drop-set_before (suc n) i [] v h = refl
drop-set_before (suc n) zero (x ∷ xs) v h = refl
drop-set_before (suc n) (suc i) (x ∷ xs) v h = drop-set_before n i xs v (omega arith)

take-set_inside :
    (n i : ℕ) (xs : List ℕ) (v : ℕ) → i < n → take n (set xs i v) ≡ set (take n xs) i v
take-set_inside zero i xs v h = absurd (omega arith)
take-set_inside (suc n) i [] v h = refl
take-set_inside (suc n) zero (x ∷ xs) v h = refl
take-set_inside (suc n) (suc i) (x ∷ xs) v h =
    ap (λ (c : List ℕ). x ∷ c) (take-set_inside n i xs v (omega arith))

pub rotate-set :
    (m : List ℕ) (h j p v : ℕ)
    → h < length m
    → j < length m
    → p < length m
    → At m h j p
    → rotate (set m p v) h ≡ set (rotate m h) j v
unfolding rotate
rotate-set m h j p v hh hj hp (inl e) =
    ap₂ ◌++◌ (ap (λ k. drop h (set m k v)) e ∙ drop-set h j m v) (take-set h p m v (omega arith))
    ∙ sym (set-append_left (drop h m) (take h m) j v (rw length-drop (omega arith)))
rotate-set m h j p v hh hj hp (inr e) =
    ap₂ ◌++◌ (drop-set_before h p m v (omega arith)) (take-set_inside h p m v (omega arith))
    ∙ sym (set-append_right (drop h m) (take h m) p v)
    ∙ ap (λ k. set (drop h m ++ take h m) k v) (rw length-drop (omega arith))

pub get_elem?-rotate :
    (m : List ℕ) (h j p : ℕ)
    → h < length m
    → j < length m
    → p < length m
    → At m h j p
    → get_elem? m p ≡ get_elem? (rotate m h) j
unfolding rotate
get_elem?-rotate m h j p hh hj hp (inl e) =
    ap (get_elem? m) e
    ∙ sym (get_elem?-drop h j m)
    ∙ sym (get_elem?-append_left (drop h m) (take h m) j (rw length-drop (omega arith)))
get_elem?-rotate m h j p hh hj hp (inr e) =
    sym (get_elem?-take h p m (omega arith))
    ∙ sym (get_elem?-append_right (drop h m) (take h m) p)
    ∙ ap (get_elem? (drop h m ++ take h m)) (rw length-drop (omega arith))

At-suc : (m : List ℕ) (h j p : ℕ) → At m h j p → At m h (suc j) (suc p)
At-suc m h j p (inl e) = inl (omega arith)
At-suc m h j p (inr e) = inr (omega arith)

-- A block that does not run past the end of the storage.
pub copy_to-rotate :
    (bs m : List ℕ) (h j p : ℕ)
    → h < length m
    → j + length bs ≤ length m
    → p + length bs ≤ length m
    → At m h j p
    → (m' : List ℕ) × (copy_to m p bs ≡ some m')
      × (length m' ≡ length m)
      × (rotate m' h ≡ overwrite (rotate m h) j bs)
unfolding copy_to
copy_to-rotate [] m h j p hh hj hp a = (m, refl, refl, refl)
copy_to-rotate (b ∷ bs) m h j p hh hj hp a =
    let len : length (set m p b) ≡ length m = length-set m p b in
    let q =
      copy_to-rotate bs (set m p b) h (suc j) (suc p) (omega (arith, len)) (omega (arith, len))
        (omega (arith, len)) (rw len (At-suc m h j p a)) in
    (
      q.0,
      rw (store_at_lem m p b (omega arith)) q.1,
      q.2 ∙ len,
      q.3
          ∙ ap (λ (c : List ℕ). overwrite c (suc j) bs)
              (rotate-set m h j p b hh (omega arith) (omega arith) a),
    )

take-suc-drop :
    (xs : List ℕ) (j n : ℕ) {x : ℕ}
    → get_elem? xs j ≡ some x
    → take (suc n) (drop j xs) ≡ x ∷ take n (drop (suc j) xs)
take-suc-drop [] j n e = cc
take-suc-drop (y ∷ xs) zero n e = ground arith
take-suc-drop (y ∷ xs) (suc j) n e = take-suc-drop xs j n e

pub get_elem?-some : (xs : List ℕ) (i : ℕ) → i < length xs → (x : ℕ) × (get_elem? xs i ≡ some x)
get_elem?-some [] i h = absurd (omega arith)
get_elem?-some (x ∷ xs) zero h = (x, refl)
get_elem?-some (x ∷ xs) (suc i) h = get_elem?-some xs i (omega arith)

pub copy_from-rotate :
    (n : ℕ) (m : List ℕ) (h j p : ℕ)
    → h < length m
    → j + n ≤ length m
    → p + n ≤ length m
    → At m h j p
    → copy_from m p n ≡ some (take n (drop j (rotate m h)))
unfolding copy_from
copy_from-rotate zero m h j p hh hj hp a = refl
copy_from-rotate (suc n) m h j p hh hj hp a =
    let x = get_elem?-some m p (omega arith) in
    let same = get_elem?-rotate m h j p hh (omega arith) (omega arith) a in
    rw
      (
        x.1,
        copy_from-rotate n m h (suc j) (suc p) hh (omega arith) (omega arith) (At-suc m h j p a),
        take-suc-drop (rotate m h) j n (sym same ∙ x.1),
      )
      refl
