-- ===== src/Prelude/Lists.antt =====
-- Lists with native indices, and memory: a block of cells with checked loads and stores.
use Prim.Native.Nat.{ℕ, zero, suc}
use mathlib.Core.Option.{Option, none, some}
use mathlib.Core.List.{List, [], ◌∷◌}
use forstio.Prelude.Tests.{ltb, if◌then◌else◌, ◌>>=◌}

module _ {ℓ} {A : Type ℓ} where
  abbrev pub length : List A → ℕ
  length [] = 0
  length (x ∷ xs) = suc (length xs)

  abbrev pub get_elem? : List A → ℕ → Option A
  get_elem? [] i = none
  get_elem? (x ∷ xs) zero = some x
  get_elem? (x ∷ xs) (suc i) = get_elem? xs i

  abbrev pub set : List A → ℕ → A → List A
  set [] i v = []
  set (x ∷ xs) zero v = v ∷ xs
  set (x ∷ xs) (suc i) v = x ∷ set xs i v

  abbrev pub take : ℕ → List A → List A
  take zero xs = []
  take (suc n) [] = []
  take (suc n) (x ∷ xs) = x ∷ take n xs

  abbrev pub drop : ℕ → List A → List A
  drop zero xs = xs
  drop (suc n) [] = []
  drop (suc n) (x ∷ xs) = drop n xs

  abbrev pub replicate : ℕ → A → List A
  replicate zero x = []
  replicate (suc n) x = x ∷ replicate n x

  -- The list with `bs` written over it from index `i` on.
  abbrev pub overwrite : List A → ℕ → List A → List A
  overwrite xs i [] = xs
  overwrite xs i (b ∷ bs) = overwrite (set xs i b) (suc i) bs

  -- A store to a cell; outside the block it is a fault.
  abbrev pub store_at : List A → ℕ → A → Option (List A)
  store_at m p v = if ltb p (length m) then some (set m p v) else none

  -- `memcpy` into the block at `p`.
  unfoldable pub copy_to : List A → ℕ → List A → Option (List A)
  copy_to m p [] = some m
  copy_to m p (b ∷ bs) = store_at m p b >>= λ m'. copy_to m' (suc p) bs

  -- `memcpy` of `n` cells out of the block at `p`.
  unfoldable pub copy_from : List A → ℕ → ℕ → Option (List A)
  copy_from m p zero = some []
  copy_from m p (suc n) = get_elem? m p >>= λ b. copy_from m (suc p) n >>= λ bs. some (b ∷ bs)
