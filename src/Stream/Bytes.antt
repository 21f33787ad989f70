-- ===== src/Stream/Bytes.antt =====
-- Numbers and their bytes, the lowest first: what the shift loops are to compute.
use native.Mathlib.Nat.{pow-suc}
use forstio.Prelude.{
  ℕ, suc, zero, ◌+◌, ◌*◌, ◌/◌, ◌%◌, ◌^◌, ◌<◌, ◌≡◌, refl, ap, ◌∙◌, List, [], ◌∷◌, ◌++◌, length, drop,
  arith,
}

unfoldable pub le_bytes : ℕ → ℕ → List ℕ
le_bytes zero raw = []
le_bytes (suc n) raw = raw % 256 ∷ le_bytes n (raw / 256)

unfoldable pub le_value : List ℕ → ℕ
le_value [] = 0
le_value (b ∷ bs) = b + 256 * le_value bs

-- Cells of a `std::vector<uint8_t>`.
abbrev pub AreBytes : List ℕ → Type 0
AreBytes [] = Unit
AreBytes (x ∷ xs) = (x < 256) × AreBytes xs

pub AreBytes-append : (xs ys : List ℕ) → AreBytes xs → AreBytes ys → AreBytes (xs ++ ys)
AreBytes-append [] ys h k = k
AreBytes-append (x ∷ xs) ys h k = (h.0, AreBytes-append xs ys h.1 k)

pub AreBytes-left : (xs ys : List ℕ) → AreBytes (xs ++ ys) → AreBytes xs
AreBytes-left [] ys h = tt
AreBytes-left (x ∷ xs) ys h = (h.0, AreBytes-left xs ys h.1)

pub AreBytes-right : (xs ys : List ℕ) → AreBytes (xs ++ ys) → AreBytes ys
AreBytes-right [] ys h = h
AreBytes-right (x ∷ xs) ys h = AreBytes-right xs ys h.1

pub AreBytes-drop : (n : ℕ) (xs : List ℕ) → AreBytes xs → AreBytes (drop n xs)
AreBytes-drop zero xs h = h
AreBytes-drop (suc n) [] h = tt
AreBytes-drop (suc n) (x ∷ xs) h = AreBytes-drop n xs h.1

pub length-le_bytes : (n raw : ℕ) → length (le_bytes n raw) ≡ n
unfolding le_bytes
length-le_bytes zero raw = refl
length-le_bytes (suc n) raw = ap suc (length-le_bytes n (raw / 256))

pub le_bytes-AreBytes : (n raw : ℕ) → AreBytes (le_bytes n raw)
unfolding le_bytes
le_bytes-AreBytes zero raw = tt
le_bytes-AreBytes (suc n) raw = (omega arith, le_bytes-AreBytes n (raw / 256))

-- 256 to the `n`, as the shifts have it.
eight_bits : (k : ℕ) → 2 ^ suc (suc (suc (suc (suc (suc (suc (suc k))))))) ≡ 256 * 2 ^ k
eight_bits k = omega (
  arith,
  pow-suc 2 k,
  pow-suc 2 (suc k),
  pow-suc 2 (suc (suc k)),
  pow-suc 2 (suc (suc (suc k))),
  pow-suc 2 (suc (suc (suc (suc k)))),
  pow-suc 2 (suc (suc (suc (suc (suc k))))),
  pow-suc 2 (suc (suc (suc (suc (suc (suc k)))))),
  pow-suc 2 (suc (suc (suc (suc (suc (suc (suc k))))))),
)

pub shift_suc : (i : ℕ) → 2 ^ (suc i * 8) ≡ 256 * 2 ^ (i * 8)
shift_suc i =
    ap (λ k. 2 ^ k) {x = suc i * 8} {y = suc (suc (suc (suc (suc (suc (suc (suc (i * 8))))))))}
      (omega arith)
    ∙ eight_bits (i * 8)

-- The bytes of a number stand for it, if it has no more than `n` of them.
pub le_value-le_bytes : (n raw : ℕ) → raw < 2 ^ (n * 8) → le_value (le_bytes n raw) ≡ raw
unfolding le_bytes le_value
le_value-le_bytes zero raw h = omega arith
le_value-le_bytes (suc n) raw h =
    omega (arith, le_value-le_bytes n (raw / 256) (omega (arith, shift_suc n)))

pub le_value-lt : (bs : List ℕ) → AreBytes bs → le_value bs < 2 ^ (length bs * 8)
unfolding le_value
le_value-lt [] h = omega arith
le_value-lt (b ∷ bs) h = omega (arith, le_value-lt bs h.1, shift_suc (length bs))
