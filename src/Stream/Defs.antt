-- ===== src/Stream/Defs.antt =====
-- `encode` and `decode` of each specialisation, over any buffer.
use forstio.Prelude.{
  ℕ, suc, zero, ◌*◌, ◌/◌, ◌%◌, ◌^◌, Option, some, List, [], ◌∷◌, ltb, if◌then◌else◌, ◌>>=◌, bit_or,
}
use forstio.Error.{Error, no_error, failed}
use forstio.Buffer.Defs.{Buffer, too_small, load, store, push, pop}

-- `sizeof(T)` of the specialisations.
pub data Width : Type 0 where
  w1 w2 w4 w8 : Width

abbrev pub size : Width → ℕ
size w1 = 1
size w2 = 2
size w4 = 4
size w8 = 8

module _ {S : Type 0} (b : Buffer S) where
  -- `for (i = …) raw |= (static_cast<uintN_t>(buffer.read(i)) << (i * 8))` with the rounds that
  -- are left; `bits` is the width of `raw`.
  unfoldable pub read_loop : ℕ → S → ℕ → ℕ → ℕ → Option ℕ
  read_loop bits s i raw zero = some raw
  read_loop bits s i raw (suc n) = do
    v ← load b s i
    read_loop bits s (suc i) (bit_or raw (v * 2 ^ (i * 8)) % 2 ^ bits) n

  -- `for (i = …) buffer.write(i) = raw >> (i * 8)`; the store keeps the low byte.
  unfoldable pub write_loop : S → ℕ → ℕ → ℕ → Option S
  write_loop s raw i zero = some s
  write_loop s raw i (suc n) = do
    s' ← store b s i (raw / 2 ^ (i * 8) % 256)
    write_loop s' raw (suc i) n

  -- `decode` of a width above 1; on a failure the target keeps `val`.
  unfoldable pub decode_shift : ℕ → ℕ → S → Option (Error × ℕ × S)
  decode_shift bytes val s = do
    n ← b.read_composite_length s
    if ltb n bytes then some (too_small, val, s) else (do
      raw ← read_loop (bytes * 8) s 0 0 bytes
      s' ← b.read_advance s bytes
      some (no_error, raw, s'))

  -- `encode` of a width above 1
  unfoldable pub encode_shift : ℕ → ℕ → S → Option (Error × S)
  encode_shift bytes raw s = do
    e ← b.write_require_length s bytes
    if failed e then some (e, s) else (do
      s' ← write_loop s raw 0 bytes
      s'' ← b.write_advance s' bytes
      some (no_error, s''))

  -- the one byte of a `T` of size 1
  abbrev pub only : ℕ → List ℕ → ℕ
  only d [] = d
  only d (x ∷ xs) = x

  -- `ShiftStreamValue<T>::decode`
  unfoldable pub decode : Width → ℕ → S → Option (Error × ℕ × S)
  decode w1 val s = pop b s (val ∷ []) 1 >>= λ r. some (r.0, only val r.1, r.2)
  decode w2 val s = decode_shift 2 val s
  decode w4 val s = decode_shift 4 val s
  decode w8 val s = decode_shift 8 val s

  -- `ShiftStreamValue<T>::encode`
  unfoldable pub encode : Width → ℕ → S → Option (Error × S)
  encode w1 val s = push b s (val ∷ [])
  encode w2 val s = encode_shift 2 val s
  encode w4 val s = encode_shift 4 val s
  encode w8 val s = encode_shift 8 val s
