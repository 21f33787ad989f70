-- ===== src/Buffer/Defs.antt =====
-- source/forstio/buffer.h, class `Buffer`, and its own methods from source/forstio/buffer.cpp.
-- The virtual methods are a record of operations on a state `S`; the children give one record for
-- each class. A reference to a cell is the cell's index in the storage behind the buffer, so a
-- write through it, or a `memcpy` from its address on, is a store to the storage. `none` is a
-- fault: a failed assertion, an access outside the storage, or a loop that does not end.
use forstio.Prelude.{
  ℕ, zero, suc, ◌+◌, ◌-◌, min, Option, none, some, List, [], ◌∷◌, ◌++◌, ltb, leb, ◌==◌, length,
  take, drop, if◌then◌else◌, ◌>>=◌, store_at, copy_to, copy_from, get_elem?, ◌/◌, ◌%◌,
}
use forstio.Error.{Error, no_error, recoverable_error, failed}

pub record Buffer (S : Type 0) : Type 0 where
  pub read_position : S → ℕ
  pub read_composite_length : S → Option ℕ
  pub read_segment_length : S → ℕ → Option ℕ
  pub read_advance : S → ℕ → Option S
  pub read : S → ℕ → Option ℕ
  pub write_position : S → ℕ
  pub write_composite_length : S → Option ℕ
  pub write_segment_length : S → ℕ → Option ℕ
  pub write_advance : S → ℕ → Option S
  pub write : S → ℕ → Option ℕ
  pub write_require_length : S → ℕ → Option Error
  -- the memory that the references of `read` and `write` point into
  pub storage : S → List ℕ
  pub with_storage : S → List ℕ → S

abbrev pub too_small : Error
too_small = recoverable_error "Buffer too small"

module _ {S : Type 0} (b : Buffer S) where
  -- `buffer.write(i) = v`
  abbrev pub store : S → ℕ → ℕ → Option S
  store s i v = do p ← b.write s i; m ← store_at (b.storage s) p v; some (b.with_storage s m)

  -- `memcpy(&buffer.write(i), …)` of the bytes `bs`
  abbrev pub store_block : S → ℕ → List ℕ → Option S
  store_block s i bs = do p ← b.write s i; m ← copy_to (b.storage s) p bs; some (b.with_storage s m)

  -- the value of `buffer.read(i)`
  abbrev pub load : S → ℕ → Option ℕ
  load s i = b.read s i >>= get_elem? (b.storage s)

  -- `memcpy(…, &buffer.read(i), n)`
  abbrev pub load_block : S → ℕ → ℕ → Option (List ℕ)
  load_block s i n = b.read s i >>= λ p. copy_from (b.storage s) p n

  -- `Buffer::push(const uint8_t &value)`
  unfoldable pub push_byte : S → ℕ → Option (Error × S)
  push_byte s v = do
    write_remain ← b.write_composite_length s
    if ltb 0 write_remain
        then (do s' ← store s 0 v; s'' ← b.write_advance s' 1; some (no_error, s''))
        else some (too_small, s)

  -- The loop of `Buffer::push(const uint8_t &buffer, size_t size)`: the list is what `buffer_ptr`
  -- has yet to give, `size` is its length, and the fuel bounds the rounds.
  unfoldable pub push_loop : ℕ → S → List ℕ → Option S
  push_loop fuel s [] = some s
  push_loop zero s (v ∷ vs) = none
  push_loop (suc fuel) s (v ∷ vs) = do
    available ← b.write_segment_length s 0
    let segment = min available (length (v ∷ vs))
    s' ← store_block s 0 (take segment (v ∷ vs))
    s'' ← b.write_advance s' segment
    push_loop fuel s'' (drop segment (v ∷ vs))

  -- `Buffer::push(const uint8_t &buffer, size_t size)`: every round copies a byte, so `size`
  -- rounds are enough.
  unfoldable pub push : S → List ℕ → Option (Error × S)
  push s bytes = do
    e ← b.write_require_length s (length bytes)
    if failed e
        then some (e, s)
        else (do s' ← push_loop (length bytes) s bytes; some (no_error, s'))

  -- `Buffer::pop(uint8_t &value)`; the target keeps `value` on a failure.
  unfoldable pub pop_byte : S → ℕ → Option (Error × ℕ × S)
  pop_byte s value = do
    n ← b.read_composite_length s
    if ltb 0 n
        then (do v ← load s 0; s' ← b.read_advance s 1; some (no_error, v, s'))
        else some (too_small, value, s)

  -- The loop of `Buffer::pop(uint8_t &buffer, size_t size)`; the list is what it has copied.
  unfoldable pub pop_loop : ℕ → S → ℕ → Option (List ℕ × S)
  pop_loop fuel s zero = some ([], s)
  pop_loop zero s (suc n) = none
  pop_loop (suc fuel) s (suc n) = do
    available ← b.read_segment_length s 0
    let segment = min available (suc n)
    bs ← load_block s 0 segment
    s' ← b.read_advance s segment
    rest ← pop_loop fuel s' (suc n - segment)
    some (bs ++ rest.0, rest.1)

  -- `Buffer::pop(uint8_t &buffer, size_t size)` into a target that holds `target`.
  unfoldable pub pop : S → List ℕ → ℕ → Option (Error × List ℕ × S)
  pop s target size = do
    n ← b.read_composite_length s
    if leb size n
        then (do r ← pop_loop size s size; some (no_error, r.0 ++ drop size target, r.1))
        else some (too_small, target, s)

  -- The loop of `Buffer::toString` from `i` on, with the rounds that are left.
  unfoldable pub to_string_loop : S → ℕ → ℕ → Option (List ℕ)
  to_string_loop s i zero = some []
  to_string_loop s i (suc n) = do c ← load s i; cs ← to_string_loop s (suc i) n; some (c ∷ cs)

  -- `Buffer::toString`
  unfoldable pub to_string : S → Option (List ℕ)
  to_string s = do n ← b.read_composite_length s; to_string_loop s 0 n

  -- a lower-case hexadecimal digit
  unfoldable pub hex_digit : ℕ → ℕ
  hex_digit d = if ltb d 10 then b'0' + d else b'a' + (d - 10)

  -- The loop of `Buffer::toHex`: two digits for a byte, with `'\n'` after each fourth and `' '`
  -- after the others, but for the last.
  unfoldable pub to_hex_loop : S → ℕ → ℕ → Option (List ℕ)
  unfolding hex_digit
  to_hex_loop s i zero = some []
  to_hex_loop s i (suc n) = do
    c ← load s i
    cs ← to_hex_loop s (suc i) n
    let sep = if ltb 0 n then (if i % 4 == 3 then 10 else 32) ∷ [] else []
    some (hex_digit (c / 16) ∷ hex_digit (c % 16) ∷ (sep ++ cs))

  -- `Buffer::toHex`
  unfoldable pub to_hex : S → Option (List ℕ)
  unfolding to_hex_loop
  to_hex s = do n ← b.read_composite_length s; to_hex_loop s 0 n
