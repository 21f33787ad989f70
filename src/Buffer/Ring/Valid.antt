-- ===== src/Buffer/Ring/Valid.antt =====
-- The representation invariant of `RingBuffer`, and what its operations compute under it.
use forstio.Prelude.{ℕ, ◌+◌, ◌^◌, ◌≤◌, ◌<◌, ◌≡◌, refl, true, List, length, take, drop, arith}
use forstio.Prelude.Laws.{length-replicate, length-drop, length-take}
use forstio.Buffer.Ring.{RingBuffer, make, read_composite_length, write_composite_length}
use forstio.Buffer.Ring.Order.{rotate, At, length-rotate}

pub record Valid (r : RingBuffer) : Type 0 where
  pub positive : 1 ≤ length r.buffer
  pub small : length r.buffer < 2 ^ 63
  pub read_in : r.read_position < length r.buffer
  pub write_in : r.write_position < length r.buffer
  pub met : r.write_reached_read ≡ true → r.read_position ≡ r.write_position

-- The whole storage, from the byte that is read next.
unfoldable pub ordered : RingBuffer → List ℕ
ordered r = rotate r.buffer r.read_position

-- The bytes to read, and the cells to write.
unfoldable pub readable : RingBuffer → List ℕ
unfolding ordered
readable r = take (read_composite_length r) (ordered r)

unfoldable pub spare : RingBuffer → List ℕ
unfolding ordered
spare r = drop (read_composite_length r) (ordered r)

module _ {r : RingBuffer} (v : Valid r) where
  pub read_composite-le-size : read_composite_length r ≤ length r.buffer
  unfolding read_composite_length
  read_composite-le-size = ground (arith, v.met)

  -- In a valid ring, what can be read and what can be written make up the storage.
  pub composite_lengths : read_composite_length r + write_composite_length r ≡ length r.buffer
  unfolding read_composite_length write_composite_length
  composite_lengths = ground (arith, v.met)

  pub write_At : At r.buffer r.read_position (read_composite_length r) r.write_position
  unfolding read_composite_length
  write_At = ground (arith, v.met)

  pub length-ordered : length (ordered r) ≡ length r.buffer
  unfolding ordered
  length-ordered = length-rotate r.buffer r.read_position (omega arith)

  pub length-readable : length (readable r) ≡ read_composite_length r
  unfolding readable
  length-readable =
      length-take (read_composite_length r) (ordered r)
        (omega (arith, length-ordered, read_composite-le-size))

  pub length-spare : length (spare r) ≡ write_composite_length r
  unfolding spare
  length-spare =
      omega (
        arith,
        length-drop (read_composite_length r) (ordered r),
        length-ordered,
        composite_lengths,
      )

-- A ring of `n` cells is valid and empty.
pub make-Valid : (n : ℕ) → 1 ≤ n → n < 2 ^ 63 → Valid (make n)
unfolding make
make-Valid n h k = record {
  positive = omega (arith, length-replicate {A = ℕ} n 0);
  small = omega (arith, length-replicate {A = ℕ} n 0);
  read_in = omega (arith, length-replicate {A = ℕ} n 0);
  write_in = omega (arith, length-replicate {A = ℕ} n 0);
  met = λ e. cc;
}

pub readable-make : (n : ℕ) → readable (make n) ≡ List.[]
unfolding readable make read_composite_length
readable-make n = refl
