-- ===== src/Buffer/Ring/Edges.antt =====
-- Two calls at the edge of what `RingBuffer` allows.
use forstio.Prelude.{ℕ, ◌-◌, ◌≤◌, ◌≡◌, refl, true, some, [], length, arith, min, le→leb}
use forstio.Buffer.Ring.{
  RingBuffer, read_composite_length, read_segment_length, write_composite_length,
  write_segment_length, write_advance,
}
use forstio.Buffer.Ring.Valid.{Valid, readable, composite_lengths, write_At, length-readable}
use forstio.Buffer.Ring.Writer.{room-not_reached, advanced, write_advance_lem}

module _ (r : RingBuffer) (v : Valid r) where
  -- In a valid ring that has a spare cell, `writeSegmentLength` at the number of spare cells reports
  -- all cells from the read position to the end of the storage, of which there is one at least.
  pub write_segment_past_room :
      1 ≤ write_composite_length r
      → (write_segment_length r (write_composite_length r)
          ≡ some (length r.buffer - r.read_position))
        × (1 ≤ length r.buffer - r.read_position)
  unfolding write_segment_length
  write_segment_past_room h =
      let e = min_self (write_composite_length r) in
      (
        rw (le→leb (write_composite_length r) (write_composite_length r) (omega arith)) (
            ground (
              arith,
              e,
              room-not_reached v h,
              write_At v,
              v.small,
              v.read_in,
              v.write_in,
              composite_lengths v,
            )),
        omega (arith, v.read_in),
      )
    where
      min_self : (a : ℕ) → min a a ≡ a
      min_self a = omega arith

  -- In a valid ring without a spare cell, `writeAdvance(0)` passes its assertion and leaves nothing
  -- to read, where the whole storage could be read before.
  pub write_advance_zero_full :
      write_composite_length r ≡ 0
      → (r' : RingBuffer) × (write_advance r 0 ≡ some r')
        × (readable r' ≡ [])
        × (length (readable r) ≡ length r.buffer)
  unfolding readable
  write_advance_zero_full h = (
    advanced v 0,
    write_advance_lem v 0 (omega arith),
    rw (emptied h) refl,
    omega (arith, length-readable v, composite_lengths v),
  )
    where
      emptied : write_composite_length r ≡ 0 → read_composite_length (advanced v 0) ≡ 0
      emptied e =
          unfold read_composite_length advanced write_composite_length in
          ground (arith, v.met, v.small)

  -- A ring without a spare cell is full, and has no cell to write to.
  full-reached : write_composite_length r ≡ 0 → r.write_reached_read ≡ true
  unfolding write_composite_length
  full-reached h = ground (arith, v.small, v.read_in, v.write_in)

  pub write_segment-full : write_composite_length r ≡ 0 → write_segment_length r 0 ≡ some 0
  unfolding write_segment_length
  write_segment-full h =
      let m = v.met (full-reached h) in
      rw (h, full-reached h) (ground (arith, m, v.small, v.read_in, v.write_in))

  -- An empty ring has no byte to read.
  pub read_segment-empty : read_composite_length r ≡ 0 → read_segment_length r 0 ≡ some 0
  unfolding read_segment_length
  read_segment-empty h = let m = meets h in rw h (ground (arith, m, v.small, v.read_in, v.write_in))
    where
      meets : read_composite_length r ≡ 0 → r.read_position ≡ r.write_position
      meets e =
          unfold read_composite_length in ground (arith, v.met, v.small, v.read_in, v.write_in)
