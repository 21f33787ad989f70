-- ===== src/Tests/Buffers.antt =====
-- The theorems on buffers and stream values at a ring whose bytes wrap around.
use forstio.Prelude.{
  ◌≡◌, ◌≤◌, ◌-◌, refl, true, false, some, [], ◌∷◌, ◌++◌, length, take, drop, arith,
}
use forstio.Error.{no_error}
use forstio.Buffer.Defs.{push, pop}
use forstio.Buffer.Contract.{IsReader, IsWriter}
use forstio.Buffer.Ring.{
  RingBuffer, ring, read_composite_length, write_composite_length, write_segment_length,
  write_advance,
}
use forstio.Buffer.Ring.Order.{rotate}
use forstio.Buffer.Ring.Valid.{Valid, ordered, readable, spare}
use forstio.Buffer.Ring.Reader.{ring-IsReader}
use forstio.Buffer.Ring.Writer.{ring-IsWriter}
use forstio.Buffer.Ring.Edges.{write_segment_past_room, write_advance_zero_full}
use forstio.Buffer.View.{view}
use forstio.Buffer.View.Reader.{Reading, view_readable, view-IsReader}
use forstio.Buffer.View.Writer.{Writing, view_spare, view_written, view-IsWriter}
use forstio.Buffer.Push.{push-Appended}
use forstio.Buffer.Pop.{pop_lem}

-- 13 and 10 to read, with 11 and 12 standing in the spare cells
abbrev pub wrapped : RingBuffer
wrapped = record {
  buffer = 10 ∷ 11 ∷ 12 ∷ 13 ∷ [];
  read_position = 3;
  write_position = 1;
  write_reached_read = false;
}

abbrev full : RingBuffer
full = record wrapped { write_position = 3; write_reached_read = true }

pub wrapped-Valid : Valid wrapped
wrapped-Valid = record {
  positive = omega arith;
  small = omega arith;
  read_in = omega arith;
  write_in = omega arith;
  met = λ e. cc;
}

full-Valid : Valid full
full-Valid = record {
  positive = omega arith;
  small = omega arith;
  read_in = omega arith;
  write_in = omega arith;
  met = λ e. refl;
}

pub readable-wrapped : readable wrapped ≡ 13 ∷ 10 ∷ []
unfolding readable ordered read_composite_length rotate
readable-wrapped = refl

pub spare-wrapped : spare wrapped ≡ 11 ∷ 12 ∷ []
unfolding spare ordered read_composite_length rotate
spare-wrapped = refl

push-Appended_example :
    (s' : RingBuffer) × (push ring wrapped (7 ∷ 8 ∷ []) ≡ some (no_error, s'))
    × Valid s'
    × (spare s' ≡ drop 2 (spare wrapped))
    × (readable s' ≡ readable wrapped ++ (7 ∷ 8 ∷ []))
push-Appended_example =
    push-Appended ring-IsWriter wrapped (7 ∷ 8 ∷ []) wrapped-Valid (rw spare-wrapped (omega arith))

pop_lem_example :
    (s' : RingBuffer) × (pop ring wrapped (1 ∷ 2 ∷ 3 ∷ []) 2
      ≡ some (no_error, take 2 (readable wrapped) ++ drop 2 (1 ∷ 2 ∷ 3 ∷ []), s'))
    × Valid s'
    × (readable s' ≡ drop 2 (readable wrapped))
pop_lem_example =
    pop_lem ring-IsReader wrapped (1 ∷ 2 ∷ 3 ∷ []) 2 wrapped-Valid
      (rw readable-wrapped (omega arith))

two_to_read : read_composite_length wrapped ≡ 2
unfolding read_composite_length
two_to_read = refl

two_to_write : write_composite_length wrapped ≡ 2
unfolding write_composite_length
two_to_write = refl

none_to_write : write_composite_length full ≡ 0
unfolding write_composite_length
none_to_write = refl

write_segment_past_room_example :
    (write_segment_length wrapped (write_composite_length wrapped) ≡ some (4 - 3)) × (1 ≤ 4 - 3)
write_segment_past_room_example =
    write_segment_past_room wrapped wrapped-Valid (rw two_to_write (omega arith))

write_advance_zero_full_example :
    (r' : RingBuffer) × (write_advance full 0 ≡ some r')
    × (readable r' ≡ [])
    × (length (readable full) ≡ 4)
write_advance_zero_full_example = write_advance_zero_full full full-Valid none_to_write

view-IsReader_example :
    IsReader (view ring) (Reading Valid readable wrapped) (view_readable readable)
view-IsReader_example = view-IsReader ring-IsReader wrapped

view-IsWriter_example :
    IsWriter
      (view ring)
      (Writing Valid spare readable (13 ∷ []))
      (view_spare spare)
      (view_written spare)
view-IsWriter_example = view-IsWriter ring-IsWriter (13 ∷ [])
