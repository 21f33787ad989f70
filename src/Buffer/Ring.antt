-- ===== src/Buffer/Ring.antt =====
-- `RingBuffer` of source/forstio/buffer.h and source/forstio/buffer.cpp. The reads and writes of a
-- position that runs past the end of the storage go on at its start.
pub mod Order
pub mod Turn
pub mod Valid
pub mod Reader
pub mod Writer
pub mod Edges
use forstio.Prelude.{
  ℕ, suc, zero, min, Bool, true, false, Option, none, some, List, length, replicate, ltb, leb, ◌==◌,
  if◌then◌else◌, ◌>>=◌, ◌>>◌, assert, add_size, sub_size,
}
use forstio.Error.{Error, no_error}
use forstio.Buffer.Defs.{Buffer, too_small}

pub record RingBuffer : Type 0 where
  pub buffer : List ℕ
  pub read_position : ℕ
  pub write_position : ℕ
  pub write_reached_read : Bool

abbrev pub ring_buffer_max_size : ℕ
ring_buffer_max_size = 4096

-- `RingBuffer::RingBuffer(size_t size)`; `resize` fills the vector with zeros.
unfoldable pub make : ℕ → RingBuffer
make n = record {
  buffer = replicate n 0;
  read_position = 0;
  write_position = 0;
  write_reached_read = false;
}

-- `RingBuffer::RingBuffer()`
unfoldable pub make_default : RingBuffer
unfolding make
make_default = make ring_buffer_max_size

module _ (r : RingBuffer) where
  open r use {buffer, read_position, write_position, write_reached_read}

  -- `size`
  abbrev pub size : ℕ
  size = length buffer

  -- a position that has run past the end
  abbrev pub wrap : ℕ → ℕ
  wrap p = if leb size p then sub_size p size else p

  unfoldable pub read_composite_length : ℕ
  read_composite_length =
      if ltb write_position read_position
      then sub_size size (sub_size read_position write_position)
      else if write_reached_read
      then size
      else sub_size write_position read_position

  unfoldable pub read_segment_length : ℕ → Option ℕ
  read_segment_length offset = do
    assert (leb offset read_composite_length)
    let off = min offset read_composite_length
    let remaining = sub_size read_composite_length off
    let read_offset = wrap (add_size read_position off)
    some (
        if ltb write_position read_offset
        then sub_size size read_offset
        else if write_position == read_offset
        then (if ltb 0 remaining then sub_size size read_offset else 0)
        else sub_size write_position read_offset)

  unfoldable pub read_advance : ℕ → Option RingBuffer
  read_advance bytes = do
    assert (leb bytes read_composite_length)
    let n = min bytes read_composite_length
    some (record r {
      read_position = wrap (add_size read_position n);
      write_reached_read = if ltb 0 n then false else write_reached_read;
    })

  unfoldable pub read : ℕ → Option ℕ
  read i = do assert (ltb i read_composite_length); some (wrap (add_size read_position i))

  unfoldable pub write_composite_length : ℕ
  write_composite_length =
      if ltb write_position read_position
      then sub_size read_position write_position
      else if write_reached_read
      then 0
      else sub_size size (sub_size write_position read_position)

  unfoldable pub write_segment_length : ℕ → Option ℕ
  write_segment_length offset = do
    assert (leb offset write_composite_length)
    let off = min offset write_composite_length
    let write_offset = wrap (add_size write_position off)
    some (
        if ltb write_offset read_position
        then sub_size read_position write_offset
        else if write_reached_read
        then 0
        else sub_size size write_offset)

  unfoldable pub write_advance : ℕ → Option RingBuffer
  write_advance bytes = do
    assert (leb bytes write_composite_length)
    let p = wrap (add_size write_position bytes)
    some (record r {
      write_position = p;
      write_reached_read =
          if p == read_position then (if ltb 0 bytes then true else false) else false;
    })

  unfoldable pub write : ℕ → Option ℕ
  write i = do assert (ltb i write_composite_length); some (wrap (add_size write_position i))

  unfoldable pub write_require_length : ℕ → Error
  write_require_length bytes = if ltb write_composite_length bytes then too_small else no_error

-- `RingBuffer` as a `Buffer`.
abbrev pub ring : Buffer RingBuffer
ring = record {
  read_position = λ r. r.read_position;
  read_composite_length = λ r. some (read_composite_length r);
  read_segment_length = read_segment_length;
  read_advance = read_advance;
  read = read;
  write_position = λ r. r.write_position;
  write_composite_length = λ r. some (write_composite_length r);
  write_segment_length = write_segment_length;
  write_advance = write_advance;
  write = write;
  write_require_length = λ r n. some (write_require_length r n);
  storage = λ r. r.buffer;
  with_storage = λ r m. record r { buffer = m };
}
