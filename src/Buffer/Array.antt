-- ===== src/Buffer/Array.antt =====
-- `ArrayBuffer` of source/forstio/buffer.h and source/forstio/buffer.cpp: a buffer that is filled
-- once, from front to back.
pub mod Valid
use forstio.Prelude.{
  ℕ, suc, zero, min, Bool, true, false, Option, none, some, List, length, replicate, ltb, leb,
  if◌then◌else◌, ◌>>=◌, ◌>>◌, assert, add_size, sub_size,
}
use forstio.Error.{Error, no_error}
use forstio.Buffer.Defs.{Buffer, too_small}

pub record ArrayBuffer : Type 0 where
  pub buffer : List ℕ
  pub read_position : ℕ
  pub write_position : ℕ

-- `ArrayBuffer::ArrayBuffer(size_t size)`
unfoldable pub make : ℕ → ArrayBuffer
make n = record { buffer = replicate n 0; read_position = 0; write_position = 0 }

module _ (a : ArrayBuffer) where
  open a use {buffer, read_position, write_position}

  abbrev pub read_composite_length : ℕ
  read_composite_length = sub_size write_position read_position

  unfoldable pub read_segment_length : ℕ → Option ℕ
  read_segment_length offset = do
    let read_composite = read_composite_length
    assert (leb offset read_composite)
    let read_offset = add_size read_position (min read_composite offset)
    some (sub_size write_position read_offset)

  unfoldable pub read_advance : ℕ → Option ArrayBuffer
  read_advance bytes = do
    assert (leb bytes read_composite_length)
    some (record a { read_position = add_size read_position bytes })

  -- The version that is not `const`; the other one asserts only that the cell is in the storage.
  unfoldable pub read : ℕ → Option ℕ
  read i = do assert (ltb i read_composite_length); some (add_size i read_position)

  abbrev pub write_composite_length : Option ℕ
  write_composite_length = do
    assert (leb write_position (length buffer))
    some (sub_size (length buffer) write_position)

  unfoldable pub write_segment_length : ℕ → Option ℕ
  write_segment_length offset = do
    assert (leb write_position (length buffer))
    write_composite ← write_composite_length
    assert (leb offset write_composite)
    let write_offset = add_size write_position (min write_composite offset)
    some (sub_size (length buffer) write_offset)

  unfoldable pub write_advance : ℕ → Option ArrayBuffer
  write_advance bytes = do
    n ← write_composite_length
    assert (leb bytes n)
    some (record a { write_position = add_size write_position bytes })

  unfoldable pub write : ℕ → Option ℕ
  write i = do n ← write_composite_length; assert (ltb i n); some (add_size i write_position)

  unfoldable pub write_require_length : ℕ → Option Error
  write_require_length bytes = do
    write_remain ← write_composite_length
    some (if ltb write_remain bytes then too_small else no_error)

-- `ArrayBuffer` as a `Buffer`.
abbrev pub array : Buffer ArrayBuffer
array = record {
  read_position = λ a. a.read_position;
  read_composite_length = λ a. some (read_composite_length a);
  read_segment_length = read_segment_length;
  read_advance = read_advance;
  read = read;
  write_position = λ a. a.write_position;
  write_composite_length = write_composite_length;
  write_segment_length = write_segment_length;
  write_advance = write_advance;
  write = write;
  write_require_length = write_require_length;
  storage = λ a. a.buffer;
  with_storage = λ a m. record a { buffer = m };
}
