-- ===== src/Buffer/View.antt =====
-- `BufferView` of source/forstio/buffer.h and source/forstio/buffer.cpp: a second pair of
-- positions over a buffer that it refers to. What stands behind a failed `assert` is written as
-- the source has it, though it is reached only in a build with `NDEBUG`.
pub mod Reader
pub mod Writer
use forstio.Prelude.{
  ℕ, suc, zero, Bool, true, false, Option, none, some, List, ltb, leb, if◌then◌else◌, ◌>>=◌, ◌>>◌,
  assert, add_size, sub_size,
}
use forstio.Error.{Error}
use forstio.Buffer.Defs.{Buffer}

pub record BufferView (S : Type 0) : Type 0 where
  pub buffer : S
  pub read_offset : ℕ
  pub write_offset : ℕ

-- `BufferView::BufferView(Buffer &)`
abbrev pub make : {S : Type 0} → S → BufferView S
make s = record { buffer = s; read_offset = 0; write_offset = 0 }

module _ {S : Type 0} (b : Buffer S) where
  unfoldable pub read_position : BufferView S → ℕ
  read_position v = add_size v.read_offset (b.read_position v.buffer)

  unfoldable pub read_composite_length : BufferView S → Option ℕ
  read_composite_length v = do
    n ← b.read_composite_length v.buffer
    assert (leb v.read_offset n)
    if ltb n v.read_offset then some 0 else some (sub_size n v.read_offset)

  unfoldable pub read_segment_length : BufferView S → ℕ → Option ℕ
  read_segment_length v offset = do
    let off = add_size offset v.read_offset
    n ← b.read_composite_length v.buffer
    assert (leb off n)
    if ltb n off then some 0 else b.read_segment_length v.buffer off

  unfoldable pub read_advance : BufferView S → ℕ → Option (BufferView S)
  read_advance v bytes = do
    let offset = add_size bytes v.read_offset
    n ← b.read_composite_length v.buffer
    assert (leb offset n)
    if ltb n offset
        then some (record v { read_offset = add_size v.read_offset n })
        else some (record v { read_offset = add_size v.read_offset bytes })

  unfoldable pub read : BufferView S → ℕ → Option ℕ
  read v i = do
    let p = add_size i v.read_offset
    n ← b.read_composite_length v.buffer
    assert (ltb p n)
    b.read v.buffer p

  unfoldable pub write_position : BufferView S → ℕ
  write_position v = add_size v.write_offset (b.write_position v.buffer)

  unfoldable pub write_composite_length : BufferView S → Option ℕ
  write_composite_length v = do
    n ← b.write_composite_length v.buffer
    assert (leb v.write_offset n)
    if ltb n v.write_offset then some 0 else some (sub_size n v.write_offset)

  unfoldable pub write_segment_length : BufferView S → ℕ → Option ℕ
  write_segment_length v offset = do
    let off = add_size offset v.write_offset
    n ← b.write_composite_length v.buffer
    assert (leb off n)
    if ltb n off then some 0 else b.write_segment_length v.buffer off

  unfoldable pub write_advance : BufferView S → ℕ → Option (BufferView S)
  write_advance v bytes = do
    let offset = add_size bytes v.write_offset
    n ← b.write_composite_length v.buffer
    assert (leb offset n)
    if ltb n offset
        then some (record v { write_offset = add_size v.write_offset n })
        else some (record v { write_offset = add_size v.write_offset bytes })

  unfoldable pub write : BufferView S → ℕ → Option ℕ
  write v i = do
    let p = add_size i v.write_offset
    n ← b.write_composite_length v.buffer
    assert (ltb p n)
    b.write v.buffer p

  unfoldable pub write_require_length : BufferView S → ℕ → Option Error
  write_require_length v bytes = b.write_require_length v.buffer (add_size bytes v.write_offset)

  -- `BufferView` as a `Buffer`; its references are those of the buffer.
  abbrev pub view : Buffer (BufferView S)
  view = record {
    read_position = read_position;
    read_composite_length = read_composite_length;
    read_segment_length = read_segment_length;
    read_advance = read_advance;
    read = read;
    write_position = write_position;
    write_composite_length = write_composite_length;
    write_segment_length = write_segment_length;
    write_advance = write_advance;
    write = write;
    write_require_length = write_require_length;
    storage = λ v. b.storage v.buffer;
    with_storage = λ v m. record v { buffer = b.with_storage v.buffer m };
  }
