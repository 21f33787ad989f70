-- ===== src/Buffer/Contract.antt =====
-- What the clients of a `Buffer` (`push`, `pop`, the stream values and the codec) need of one: an
-- account of the bytes that can be read, and of the cells that can be written.
pub mod Append
pub mod Load
use forstio.Prelude.{
  ℕ, ◌+◌, ◌^◌, ◌≤◌, ◌<◌, ◌≡◌, Option, none, some, List, ◌++◌, length, take, drop, overwrite,
  copy_to, copy_from,
}
use forstio.Error.{Error, no_error}
use forstio.Buffer.Defs.{Buffer, too_small}

-- The block `bs` has been copied to the cells from `write(off)` on.
pub record Stored {S : Type 0} (b : Buffer S) (Valid : S → Type 0) (spare written : S → List ℕ)
    (s : S) (off : ℕ) (bs : List ℕ) : Type 0 where
  pub place : ℕ
  pub cells : List ℕ
  pub at : b.write s off ≡ some place
  pub copied : copy_to (b.storage s) place bs ≡ some cells
  pub valid : Valid (b.with_storage s cells)
  pub spare_after : spare (b.with_storage s cells) ≡ overwrite (spare s) off bs
  pub written_after : written (b.with_storage s cells) ≡ written s

-- The cells from `write(off)` on that lie together.
pub record WriteSegment {S : Type 0} (b : Buffer S) (Valid : S → Type 0)
    (spare written : S → List ℕ) (s : S) (off : ℕ) : Type 0 where
  pub size : ℕ
  pub reported : b.write_segment_length s off ≡ some size
  pub positive : 1 ≤ size
  pub inside : off + size ≤ length (spare s)
  pub stored : (bs : List ℕ) → length bs ≤ size → Stored b Valid spare written s off bs

pub record WriteAdvanced {S : Type 0} (b : Buffer S) (Valid : S → Type 0)
    (spare written : S → List ℕ) (s : S) (n : ℕ) : Type 0 where
  pub state : S
  pub moved : b.write_advance s n ≡ some state
  pub valid : Valid state
  pub spare_after : spare state ≡ drop n (spare s)
  pub written_after : written state ≡ written s ++ take n (spare s)

-- `spare` are the cells that can be written, first to last, with what stands in them; `written`
-- are the bytes that have been passed by `writeAdvance`.
pub record IsWriter {S : Type 0} (b : Buffer S) (Valid : S → Type 0) (spare written : S → List ℕ)
    : Type 0 where
  pub small : (s : S) → Valid s → length (spare s) < 2 ^ 63
  pub composite : (s : S) → Valid s → b.write_composite_length s ≡ some (length (spare s))
  pub fits :
      (s : S) (n : ℕ) → Valid s → n ≤ length (spare s) → b.write_require_length s n ≡ some no_error
  pub segment :
      (s : S) (off : ℕ)
      → Valid s
      → off < length (spare s)
      → WriteSegment b Valid spare written s off
  pub advance :
      (s : S) (n : ℕ)
      → Valid s
      → 1 ≤ n
      → n ≤ length (spare s)
      → WriteAdvanced b Valid spare written s n

-- `writeRequireLength` refuses what does not fit.
abbrev pub Refuses : {S : Type 0} → Buffer S → (S → Type 0) → (S → List ℕ) → Type 0
Refuses {S} b Valid spare =
    (s : S) (n : ℕ)
    → Valid s
    → length (spare s) < n
    → n < 2 ^ 64
    → b.write_require_length s n ≡ some too_small

-- The bytes from `read(off)` on that lie together.
pub record ReadSegment {S : Type 0} (b : Buffer S) (readable : S → List ℕ) (s : S) (off : ℕ)
    : Type 0 where
  pub size : ℕ
  pub place : ℕ
  pub reported : b.read_segment_length s off ≡ some size
  pub positive : 1 ≤ size
  pub inside : off + size ≤ length (readable s)
  pub at : b.read s off ≡ some place
  pub loaded :
      (n : ℕ) → n ≤ size → copy_from (b.storage s) place n ≡ some (take n (drop off (readable s)))

pub record ReadAdvanced {S : Type 0} (b : Buffer S) (Valid : S → Type 0) (readable : S → List ℕ)
    (s : S) (n : ℕ) : Type 0 where
  pub state : S
  pub moved : b.read_advance s n ≡ some state
  pub valid : Valid state
  pub readable_after : readable state ≡ drop n (readable s)

-- `readable` are the bytes that can be read, first to last.
pub record IsReader {S : Type 0} (b : Buffer S) (Valid : S → Type 0) (readable : S → List ℕ)
    : Type 0 where
  pub small : (s : S) → Valid s → length (readable s) < 2 ^ 63
  pub composite : (s : S) → Valid s → b.read_composite_length s ≡ some (length (readable s))
  pub segment :
      (s : S) (off : ℕ) → Valid s → off < length (readable s) → ReadSegment b readable s off
  pub advance :
      (s : S) (n : ℕ) → Valid s → n ≤ length (readable s) → ReadAdvanced b Valid readable s n
