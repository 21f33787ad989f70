-- ===== src/Io/Peer/Arrive.antt =====
-- Where the bytes land that the stream reads for the peer, source/forstio/io_peer.tmpl.h: it is asked
-- for them before the peer decodes, and delivers them after that.
use forstio.Prelude.{
  ℕ, ◌+◌, ◌≤◌, ◌≡◌, sym, ap, ◌∙◌, Option, some, some-injective, List, ◌++◌, length, arith, ◌>>=◌,
  copy_to, add_size,
}
use forstio.Prelude.Laws.{length-append}
use forstio.Buffer.Defs.{Buffer}
use forstio.Buffer.Contract.{IsReader}
use forstio.Buffer.Contract.Append.{Appended, advance-Appended}
use forstio.Buffer.Ring.{
  RingBuffer, ring, wrap, write_composite_length, read_advance, write_advance, write,
}
use forstio.Buffer.Ring.Valid.{
  Valid, readable, spare, composite_lengths, length-readable, length-spare,
}
use forstio.Buffer.Ring.Writer.{ring-IsWriter, ring-Stored, write_segment_length_lem}

-- Reading leaves the write position and the storage as they are.
pub read_advance-pinned :
    (q q' : RingBuffer) (n : ℕ)
    → read_advance q n ≡ some q'
    → (q'.write_position ≡ q.write_position) × (q'.buffer ≡ q.buffer)
unfolding read_advance
read_advance-pinned q q' n e = ground arith

-- A reader keeps what reading does not change.
pub kept-IsReader :
    {S : Type 0} {b : Buffer S} {Valid : S → Type 0} {readable : S → List ℕ}
    (r : IsReader b Valid readable) (Keep : S → Type 0)
    → ((s s' : S) (n : ℕ) → b.read_advance s n ≡ some s' → Keep s → Keep s')
    → IsReader b (λ s. Valid s × Keep s) readable
kept-IsReader r Keep keeps = record {
  small = λ s v. r.small s v.0;
  composite = λ s v. r.composite s v.0;
  segment = λ s off v. r.segment s off v.0;
  advance = λ s n v h.
      let a = r.advance s n v.0 h in
      record {
        state = a.state;
        moved = a.moved;
        valid = (a.valid, keeps s a.state n a.moved v.1);
        readable_after = a.readable_after;
      };
}

-- The stream writes `bs` to the cells from `place` on, and they are passed over.
abbrev pub arrive : ℕ → List ℕ → RingBuffer → Option RingBuffer
arrive place bs q =
    (copy_to q.buffer place bs >>= λ cells. some (record q { buffer = cells })) >>= λ q'.
    write_advance q' (length bs)

place_lem : {q : RingBuffer} → Valid q → wrap q (add_size q.write_position 0) ≡ q.write_position
place_lem v = ground (arith, v.small, v.write_in)

-- `write(0)` is the cell at the write position.
pub write_zero : {q : RingBuffer} (p : ℕ) → Valid q → ring.write q 0 ≡ some p → p ≡ q.write_position
unfolding write
write_zero p v e = ground (arith, place_lem v)

-- The cells that `writeSegmentLength` counts end within the storage.
pub segment_end :
    {q : RingBuffer} (n : ℕ)
    → Valid q
    → 1 ≤ length (spare q)
    → ring.write_segment_length q 0 ≡ some n
    → n + q.write_position ≤ length q.buffer
segment_end {q} n v room e =
    let run = sym e ∙ write_segment_length_lem v 0 (omega (arith, length-spare v, room)) in
    omega (arith, some-injective run, place_lem v, v.write_in)

arrived :
    (q : RingBuffer) (place at : ℕ) (bs cells : List ℕ)
    → place ≡ at
    → copy_to q.buffer at bs ≡ some cells
    → (copy_to q.buffer place bs >>= λ c. some (record q { buffer = c }))
      ≡ some (record q { buffer = cells })
arrived q place at bs cells e c =
    ap (λ p. copy_to q.buffer p bs >>= λ d. some (record q { buffer = d })) e
    ∙ ap (λ r. r >>= λ d. some (record q { buffer = d })) c

-- As many bytes as there are spare cells, and cells up to the end of the storage, are appended.
pub arrive-Appended :
    (q : RingBuffer) (place : ℕ) (bs : List ℕ) (v : Valid q)
    → place ≡ q.write_position
    → 1 ≤ length bs
    → length bs ≤ length (spare q)
    → length bs + q.write_position ≤ length q.buffer
    → Appended Valid spare readable q bs (arrive place bs q)
arrive-Appended q place bs v at one room inside =
    let k : length (spare q) ≡ write_composite_length q = length-spare v in
    let c = ring-Stored v 0 bs (omega arith) (omega (arith, place_lem v)) in
    advance-Appended ring-IsWriter q bs
      (record {
        state = record q { buffer = c.cells };
        returned =
            arrived q place c.place bs c.cells (at ∙ sym (write_zero c.place v c.at)) c.copied;
        valid = c.valid;
        spare_after = c.spare_after;
        written_after = c.written_after;
      })
      one room

-- The storage and the write position are those of `before`.
abbrev pub IsPinned : RingBuffer → RingBuffer → Type 0
IsPinned before q = (q.write_position ≡ before.write_position) × (q.buffer ≡ before.buffer)

-- A request that was made before the packets `done` were read is answered after that.
pub answered :
    (before after : RingBuffer) (place n : ℕ) (bs done rest : List ℕ)
    → Valid before
    → Valid after
    → IsPinned before after
    → place ≡ before.write_position
    → readable before ≡ done ++ rest
    → readable after ≡ rest
    → n ≤ length (spare before)
    → n + before.write_position ≤ length before.buffer
    → 1 ≤ length bs
    → length bs ≤ n
    → Appended Valid spare readable after bs (arrive place bs after)
answered before after place n bs done rest v v' same at held left fit inside some_there h =
    let size : length after.buffer ≡ length before.buffer = ap length same.1 in
    let all : length (readable before) ≡ length done + length rest =
      ap length held ∙ length-append done rest in
    let kept : length (readable after) ≡ length rest = ap length left in
    let room : length bs ≤ length (spare after) = omega (
      arith,
      composite_lengths v,
      composite_lengths v',
      length-readable v,
      length-readable v',
      length-spare v,
      length-spare v',
      size,
      all,
      kept,
      fit,
      h,
    ) in
    arrive-Appended after place bs v' (at ∙ sym same.0) some_there room
      (omega (arith, size, same.0, inside, h))
