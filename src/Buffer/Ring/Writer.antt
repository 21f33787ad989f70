-- ===== src/Buffer/Ring/Writer.antt =====
-- `RingBuffer` keeps the contract of a writer: what has been written is what can be read.
use forstio.Prelude.{
  ℕ, ◌+◌, ◌-◌, ◌≤◌, ◌<◌, ◌≡◌, refl, ap, ap₂, sym, ◌∙◌, true, false, some, List, length, take, drop,
  arith, min, ltb, ◌==◌, le→leb, lt→ltb, le→ltb, if◌then◌else◌, add_size, ◌++◌, overwrite,
}
use forstio.Prelude.Laws.{take-add, drop-drop, drop-overwrite, take-overwrite}
use forstio.Buffer.Contract.{IsWriter, WriteSegment, WriteAdvanced, Stored, Refuses}
use forstio.Buffer.Ring.{
  RingBuffer, ring, wrap, read_composite_length, write_composite_length, write_segment_length,
  write_advance, write, write_require_length,
}
use forstio.Buffer.Ring.Order.{rotate, At, copy_to-rotate}
use forstio.Buffer.Ring.Valid.{
  Valid, ordered, readable, spare, read_composite-le-size, composite_lengths, write_At,
  length-spare,
}

module _ {r : RingBuffer} (v : Valid r) where
  min_eq : (a b : ℕ) → a < b → min a b ≡ a
  min_eq a b h = omega arith

  -- The cell of the spare cell with index `i`.
  pub write-At :
      (i : ℕ)
      → read_composite_length r + i < length r.buffer
      → (wrap r (add_size r.write_position i) < length r.buffer)
        × (At r.buffer r.read_position
            (read_composite_length r + i)
            (wrap r (add_size r.write_position i)))
  write-At i h = ground (arith, v.small, v.write_in, v.read_in, write_At v)

  -- While there is room, the write position has not reached the read position.
  pub room-not_reached : 1 ≤ write_composite_length r → r.write_reached_read ≡ false
  unfolding write_composite_length
  room-not_reached h = ground (arith, v.met)

  -- The spare cells from index `off` on that lie together.
  abbrev pub write_run : ℕ → ℕ
  write_run off =
      min (write_composite_length r - off)
        (length r.buffer - wrap r (add_size r.write_position off))

  -- In a valid ring, `writeSegmentLength` at an offset below the number of spare cells is their
  -- number from there up to the last one or to the end of the storage, whichever comes first.
  pub write_segment_length_lem :
      (off : ℕ) → off < write_composite_length r → write_segment_length r off ≡ some (write_run off)
  unfolding write_segment_length
  write_segment_length_lem off h =
      let e = min_eq off (write_composite_length r) h in
      rw (le→leb off (write_composite_length r) (omega arith)) (
        ground (
          arith,
          e,
          room-not_reached (omega arith),
          write_At v,
          write-At off (omega (arith, composite_lengths v)),
          v.read_in,
          read_composite-le-size v,
          composite_lengths v,
        ))

  unfoldable pub filled : List ℕ → RingBuffer
  filled m = record r { buffer = m }

  read_composite-filled :
      (m : List ℕ)
      → length m ≡ length r.buffer
      → read_composite_length (filled m) ≡ read_composite_length r
  unfolding read_composite_length filled
  read_composite-filled m e = rw e refl

  filled-Valid : (m : List ℕ) → length m ≡ length r.buffer → Valid (filled m)
  unfolding filled
  filled-Valid m e = record {
    positive = omega (arith, v.positive);
    small = omega (arith, v.small);
    read_in = omega (arith, v.read_in);
    write_in = omega (arith, v.write_in);
    met = v.met;
  }

  unfoldable pub advanced : ℕ → RingBuffer
  advanced n =
      let p = wrap r (add_size r.write_position n) in
      record r {
        write_position = p;
        write_reached_read =
            if p == r.read_position then (if ltb 0 n then true else false) else false;
      }

  pub write_advance_lem :
      (n : ℕ) → n ≤ write_composite_length r → write_advance r n ≡ some (advanced n)
  unfolding write_advance advanced
  write_advance_lem n h = rw (le→leb n (write_composite_length r) h) refl

  advanced-Valid : (n : ℕ) → n ≤ write_composite_length r → Valid (advanced n)
  unfolding advanced
  advanced-Valid n h = record {
    positive = v.positive;
    small = v.small;
    read_in = v.read_in;
    write_in = ground (arith, v.small, v.write_in, composite_lengths v);
    met = λ e. ground arith;
  }

  -- Passing `n` cells makes `n` bytes more to read, unless `n` is zero.
  pub read_composite-advanced :
      (n : ℕ)
      → 1 ≤ n
      → n ≤ write_composite_length r
      → read_composite_length (advanced n) ≡ read_composite_length r + n
  unfolding advanced read_composite_length write_composite_length
  read_composite-advanced n one h = ground (arith, v.met)

  ordered-advanced : (n : ℕ) → ordered (advanced n) ≡ ordered r
  unfolding ordered advanced
  ordered-advanced n = refl

  written-advanced :
      (n : ℕ)
      → 1 ≤ n
      → n ≤ write_composite_length r
      → readable (advanced n) ≡ readable r ++ take n (spare r)
  unfolding readable spare
  written-advanced n one h =
      rw (read_composite-advanced n one h, ordered-advanced n)
        (take-add (read_composite_length r) n (ordered r))

  spare-advanced :
      (n : ℕ) → 1 ≤ n → n ≤ write_composite_length r → spare (advanced n) ≡ drop n (spare r)
  unfolding spare
  spare-advanced n one h =
      rw (read_composite-advanced n one h, ordered-advanced n)
        (sym (drop-drop n (read_composite_length r) (ordered r)))

  -- The storage after a copy to the spare cells from index `off` on.
  module _ (off : ℕ) (bs m : List ℕ) (e : length m ≡ length r.buffer)
      (f : rotate m r.read_position
        ≡ overwrite (rotate r.buffer r.read_position) (read_composite_length r + off) bs) where
    spare-filled : spare (filled m) ≡ overwrite (spare r) off bs
    unfolding spare ordered filled
    spare-filled =
        ap₂ drop (read_composite-filled m e) f
        ∙ drop-overwrite (read_composite_length r) off (rotate r.buffer r.read_position) bs

    written-filled : readable (filled m) ≡ readable r
    unfolding readable ordered filled
    written-filled =
        ap₂ take (read_composite-filled m e) f
        ∙ take-overwrite (read_composite_length r) (read_composite_length r + off)
            (rotate r.buffer r.read_position) bs (omega arith)

  pub ring-WriteAdvanced :
      (n : ℕ) → 1 ≤ n → n ≤ length (spare r) → WriteAdvanced ring Valid spare readable r n
  ring-WriteAdvanced n one h =
      let k : n ≤ write_composite_length r = omega (arith, length-spare v) in
      record {
        state = advanced n;
        moved = write_advance_lem n k;
        valid = advanced-Valid n k;
        spare_after = spare-advanced n one k;
        written_after = written-advanced n one k;
      }

  pub ring-Stored :
      (off : ℕ) (bs : List ℕ)
      → off < write_composite_length r
      → length bs ≤ write_run off
      → Stored ring Valid spare readable r off bs
  unfolding write
  ring-Stored off bs k fit =
      let len = read_composite_length r in
      let p = write-At off (omega (arith, composite_lengths v)) in
      let c =
        copy_to-rotate bs r.buffer r.read_position (len + off)
          (wrap r (add_size r.write_position off)) v.read_in (omega (arith, composite_lengths v))
          (omega arith) p.1 in
      record {
        place = wrap r (add_size r.write_position off);
        cells = c.0;
        at = rw (lt→ltb off (write_composite_length r) k) refl;
        copied = c.1;
        valid = unfold filled in (filled-Valid c.0 c.2);
        spare_after = unfold filled in (spare-filled off bs c.0 c.2 c.3);
        written_after = unfold filled in (written-filled off bs c.0 c.2 c.3);
      }

  pub ring-WriteSegment :
      (off : ℕ) → off < length (spare r) → WriteSegment ring Valid spare readable r off
  ring-WriteSegment off h =
      let k : off < write_composite_length r = omega (arith, length-spare v) in
      let p = write-At off (omega (arith, composite_lengths v)) in
      record {
        size = write_run off;
        reported = write_segment_length_lem off k;
        positive = omega arith;
        inside = omega (arith, length-spare v);
        stored = λ bs fit. ring-Stored off bs k fit;
      }

-- `RingBuffer` keeps the contract of a writer.
pub ring-IsWriter : IsWriter ring Valid spare readable
unfolding write_require_length
ring-IsWriter = record {
  small = λ r v. omega (arith, length-spare v, composite_lengths v, v.small);
  composite = λ r v. ap some (write_length v);
  fits = λ r n v h. rw (le→ltb (write_composite_length r) n (omega (arith, length-spare v))) refl;
  segment = λ r off v. ring-WriteSegment v off;
  advance = λ r n v. ring-WriteAdvanced v n;
}
  where
    write_length : {r : RingBuffer} → Valid r → write_composite_length r ≡ length (spare r)
    write_length v = sym (length-spare v)

-- `writeRequireLength` refuses what does not fit.
pub ring-Refuses : Refuses ring Valid spare
unfolding write_require_length
ring-Refuses r n v h _ =
    rw (lt→ltb (write_composite_length r) n (omega (arith, length-spare v))) refl
