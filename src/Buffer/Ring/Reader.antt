-- ===== src/Buffer/Ring/Reader.antt =====
-- `RingBuffer` keeps the contract of a reader.
use forstio.Prelude.{
  ℕ, ◌+◌, ◌-◌, ◌≤◌, ◌<◌, ◌≡◌, refl, ap, sym, ◌∙◌, false, some, List, length, take, drop, arith, min,
  ltb, leb, le→leb, lt→ltb, if◌then◌else◌, add_size, copy_from, length, ◌++◌,
}
use forstio.Buffer.Contract.{IsReader, ReadSegment, ReadAdvanced}
use forstio.Buffer.Ring.{
  RingBuffer, ring, wrap, read_composite_length, read_segment_length, read_advance, read,
}
use forstio.Buffer.Ring.Order.{At, copy_from-rotate}
use forstio.Buffer.Ring.Turn.{rotate-rotate, take-drop_append, drop-take, take-take}
use forstio.Buffer.Ring.Valid.{
  Valid, ordered, readable, read_composite-le-size, write_At, length-ordered, length-readable,
}

module _ {r : RingBuffer} (v : Valid r) where
  wrap_lem :
      (p : ℕ)
      → p < length r.buffer + length r.buffer
      → (wrap r p < length r.buffer)
        × (wrap r p ≡ (if leb (length r.buffer) p then p - length r.buffer else p))
  wrap_lem p h = ground arith

  -- The cell of the byte at index `i`.
  pub read-At :
      (i : ℕ)
      → i ≤ length r.buffer
      → (wrap r (add_size r.read_position i) < length r.buffer)
        × (At r.buffer r.read_position i (wrap r (add_size r.read_position i)))
  read-At i h = ground (arith, v.small, v.read_in)

  unfoldable pub advanced : ℕ → RingBuffer
  advanced n = record r {
    read_position = wrap r (add_size r.read_position n);
    write_reached_read = if ltb 0 n then false else r.write_reached_read;
  }

  min_eq : (a b : ℕ) → a ≤ b → min a b ≡ a
  min_eq a b h = omega arith

  read_advance_lem : (n : ℕ) → n ≤ read_composite_length r → read_advance r n ≡ some (advanced n)
  unfolding read_advance advanced
  read_advance_lem n h =
      ground (arith, le→leb n (read_composite_length r) h, min_eq n (read_composite_length r) h)

  advanced-Valid : (n : ℕ) → n ≤ read_composite_length r → Valid (advanced n)
  unfolding advanced
  advanced-Valid n h = record {
    positive = v.positive;
    small = v.small;
    read_in = (read-At n (omega (arith, h, read_composite-le-size v))).0;
    write_in = v.write_in;
    met = λ e. ground arith;
  }

  -- Reading `n` bytes leaves `n` fewer.
  pub read_composite-advanced :
      (n : ℕ)
      → n ≤ read_composite_length r
      → read_composite_length (advanced n) ≡ read_composite_length r - n
  unfolding advanced read_composite_length
  read_composite-advanced n h = ground (arith, v.met)

  ordered-advanced :
      (n : ℕ)
      → n ≤ length r.buffer
      → ordered (advanced n) ≡ drop n (ordered r) ++ take n (ordered r)
  unfolding advanced ordered
  ordered-advanced n h =
      let p = read-At n h in
      rotate-rotate r.buffer r.read_position n (wrap r (add_size r.read_position n)) v.read_in h p.0
        p.1

  readable-advanced :
      (n : ℕ) → n ≤ read_composite_length r → readable (advanced n) ≡ drop n (readable r)
  unfolding readable
  readable-advanced n h =
      rw
        (
          read_composite-advanced n h,
          ordered-advanced n (omega (arith, h, read_composite-le-size v)),
        )
        (take-drop_append n (read_composite_length r) (ordered r) h
          (omega (arith, length-ordered v, read_composite-le-size v)))

  pub ring-ReadAdvanced : (n : ℕ) → n ≤ length (readable r) → ReadAdvanced ring Valid readable r n
  ring-ReadAdvanced n h =
      let k : n ≤ read_composite_length r = omega (arith, length-readable v) in
      record {
        state = advanced n;
        moved = read_advance_lem n k;
        valid = advanced-Valid n k;
        readable_after = readable-advanced n k;
      }

  -- The bytes from index `off` on that lie together.
  abbrev pub read_run : ℕ → ℕ
  read_run off =
      min (read_composite_length r - off) (length r.buffer - wrap r (add_size r.read_position off))

  -- In a valid ring, `readSegmentLength` at an offset within the readable bytes is their number from
  -- there up to the last one or to the end of the storage, whichever comes first.
  pub read_segment_length_lem :
      (off : ℕ) → off ≤ read_composite_length r → read_segment_length r off ≡ some (read_run off)
  unfolding read_segment_length
  read_segment_length_lem off h =
      let e = min_eq off (read_composite_length r) h in
      rw (le→leb off (read_composite_length r) h)
        (ground (arith, e, v.met, write_At v, read_composite-le-size v, read-At off))

  readable_part :
      (off n : ℕ)
      → off ≤ read_composite_length r
      → n ≤ read_composite_length r - off
      → take n (drop off (ordered r)) ≡ take n (drop off (readable r))
  unfolding readable
  readable_part off n h k = sym (
      ap (take n) (drop-take off (read_composite_length r) (ordered r) h)
      ∙ take-take n (read_composite_length r - off) (drop off (ordered r)) k)

  pub ring-ReadSegment : (off : ℕ) → off < length (readable r) → ReadSegment ring readable r off
  unfolding read
  ring-ReadSegment off h =
      let k : off < read_composite_length r = omega (arith, length-readable v) in
      let le = read_composite-le-size v in
      let p = read-At off (omega arith) in
      record {
        size = read_run off;
        place = wrap r (add_size r.read_position off);
        reported = read_segment_length_lem off (omega arith);
        positive = omega arith;
        inside = omega (arith, length-readable v);
        at = rw (lt→ltb off (read_composite_length r) k) refl;
        loaded = λ n fit. loaded off n k p fit;
      }
    where
      loaded :
          (o n : ℕ)
          → o < read_composite_length r
          → (wrap r (add_size r.read_position o) < length r.buffer)
            × (At r.buffer r.read_position o (wrap r (add_size r.read_position o)))
          → n ≤ read_run o
          → copy_from r.buffer (wrap r (add_size r.read_position o)) n
            ≡ some (take n (drop o (readable r)))
      loaded o n k p fit =
          unfold ordered in
          (copy_from-rotate n r.buffer r.read_position o (wrap r (add_size r.read_position o))
              v.read_in (omega (arith, read_composite-le-size v)) (omega arith) p.1
            ∙ ap (λ (c : List ℕ). some c) (readable_part o n (omega arith) (omega arith)))

-- `RingBuffer` keeps the contract of a reader.
pub ring-IsReader : IsReader ring Valid readable
ring-IsReader = record {
  small = λ r v. omega (arith, length-readable v, read_composite-le-size v, v.small);
  composite = λ r v. ap some (read_length v);
  segment = λ r off v. ring-ReadSegment v off;
  advance = λ r n v. ring-ReadAdvanced v n;
}
  where
    read_length : {r : RingBuffer} → Valid r → read_composite_length r ≡ length (readable r)
    read_length v = sym (length-readable v)
