-- ===== src/Buffer/View/Reader.antt =====
-- A view over a reader is a reader, and reading through it leaves the buffer as it is.
use forstio.Prelude.{
  ℕ, ◌+◌, ◌≤◌, ◌<◌, ◌≡◌, refl, ap, sym, ◌∙◌, some, List, length, take, drop, arith, le→leb, lt→ltb,
  le→ltb, add_size,
}
use forstio.Prelude.Laws.{length-drop, drop-drop}
use forstio.Buffer.Defs.{Buffer}
use forstio.Buffer.Contract.{IsReader, ReadSegment, ReadAdvanced}
use forstio.Buffer.View.{
  BufferView, view, read_composite_length, read_segment_length, read_advance, read,
}

-- A view that reads the buffer `s₀`.
pub record Reading {S : Type 0} (Valid : S → Type 0) (readable : S → List ℕ) (s₀ : S)
    (v : BufferView S) : Type 0 where
  pub valid : Valid v.buffer
  pub inside : v.read_offset ≤ length (readable v.buffer)
  pub same : v.buffer ≡ s₀

-- The bytes behind the read offset.
abbrev pub view_readable : {S : Type 0} → (S → List ℕ) → BufferView S → List ℕ
view_readable readable v = drop v.read_offset (readable v.buffer)

module _ {S : Type 0} {b : Buffer S} {Valid : S → Type 0} {readable : S → List ℕ}
    (r : IsReader b Valid readable) (s₀ : S) where
  module _ (v : BufferView S) (h : Reading Valid readable s₀ v) where
    composite_lem : read_composite_length b v ≡ some (length (view_readable readable v))
    unfolding read_composite_length
    composite_lem =
        rw
          (
            r.composite v.buffer h.valid,
            le→leb v.read_offset (length (readable v.buffer)) h.inside,
            le→ltb (length (readable v.buffer)) v.read_offset h.inside,
          )
          (ap some (
            omega (
              arith,
              r.small v.buffer h.valid,
              length-drop v.read_offset (readable v.buffer),
              h.inside,
            )))

    segment_from :
        (off : ℕ)
        → off < length (view_readable readable v)
        → ReadSegment b readable v.buffer (off + v.read_offset)
        → ReadSegment (view b) (view_readable readable) v off
    unfolding read_segment_length read
    segment_from off k g =
        let len = length-drop v.read_offset (readable v.buffer) in
        let p : add_size off v.read_offset ≡ off + v.read_offset =
          omega (arith, r.small v.buffer h.valid, len) in
        record {
          size = g.size;
          place = g.place;
          reported =
              rw
                (
                  r.composite v.buffer h.valid,
                  p,
                  le→leb (off + v.read_offset) (length (readable v.buffer)) (omega arith),
                  le→ltb (length (readable v.buffer)) (off + v.read_offset) (omega arith),
                )
                g.reported;
          positive = g.positive;
          inside = omega (arith, g.inside, len);
          at =
              rw
                (
                  r.composite v.buffer h.valid,
                  p,
                  lt→ltb (off + v.read_offset) (length (readable v.buffer)) (omega (arith, len)),
                )
                g.at;
          loaded = λ n fit.
              g.loaded n fit
              ∙ ap (λ k. some (take n (drop k (readable v.buffer)))) {x = off + v.read_offset}
                  {y = v.read_offset + off} (omega arith)
              ∙ ap (λ (c : List ℕ). some (take n c))
                  (sym (drop-drop off v.read_offset (readable v.buffer)));
        }

    segment_lem :
        (off : ℕ)
        → off < length (view_readable readable v)
        → ReadSegment (view b) (view_readable readable) v off
    segment_lem off k = segment_from off k (
        r.segment v.buffer (off + v.read_offset) h.valid
          (omega (arith, length-drop v.read_offset (readable v.buffer))))

    advance_lem :
        (n : ℕ)
        → n ≤ length (view_readable readable v)
        → ReadAdvanced (view b) (Reading Valid readable s₀) (view_readable readable) v n
    unfolding read_advance
    advance_lem n k =
        let len = length-drop v.read_offset (readable v.buffer) in
        let small = r.small v.buffer h.valid in
        let p : add_size n v.read_offset ≡ n + v.read_offset = omega (arith, small, len) in
        let q : add_size v.read_offset n ≡ v.read_offset + n = omega (arith, small, len) in
        record {
          state = record v { read_offset = v.read_offset + n };
          moved =
              rw
                (
                  r.composite v.buffer h.valid,
                  p,
                  le→leb (n + v.read_offset) (length (readable v.buffer))
                      (omega (arith, len, h.inside)),
                  le→ltb (length (readable v.buffer)) (n + v.read_offset)
                      (omega (arith, len, h.inside)),
                  q,
                )
                refl;
          valid = record { valid = h.valid; inside = omega (arith, len, h.inside); same = h.same };
          readable_after = sym (drop-drop n v.read_offset (readable v.buffer));
        }

  -- A view keeps the contract of a reader.
  pub view-IsReader : IsReader (view b) (Reading Valid readable s₀) (view_readable readable)
  view-IsReader = record {
    small = λ v h.
        omega (arith, r.small v.buffer h.valid, length-drop v.read_offset (readable v.buffer));
    composite = composite_lem;
    segment = λ v off h. segment_lem v h off;
    advance = λ v n h. advance_lem v h n;
  }
