-- ===== src/Buffer/View/Writer.antt =====
-- A view over a writer is a writer: it fills the spare cells of the buffer, and the buffer has
-- written nothing until its own `writeAdvance`.
use forstio.Prelude.{
  ℕ, ◌+◌, ◌≤◌, ◌<◌, ◌≡◌, refl, ap, sym, ◌∙◌, some, List, length, take, drop, arith, le→leb, lt→ltb,
  le→ltb, add_size, overwrite,
}
use forstio.Prelude.Laws.{
  length-drop, drop-drop, take-add, drop-overwrite, take-overwrite, length-overwrite,
}
use forstio.Error.{no_error}
use forstio.Buffer.Defs.{Buffer}
use forstio.Buffer.Contract.{IsWriter, WriteSegment, WriteAdvanced, Stored}
use forstio.Buffer.View.{
  BufferView, view, write_composite_length, write_segment_length, write_advance, write,
  write_require_length,
}

-- A view into the spare cells of a buffer that has written `before`.
pub record Writing {S : Type 0} (Valid : S → Type 0) (spare written : S → List ℕ) (before : List ℕ)
    (v : BufferView S) : Type 0 where
  pub valid : Valid v.buffer
  pub inside : v.write_offset ≤ length (spare v.buffer)
  pub same : written v.buffer ≡ before

-- The cells behind the write offset, and those that the view has passed.
abbrev pub view_spare : {S : Type 0} → (S → List ℕ) → BufferView S → List ℕ
view_spare spare v = drop v.write_offset (spare v.buffer)

abbrev pub view_written : {S : Type 0} → (S → List ℕ) → BufferView S → List ℕ
view_written spare v = take v.write_offset (spare v.buffer)

module _ {S : Type 0} {b : Buffer S} {Valid : S → Type 0} {spare written : S → List ℕ}
    (w : IsWriter b Valid spare written) (before : List ℕ) where
  module _ (v : BufferView S) (h : Writing Valid spare written before v) where
    composite_lem : write_composite_length b v ≡ some (length (view_spare spare v))
    unfolding write_composite_length
    composite_lem =
        rw
          (
            w.composite v.buffer h.valid,
            le→leb v.write_offset (length (spare v.buffer)) h.inside,
            le→ltb (length (spare v.buffer)) v.write_offset h.inside,
          )
          (ap some (
            omega (
              arith,
              w.small v.buffer h.valid,
              length-drop v.write_offset (spare v.buffer),
              h.inside,
            )))

    fits_lem :
        (n : ℕ) → n ≤ length (view_spare spare v) → write_require_length b v n ≡ some no_error
    unfolding write_require_length
    fits_lem n k =
        let len = length-drop v.write_offset (spare v.buffer) in
        let p : add_size n v.write_offset ≡ n + v.write_offset =
          omega (arith, w.small v.buffer h.valid, len, h.inside) in
        ap (b.write_require_length v.buffer) p
        ∙ w.fits v.buffer (n + v.write_offset) h.valid (omega (arith, len, h.inside))

    stored_lem :
        (off : ℕ) (bs : List ℕ)
        → off < length (view_spare spare v)
        → Stored b Valid spare written v.buffer (off + v.write_offset) bs
        → Stored
            (view b)
            (Writing Valid spare written before)
            (view_spare spare)
            (view_written spare)
            v
            off
            bs
    unfolding write
    stored_lem off bs k g =
        let len = length-drop v.write_offset (spare v.buffer) in
        let p : add_size off v.write_offset ≡ off + v.write_offset =
          omega (arith, w.small v.buffer h.valid, len) in
        let swap : overwrite (spare v.buffer) (off + v.write_offset) bs
            ≡ overwrite (spare v.buffer) (v.write_offset + off) bs =
          ap (λ i. overwrite (spare v.buffer) i bs) {x = off + v.write_offset}
            {y = v.write_offset + off} (omega arith) in
        record {
          place = g.place;
          cells = g.cells;
          at =
              rw
                (
                  w.composite v.buffer h.valid,
                  p,
                  lt→ltb (off + v.write_offset) (length (spare v.buffer)) (omega (arith, len)),
                )
                g.at;
          copied = g.copied;
          valid = record {
            valid = g.valid;
            inside = rw (g.spare_after, length-overwrite) h.inside;
            same = g.written_after ∙ h.same;
          };
          spare_after =
              ap (drop v.write_offset) (g.spare_after ∙ swap)
              ∙ drop-overwrite v.write_offset off (spare v.buffer) bs;
          written_after =
              ap (take v.write_offset) (g.spare_after ∙ swap)
              ∙ take-overwrite v.write_offset (v.write_offset + off) (spare v.buffer) bs
                  (omega arith);
        }

    segment_from :
        (off : ℕ)
        → off < length (view_spare spare v)
        → WriteSegment b Valid spare written v.buffer (off + v.write_offset)
        → WriteSegment
            (view b)
            (Writing Valid spare written before)
            (view_spare spare)
            (view_written spare)
            v
            off
    unfolding write_segment_length
    segment_from off k g =
        let len = length-drop v.write_offset (spare v.buffer) in
        let p : add_size off v.write_offset ≡ off + v.write_offset =
          omega (arith, w.small v.buffer h.valid, len) in
        record {
          size = g.size;
          reported =
              rw
                (
                  w.composite v.buffer h.valid,
                  p,
                  le→leb (off + v.write_offset) (length (spare v.buffer)) (omega (arith, len)),
                  le→ltb (length (spare v.buffer)) (off + v.write_offset) (omega (arith, len)),
                )
                g.reported;
          positive = g.positive;
          inside = omega (arith, g.inside, len);
          stored = λ bs fit. stored_lem off bs k (g.stored bs fit);
        }

    segment_lem :
        (off : ℕ)
        → off < length (view_spare spare v)
        → WriteSegment
            (view b)
            (Writing Valid spare written before)
            (view_spare spare)
            (view_written spare)
            v
            off
    segment_lem off k = segment_from off k (
        w.segment v.buffer (off + v.write_offset) h.valid
          (omega (arith, length-drop v.write_offset (spare v.buffer))))

    -- Also for no bytes at all, which `RingBuffer` itself does not allow.
    pub advance_lem :
        (n : ℕ)
        → n ≤ length (view_spare spare v)
        → WriteAdvanced
            (view b)
            (Writing Valid spare written before)
            (view_spare spare)
            (view_written spare)
            v
            n
    unfolding write_advance
    advance_lem n k =
        let len = length-drop v.write_offset (spare v.buffer) in
        let small = w.small v.buffer h.valid in
        let p : add_size n v.write_offset ≡ n + v.write_offset = omega (arith, small, len) in
        let q : add_size v.write_offset n ≡ v.write_offset + n = omega (arith, small, len) in
        record {
          state = record v { write_offset = v.write_offset + n };
          moved =
              rw
                (
                  w.composite v.buffer h.valid,
                  p,
                  le→leb (n + v.write_offset) (length (spare v.buffer))
                      (omega (arith, len, h.inside)),
                  le→ltb (length (spare v.buffer)) (n + v.write_offset)
                      (omega (arith, len, h.inside)),
                  q,
                )
                refl;
          valid = record { valid = h.valid; inside = omega (arith, len, h.inside); same = h.same };
          spare_after = sym (drop-drop n v.write_offset (spare v.buffer));
          written_after = take-add v.write_offset n (spare v.buffer);
        }

  -- A view keeps the contract of a writer.
  pub view-IsWriter :
      IsWriter (view b) (Writing Valid spare written before) (view_spare spare) (view_written spare)
  view-IsWriter = record {
    small =
        λ v h. omega (arith, w.small v.buffer h.valid, length-drop v.write_offset (spare v.buffer));
    composite = composite_lem;
    fits = λ v n h. fits_lem v h n;
    segment = λ v off h. segment_lem v h off;
    advance = λ v n h _. advance_lem v h n;
  }
