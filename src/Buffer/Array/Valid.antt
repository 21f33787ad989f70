-- ===== src/Buffer/Array/Valid.antt =====
-- `ArrayBuffer` keeps the contracts of a reader and of a writer.
use forstio.Prelude.{
  ℕ, ◌+◌, ◌-◌, ◌^◌, ◌≤◌, ◌<◌, ◌≡◌, refl, ap, ap₂, sym, ◌∙◌, some, List, length, take, drop, arith,
  min, le→leb, lt→ltb, le→ltb, sub_size, copy_from, overwrite, append-nil, inl,
}
use forstio.Prelude.Laws.{
  length-drop, length-take, drop-drop, take-add, drop-overwrite, take-overwrite, length-replicate,
}
use forstio.Buffer.Contract.{
  IsReader, ReadSegment, ReadAdvanced, IsWriter, WriteSegment, WriteAdvanced, Stored, Refuses,
}
use forstio.Buffer.Ring.Order.{rotate, copy_to-rotate, copy_from-rotate}
use forstio.Buffer.Ring.Turn.{drop-take, take-take, drop-append_left}
use forstio.Buffer.Array.{
  ArrayBuffer, array, make, read_segment_length, read_advance, read, write_composite_length,
  write_segment_length, write_advance, write, write_require_length,
}

pub record Valid (a : ArrayBuffer) : Type 0 where
  pub small : length a.buffer < 2 ^ 63
  pub ordered : a.read_position ≤ a.write_position
  pub write_in : a.write_position ≤ length a.buffer

unfoldable pub readable : ArrayBuffer → List ℕ
readable a = drop a.read_position (take a.write_position a.buffer)

unfoldable pub spare : ArrayBuffer → List ℕ
spare a = drop a.write_position a.buffer

rotate-zero : (m : List ℕ) → rotate m 0 ≡ m
unfolding rotate
rotate-zero m = append-nil m

min_eq : (a b : ℕ) → a ≤ b → min b a ≡ a
min_eq a b h = omega arith

module _ {a : ArrayBuffer} (v : Valid a) where
  length-readable : length (readable a) ≡ a.write_position - a.read_position
  unfolding readable
  length-readable = rw (length-drop, length-take a.write_position a.buffer v.write_in) refl

  length-spare : length (spare a) ≡ length a.buffer - a.write_position
  unfolding spare
  length-spare = length-drop a.write_position a.buffer

  read_lem : sub_size a.write_position a.read_position ≡ a.write_position - a.read_position
  read_lem = omega (arith, v.small, v.ordered, v.write_in)

  room_lem : sub_size (length a.buffer) a.write_position ≡ length a.buffer - a.write_position
  room_lem = omega (arith, v.small, v.write_in)

  write_lem : write_composite_length a ≡ some (length a.buffer - a.write_position)
  write_lem =
      rw (le→leb a.write_position (length a.buffer) v.write_in)
        (ap some (omega (arith, v.small, v.write_in)))

  loaded_lem :
      (off n : ℕ)
      → off + n ≤ a.write_position - a.read_position
      → 1 ≤ length a.buffer
      → copy_from a.buffer (off + a.read_position) n ≡ some (take n (drop off (readable a)))
  unfolding readable
  loaded_lem off n h one =
      copy_from-rotate n a.buffer 0 (off + a.read_position) (off + a.read_position) one
        (omega (arith, v.write_in, v.ordered)) (omega (arith, v.write_in, v.ordered))
        (inl (omega arith))
      ∙ ap (λ (c : List ℕ). some (take n c))
          (ap (drop (off + a.read_position)) (rotate-zero a.buffer)
            ∙ ap (λ k. drop k a.buffer) {x = off + a.read_position} {y = a.read_position + off}
                (omega arith))
      ∙ ap some (
          sym (
            ap (take n) (
              drop-drop off a.read_position (take a.write_position a.buffer)
              ∙ drop-take (a.read_position + off) a.write_position a.buffer
                  (omega (arith, v.ordered)))
            ∙ take-take n (a.write_position - (a.read_position + off))
                (drop (a.read_position + off) a.buffer) (omega arith)))

  array-ReadSegment : (off : ℕ) → off < length (readable a) → ReadSegment array readable a off
  unfolding read_segment_length read
  array-ReadSegment off h =
      let len = length-readable in
      let e = min_eq off (sub_size a.write_position a.read_position) (omega (arith, read_lem)) in
      record {
        size = a.write_position - a.read_position - off;
        place = off + a.read_position;
        reported =
            rw (le→leb off (sub_size a.write_position a.read_position) (omega (arith, read_lem)), e)
              (ap some (omega (arith, v.small, v.write_in, v.ordered)));
        positive = omega arith;
        inside = omega arith;
        at =
            rw (lt→ltb off (sub_size a.write_position a.read_position) (omega (arith, read_lem)))
              (ap some (omega (arith, v.small, v.write_in, v.ordered)));
        loaded = λ n fit. loaded_lem off n (omega arith) (omega (arith, v.write_in));
      }

  array-ReadAdvanced : (n : ℕ) → n ≤ length (readable a) → ReadAdvanced array Valid readable a n
  unfolding read_advance readable
  array-ReadAdvanced n h =
      let len = length-readable in
      record {
        state = record a { read_position = a.read_position + n };
        moved =
            rw (le→leb n (sub_size a.write_position a.read_position) (omega (arith, read_lem))) (
              ap (λ p. some (record a { read_position = p }))
                (omega (arith, v.small, v.write_in, v.ordered)));
        valid = record {
          small = v.small;
          ordered = omega (arith, v.ordered);
          write_in = v.write_in;
        };
        readable_after = sym (drop-drop n a.read_position (take a.write_position a.buffer));
      }

  array-Stored :
      (off : ℕ) (bs : List ℕ)
      → off < length (spare a)
      → off + length bs ≤ length (spare a)
      → Stored array Valid spare readable a off bs
  unfolding write spare readable
  array-Stored off bs k fit =
      let len = length-spare in
      let wp = a.write_position in
      let swap : overwrite (rotate a.buffer 0) (off + wp) bs ≡ overwrite a.buffer (wp + off) bs =
        ap₂ (λ (c : List ℕ) (i : ℕ). overwrite c i bs) (rotate-zero a.buffer) (omega arith) in
      let c =
        copy_to-rotate bs a.buffer 0 (off + wp) (off + wp) (omega arith) (omega arith) (omega arith)
          (inl (omega arith)) in
      let same : c.0 ≡ overwrite a.buffer (wp + off) bs = sym (rotate-zero c.0) ∙ c.3 ∙ swap in
      record {
        place = off + wp;
        cells = c.0;
        at =
            rw (write_lem, lt→ltb off (length a.buffer - wp) (omega arith))
              (ap some (omega (arith, v.small, v.write_in)));
        copied = c.1;
        valid = record {
          small = omega (arith, v.small, c.2);
          ordered = v.ordered;
          write_in = omega (arith, v.write_in, c.2);
        };
        spare_after = ap (drop wp) same ∙ drop-overwrite wp off a.buffer bs;
        written_after =
            ap (drop a.read_position)
              (ap (take wp) same ∙ take-overwrite wp (wp + off) a.buffer bs (omega arith));
      }

  array-WriteSegment :
      (off : ℕ) → off < length (spare a) → WriteSegment array Valid spare readable a off
  unfolding write_segment_length
  array-WriteSegment off h =
      let len = length-spare in
      let e = min_eq off (length a.buffer - a.write_position) (omega arith) in
      record {
        size = length a.buffer - a.write_position - off;
        reported =
            rw
              (
                le→leb a.write_position (length a.buffer) v.write_in,
                room_lem,
                le→leb off (length a.buffer - a.write_position) (omega arith),
                e,
              )
              (ap some (omega (arith, v.small, v.write_in)));
        positive = omega arith;
        inside = omega arith;
        stored = λ bs fit. array-Stored off bs h (omega arith);
      }

  array-WriteAdvanced :
      (n : ℕ) → 1 ≤ n → n ≤ length (spare a) → WriteAdvanced array Valid spare readable a n
  unfolding write_advance spare readable
  array-WriteAdvanced n one h =
      let len = length-spare in
      record {
        state = record a { write_position = a.write_position + n };
        moved =
            rw (write_lem, le→leb n (length a.buffer - a.write_position) (omega arith))
              (ap (λ p. some (record a { write_position = p }))
                (omega (arith, v.small, v.write_in)));
        valid = record {
          small = v.small;
          ordered = omega (arith, v.ordered);
          write_in = omega (arith, v.write_in);
        };
        spare_after = sym (drop-drop n a.write_position a.buffer);
        written_after =
            ap (drop a.read_position) (take-add a.write_position n a.buffer)
            ∙ drop-append_left (take a.write_position a.buffer)
                (take n (drop a.write_position a.buffer)) a.read_position
                (omega (arith, length-take a.write_position a.buffer v.write_in, v.ordered));
      }

-- `ArrayBuffer` keeps the contract of a reader.
pub array-IsReader : IsReader array Valid readable
array-IsReader = record {
  small = λ a v. omega (arith, length-readable v, v.small, v.write_in);
  composite = λ a v. ap some (read_lem v ∙ sym (length-readable v));
  segment = λ a off v. array-ReadSegment v off;
  advance = λ a n v. array-ReadAdvanced v n;
}

-- `ArrayBuffer` keeps the contract of a writer.
pub array-IsWriter : IsWriter array Valid spare readable
unfolding write_require_length
array-IsWriter = record {
  small = λ a v. omega (arith, length-spare v, v.small);
  composite = λ a v. write_lem v ∙ ap some (sym (length-spare v));
  fits = λ a n v h.
      rw
        (write_lem v, le→ltb (length a.buffer - a.write_position) n (omega (arith, length-spare v)))
        refl;
  segment = λ a off v. array-WriteSegment v off;
  advance = λ a n v. array-WriteAdvanced v n;
}

-- `writeRequireLength` refuses what does not fit.
pub array-Refuses : Refuses array Valid spare
unfolding write_require_length
array-Refuses a n v h _ =
    rw (write_lem v, lt→ltb (length a.buffer - a.write_position) n (omega (arith, length-spare v)))
      refl

-- An `ArrayBuffer` of `n` cells is valid and empty.
pub make-Valid : (n : ℕ) → n < 2 ^ 63 → Valid (make n)
unfolding make
make-Valid n h = record {
  small = omega (arith, length-replicate {A = ℕ} n 0);
  ordered = omega arith;
  write_in = omega arith;
}
