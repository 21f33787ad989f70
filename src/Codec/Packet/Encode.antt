-- ===== src/Codec/Packet/Encode.antt =====
-- `ProtoKelCodec::encode` appends a whole packet, or nothing.
use forstio.Prelude.{
  ℕ, ◌+◌, ◌≤◌, ◌<◌, ◌^◌, ◌≡◌, refl, sym, ap, ap₂, ◌∙◌, some, List, [], ◌++◌, length, drop, arith,
  add_size, ◌>>=◌,
}
use forstio.Prelude.Laws.{length-append, length-take, length-drop, drop-drop}
use forstio.Error.{no_error}
use forstio.Buffer.Defs.{Buffer, too_small}
use forstio.Buffer.Contract.{IsWriter, Refuses}
use forstio.Buffer.View.{BufferView, view, write_require_length}
use forstio.Buffer.View as View
use forstio.Buffer.View.Writer.{Writing, view_spare, view_written, view-IsWriter, advance_lem}
use forstio.Stream.Defs.{w8}
use forstio.Stream.Defs as Stream
use forstio.Stream.Bytes.{le_bytes, length-le_bytes}
use forstio.Stream.Encode.{Encoded, encode-Encoded}
use forstio.Message.Schema.{Schema}
use forstio.Message.Value.{Message, Fits}
use forstio.Codec.Format.{payload, packet}
use forstio.Codec.Format.Bytes.{length-packet}
use forstio.Codec.Size.{message_size}
use forstio.Codec.Size.Correct.{message_size-length-payload}
use forstio.Codec.Encode.Correct.{encode-Encoded-payload}
use forstio.Codec.Packet.{encode}
use forstio.Codec.Encode as EncodeImpl

module _ {S : Type 0} {b : Buffer S} {Valid : S → Type 0} {spare written : S → List ℕ}
    (w : IsWriter b Valid spare written) where
  -- What the view has passed becomes written when the buffer advances by the view's offset.
  commit-Encoded :
      (s : S) (v : BufferView S) (bs : List ℕ)
      → Writing Valid spare written (written s) v
      → view_written spare v ≡ bs
      → view_spare spare v ≡ drop (length bs) (spare s)
      → 1 ≤ length bs
      → Encoded Valid spare written s bs
          (b.write_advance v.buffer v.write_offset >>= λ s'. some (no_error, s'))
  commit-Encoded s v bs h e f one =
      let offset : v.write_offset ≡ length bs =
        sym (length-take v.write_offset (spare v.buffer) h.inside) ∙ ap length e in
      let a = w.advance v.buffer v.write_offset h.valid (omega arith) h.inside in
      record {
        state = a.state;
        returned = rw a.moved refl;
        valid = a.valid;
        spare_after = a.spare_after ∙ f;
        written_after = a.written_after ∙ ap₂ ◌++◌ h.same e;
      }

  start : (s : S) → Valid s → Writing Valid spare written (written s) (View.make s)
  start s v = record { valid = v; inside = omega arith; same = refl }

  -- The steps of `encode`, when each goes well.
  steps_lem :
      (t : Schema) (m : Message t) (s : S) (head body : BufferView S)
      → write_require_length b (View.make s) (add_size (message_size t m) 8) ≡ some no_error
      → Stream.encode (view b) w8 (message_size t m) (View.make s) ≡ some (no_error, head)
      → EncodeImpl.encode (view b) t m head ≡ some (no_error, body)
      → encode b t m s
        ≡ (b.write_advance body.buffer body.write_offset >>= λ s'. some (no_error, s'))
  unfolding encode
  steps_lem t m s head body e f g = rw (e, f, g) refl

  drop_both :
      (xs ys a c d : List ℕ)
      → c ≡ drop (length xs) a
      → d ≡ drop (length ys) c
      → d ≡ drop (length (xs ++ ys)) a
  drop_both xs ys a c d e f =
      f
      ∙ ap (drop (length ys)) e
      ∙ drop-drop (length ys) (length xs) a
      ∙ ap (λ k. drop k a) (sym (length-append xs ys))

  append_both : (xs ys a c : List ℕ) → a ≡ [] ++ xs → c ≡ a ++ ys → c ≡ xs ++ ys
  append_both xs ys a c e f = f ∙ ap (λ k. k ++ ys) e

  start_fits :
      (t : Schema) (m : Message t) (s : S)
      → Valid s
      → message_size t m ≡ length (payload t m)
      → 8 + length (payload t m) ≤ length (spare s)
      → write_require_length b (View.make s) (add_size (message_size t m) 8) ≡ some no_error
  start_fits t m s v e h =
      ap (write_require_length b (View.make s)) {x = add_size (message_size t m) 8}
        {y = 8 + length (payload t m)} (omega (arith, w.small s v))
      ∙ (view-IsWriter w (written s)).fits (View.make s) (8 + length (payload t m)) (start s v) h

  -- The length, then the payload, then the advance.
  pieces_lem :
      (t : Schema) (m : Message t) (s : S)
      → Valid s
      → message_size t m ≡ length (payload t m)
      → 8 + length (payload t m) ≤ length (spare s)
      → (head : Encoded
          (Writing Valid spare written (written s))
          (view_spare spare)
          (view_written spare)
          (View.make s)
          (le_bytes 8 (length (payload t m)))
          (Stream.encode (view b) w8 (length (payload t m)) (View.make s)))
      → Encoded
          (Writing Valid spare written (written s))
          (view_spare spare)
          (view_written spare)
          head.state
          (payload t m)
          (EncodeImpl.encode (view b) t m head.state)
      → Encoded Valid spare written s (packet t m) (encode b t m s)
  unfolding packet
  pieces_lem t m s v e h head body =
      let xs = le_bytes 8 (length (payload t m)) in
      let c =
        commit-Encoded s body.state (xs ++ payload t m) body.valid
          (append_both xs (payload t m) (view_written spare head.state)
            (view_written spare body.state) head.written_after body.written_after)
          (drop_both xs (payload t m) (spare s) (view_spare spare head.state)
            (view_spare spare body.state) head.spare_after body.spare_after)
          (omega
            (arith, length-append xs (payload t m), length-le_bytes 8 (length (payload t m)))) in
      let first : Stream.encode (view b) w8 (message_size t m) (View.make s)
          ≡ some (no_error, head.state) =
        ap (λ k. Stream.encode (view b) w8 k (View.make s)) e ∙ head.returned in
      record {
        state = c.state;
        returned =
            steps_lem t m s head.state body.state (start_fits t m s v e h) first body.returned
            ∙ c.returned;
        valid = c.valid;
        spare_after = c.spare_after;
        written_after = c.written_after;
      }

  left_lem :
      (n : ℕ) (a c xs : List ℕ)
      → length xs ≡ 8
      → c ≡ drop (length xs) a
      → 8 + n ≤ length a
      → n ≤ length c
  left_lem n a c xs e f h = omega (arith, ap length f, length-drop (length xs) a)

  -- A packet that fits is appended whole, the length of the payload in 8 bytes and then the
  -- payload, for every message in the ranges of its types and every buffer that keeps the contract
  -- of a writer. There is no error.
  pub encode-Encoded-packet :
      (t : Schema) (m : Message t) (s : S)
      → Valid s
      → Fits t m
      → length (packet t m) ≤ length (spare s)
      → Encoded Valid spare written s (packet t m) (encode b t m s)
  encode-Encoded-packet t m s v h fit =
      let vw = view-IsWriter w (written s) in
      let n = length (payload t m) in
      let room : 8 + n ≤ length (spare s) = omega (arith, length-packet t m) in
      let size : message_size t m ≡ n =
        message_size-length-payload t m (omega (arith, w.small s v)) in
      let head =
        encode-Encoded vw w8 n (View.make s) (start s v) (omega (arith, w.small s v))
          (omega arith) in
      pieces_lem t m s v size room head (
        encode-Encoded-payload vw (λ u k. advance_lem w (written s) u k 0 (omega arith)) t m
          head.state head.valid h
          (left_lem n (spare s) (view_spare spare head.state) (le_bytes 8 n) (length-le_bytes 8 n)
            head.spare_after room))

  refused_lem :
      (t : Schema) (m : Message t) (s : S)
      → Refuses b Valid spare
      → Valid s
      → length (packet t m) < 2 ^ 64
      → length (spare s) < length (packet t m)
      → write_require_length b (View.make s) (add_size (message_size t m) 8) ≡ some too_small
  unfolding write_require_length
  refused_lem t m s no_room v small h =
      let len = length-packet t m in
      let size : message_size t m ≡ length (payload t m) =
        message_size-length-payload t m (omega arith) in
      ap (b.write_require_length s) {x = add_size (add_size (message_size t m) 8) 0}
        {y = length (packet t m)} (omega arith)
      ∙ no_room s (length (packet t m)) v h small

  -- A packet that does not fit into the buffer is refused with the error for a buffer that is too
  -- small, and the buffer stays as it is, for every buffer that keeps the contract of a writer and
  -- refuses what does not fit, and every packet of less than 2 ^ 64 bytes.
  pub encode-packet-refused :
      (t : Schema) (m : Message t) (s : S)
      → Refuses b Valid spare
      → Valid s
      → length (packet t m) < 2 ^ 64
      → length (spare s) < length (packet t m)
      → encode b t m s ≡ some (too_small, s)
  unfolding encode
  encode-packet-refused t m s no_room v small h = rw (refused_lem t m s no_room v small h) refl
