-- ===== src/Io/Peer/Send.antt =====
-- What the peer asks the stream to write.
use forstio.Prelude.{
  ℕ, suc, ◌≤◌, ◌≡◌, refl, ap, ◌∙◌, false, Option, none, some, List, [], ◌∷◌, ◌++◌, length, take,
  drop, arith, ltb, some-injective, ◌==◌, if◌then◌else◌, ◌>>=◌, copy_from,
}
use forstio.Error.{Error, no_error}
use forstio.Buffer.Ring.{RingBuffer, ring, read_composite_length}
use forstio.Buffer.Ring.Edges.{read_segment-empty}
use forstio.Buffer.Ring.Valid.{Valid, readable, spare}
use forstio.Buffer.Ring.Reader.{ring-IsReader}
use forstio.Buffer.Ring.Writer.{ring-IsWriter}
use forstio.Message.Schema.{Schema}
use forstio.Message.Value.{Message, Fits}
use forstio.Codec.Format.{packet}
use forstio.Codec.Format.Bytes.{length-packet}
use forstio.Codec.Packet.Encode.{encode-Encoded-packet}
use forstio.Io.Peer.{WriteRequest, write_front, send, on_write_done}

-- The bytes that the stream is asked to write, at least one, are the first that the ring holds.
pub record Front (q : RingBuffer) (w : WriteRequest) : Type 0 where
  pub positive : 1 ≤ w.size
  pub inside : w.size ≤ length (readable q)
  pub bytes : copy_from q.buffer w.place w.size ≡ some (take w.size (readable q))

-- The request of a ring that is not empty, after a call that asks for one exactly where `idle` holds the
-- bytes that no request was made for.
pub record Fronts (q : RingBuffer) : Type 0 where
  pub request : WriteRequest
  pub returned : write_front ring q ≡ some request
  pub front : Front q request

write_front-Fronts : (q : RingBuffer) → Valid q → 1 ≤ length (readable q) → Fronts q
write_front-Fronts q v h =
    let g = ring-IsReader.segment q 0 v h in
    record {
      request = record { place = g.place; size = g.size };
      returned = rw (g.at, g.reported) refl;
      front = record {
        positive = g.positive;
        inside = omega (arith, g.inside);
        bytes = g.loaded g.size (omega arith);
      };
    }

-- `run` has sent without an error: the ring is valid and holds `bs`; where it was idle, the stream is
-- asked to write from the front on, and else it is asked nothing.
abbrev pub Asked : RingBuffer → List ℕ → Option WriteRequest → Type 0
Asked q [] r = (w : WriteRequest) × (r ≡ some w) × Front q w
Asked q (x ∷ xs) r = r ≡ none

pub record Sends (run : Option (Error × Option WriteRequest × RingBuffer)) (before bs : List ℕ)
    : Type 0 where
  pub ring_after : RingBuffer
  pub request : Option WriteRequest
  pub returned : run ≡ some (no_error, request, ring_after)
  pub valid : Valid ring_after
  pub holds : readable ring_after ≡ bs
  pub asked : Asked ring_after before request

not_zero : (n : ℕ) → 1 ≤ n → (n == 0) ≡ false
not_zero n h = ground arith

module _ (t : Schema) (m : Message t) (q : RingBuffer) (v : Valid q) (h : Fits t m)
    (room : length (packet t m) ≤ length (spare q)) where
  abbrev encoded : RingBuffer
  encoded = (encode-Encoded-packet ring-IsWriter t m q v h room).state

  send_behind :
      (before : List ℕ)
      → readable q ≡ before
      → Sends (send ring t m q) before (before ++ packet t m)
  unfolding send
  send_behind [] p =
      let e = encode-Encoded-packet ring-IsWriter t m q v h room in
      let none_there : read_composite_length q ≡ 0 =
        some-injective (ring-IsReader.composite q v) ∙ ap length p in
      let after : readable e.state ≡ packet t m = e.written_after ∙ ap (λ c. c ++ packet t m) p in
      let f =
        write_front-Fronts e.state e.valid (omega (arith, ap length after, length-packet t m)) in
      record {
        ring_after = e.state;
        request = some f.request;
        returned =
            rw (read_segment-empty q v none_there, e.returned)
              (ap (λ r. r >>= λ w. some (no_error, some w, e.state)) f.returned);
        valid = e.valid;
        holds = after;
        asked = (f.request, refl, f.front);
      }
  send_behind (x ∷ xs) p =
      let e = encode-Encoded-packet ring-IsWriter t m q v h room in
      let g = ring-IsReader.segment q 0 v (omega (arith, ap length p)) in
      record {
        ring_after = e.state;
        request = none;
        returned = rw (g.reported, e.returned, not_zero g.size g.positive) refl;
        valid = e.valid;
        holds = e.written_after ∙ ap (λ c. c ++ packet t m) p;
        asked = refl;
      }

  -- In a valid ring, a message in the ranges of its types whose packet fits into the spare cells
  -- is sent without an error: its packet stands behind what the ring held. Where the ring held
  -- nothing, the stream is asked to write the bytes at its front, and where bytes were still to be
  -- written, nothing more is asked. This is a theorem about the body of `send` with the `Error` that it
  -- returns: as written the source does not compile, since `send` is declared `void`.
  pub send-Sends : Sends (send ring t m q) (readable q) (readable q ++ packet t m)
  send-Sends = send_behind (readable q) refl

-- The stream is asked to write where bytes are left, and only there.
abbrev pub Continues : RingBuffer → List ℕ → Option WriteRequest → Type 0
Continues q [] r = r ≡ none
Continues q (x ∷ xs) r = (w : WriteRequest) × (r ≡ some w) × Front q w

-- `run` has passed over bytes of the ring and left those of `bs`.
pub record WritesOn (run : Option (Option WriteRequest × RingBuffer)) (bs : List ℕ) : Type 0 where
  pub ring_after : RingBuffer
  pub request : Option WriteRequest
  pub returned : run ≡ some (request, ring_after)
  pub valid : Valid ring_after
  pub holds : readable ring_after ≡ bs
  pub continues : Continues ring_after bs request

any_left : {A : Type 0} (k : ℕ) (a b : A) → (if ltb 0 (suc k) then a else b) ≡ a
any_left k a b = ground arith

module _ (q : RingBuffer) (n : ℕ) (v : Valid q) (inside : n ≤ length (readable q)) where
  -- The call, where `n` bytes are passed over and `k` are left.
  passed :
      (s : RingBuffer) (k : ℕ)
      → ring.read_advance q n ≡ some s
      → ring.read_composite_length s ≡ some k
      → on_write_done ring n q
        ≡ (if ltb 0 k then (write_front ring s >>= λ w. some (some w, s)) else some (none, s))
  unfolding on_write_done
  passed s k e f =
      ap
        (λ r. r >>= λ s₁. ring.read_composite_length s₁ >>= λ j.
          if ltb 0 j then (write_front ring s₁ >>= λ w. some (some w, s₁)) else some (none, s₁))
        e
      ∙ ap
          (λ r. r >>= λ j.
            if ltb 0 j then (write_front ring s >>= λ w. some (some w, s)) else some (none, s))
          f

  left_over : (bs : List ℕ) → drop n (readable q) ≡ bs → WritesOn (on_write_done ring n q) bs
  left_over [] p =
      let a = ring-IsReader.advance q n v inside in
      record {
        ring_after = a.state;
        request = none;
        returned =
            passed a.state 0 a.moved (
              ring-IsReader.composite a.state a.valid ∙ ap some (ap length (a.readable_after ∙ p)));
        valid = a.valid;
        holds = a.readable_after ∙ p;
        continues = refl;
      }
  left_over (x ∷ xs) p =
      let a = ring-IsReader.advance q n v inside in
      let after : readable a.state ≡ x ∷ xs = a.readable_after ∙ p in
      let f = write_front-Fronts a.state a.valid (omega (arith, ap length after)) in
      record {
        ring_after = a.state;
        request = some f.request;
        returned =
            passed a.state (suc (length xs)) a.moved
              (ring-IsReader.composite a.state a.valid ∙ ap some (ap length after))
            ∙ any_left (length xs) (write_front ring a.state >>= λ w. some (some w, a.state))
                (some (none, a.state))
            ∙ ap (λ r. r >>= λ w. some (some w, a.state)) f.returned;
        valid = a.valid;
        holds = after;
        continues = (f.request, refl, f.front);
      }

  -- When bytes at the front of a valid ring have been written, exactly these are gone, and the
  -- stream is asked to write the bytes that are then at the front, if there are any. This is a theorem
  -- about the function with its misspelt names put right: as written the source does not compile, since
  -- the parameter has no type, `bytes` is not declared and `readSegmengtLength` does not exist.
  pub on_write_done-WritesOn : WritesOn (on_write_done ring n q) (drop n (readable q))
  on_write_done-WritesOn = left_over (drop n (readable q)) refl
