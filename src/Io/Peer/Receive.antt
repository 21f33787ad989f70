-- ===== src/Io/Peer/Receive.antt =====
-- What the peer makes of the bytes that arrive.
use mathlib.Core.Path.{subst}
use forstio.Prelude.{
  ℕ, zero, suc, ◌-◌, ◌≤◌, ◌<◌, ◌≡◌, refl, sym, ap, ◌∙◌, false, Option, none, some, String, List, [],
  ◌∷◌, ◌++◌, length, take, append_assoc, arith, lt→ltb, some-injective, ◌==◌,
}
use forstio.Prelude.Laws.{length-drop}
use forstio.Error.{error, critical_error, value}
use forstio.Buffer.Defs.{too_small}
use forstio.Buffer.Ring.{RingBuffer, ring, write_composite_length}
use forstio.Buffer.Ring.Edges.{write_segment-full}
use forstio.Buffer.Ring.Valid.{Valid, readable, spare}
use forstio.Buffer.Ring.Reader.{ring-IsReader}
use forstio.Buffer.Ring.Writer.{ring-IsWriter}
use forstio.Stream.Bytes.{AreBytes}
use forstio.Message.Schema.{Schema}
use forstio.Message.Value.{Message, Fits, IsHeld, AllFit, fresh}
use forstio.Codec.Format.{packet, concat_map}
use forstio.Codec.Parse.{fail, parse_number}
use forstio.Codec.Packet.{Limits, decode}
use forstio.Codec.Packet.Decode.{
  decode-packet, decode_packet_refines, parse_packet, PacketAgrees, bytes-IsReader,
}
use forstio.Codec.Packet.Ring.{packets, Within}
use forstio.Buffer.Contract.{IsReader}
use forstio.Buffer.Contract.Append.{Appended}
use forstio.Io.Peer.Arrive.{
  read_advance-pinned, kept-IsReader, arrive, write_zero, segment_end, IsPinned, answered,
}
use forstio.Io.Peer.{Received, ReadRequest, decode_loop, on_read_done}

module _ (max_size : Schema → ℕ) (text : ℕ → Option String) (limits : Limits) (t : Schema) where
  -- `run` hands on the messages without an error, and leaves a valid ring with the bytes `rest`, with the
  -- storage and the write position as they were.
  pub record HandsOn (run : Option (Received t RingBuffer)) (before : RingBuffer)
      (ms : List (Message t)) (rest : List ℕ) : Type 0 where
    pub ring_after : RingBuffer
    pub returned : run ≡ some (record { result = value tt; messages = ms; buffer = ring_after })
    pub valid : Valid ring_after
    pub holds : readable ring_after ≡ rest
    pub pinned : IsPinned before ring_after

  -- The ring between the rounds of the loop, after it was `before`.
  abbrev Between : RingBuffer → RingBuffer → Type 0
  Between before s = (Valid s × AreBytes (readable s)) × IsPinned before s

  Between-IsReader : (before : RingBuffer) → IsReader ring (Between before) readable
  Between-IsReader before =
      kept-IsReader (bytes-IsReader ring-IsReader) (IsPinned before)
        (λ s s' n e k. let h = read_advance-pinned s s' n e in (h.0 ∙ k.0, h.1 ∙ k.1))

  -- Less than the length of a packet does not parse.
  parse_packet-short :
      (rest : List ℕ) → length rest < 8 → parse_packet max_size text limits t rest ≡ fail too_small
  unfolding parse_packet parse_number
  parse_packet-short rest h = rw (lt→ltb (length rest) 8 h) refl

  decode_loop-HandsOn :
      (before : RingBuffer) (ms : List (Message t)) (q : RingBuffer) (rest : List ℕ) (n : ℕ)
      → Between before q
      → AllFit (Fits t) ms
      → AllFit (IsHeld max_size t) ms
      → AllFit (Within max_size text limits t) ms
      → length rest < 8
      → length ms < n
      → readable q ≡ packets t ms ++ rest
      → HandsOn (decode_loop ring max_size text limits t n q) before ms rest
  unfolding decode_loop concat_map
  decode_loop-HandsOn before ms q rest zero v h k small short fuel e = absurd (omega (arith, fuel))
  decode_loop-HandsOn before [] q rest (suc n) v h k small short fuel e =
      let d =
        subst
          (λ p.
            PacketAgrees (Between before) readable q p
              (decode ring max_size text limits t (fresh t) q))
          (ap (parse_packet max_size text limits t) e ∙ parse_packet-short rest short)
          (decode_packet_refines (Between-IsReader before) (λ s c. c.0.1) max_size text limits t
            (fresh t) q v) in
      record { ring_after = q; returned = rw (d.1) refl; valid = v.0.0; holds = e; pinned = v.1 }
  decode_loop-HandsOn before (m ∷ ms) q rest (suc n) v h k small short fuel e =
      let d =
        decode-packet (Between-IsReader before) (λ s c. c.0.1) max_size text limits t m (fresh t) q
          (packets t ms ++ rest) v h.0 k.0 small.0
          (e ∙ append_assoc (packet t m) (packets t ms) rest) in
      let l =
        decode_loop-HandsOn before ms d.0 rest n d.2 h.1 k.1 small.1 short (omega (arith, fuel))
          d.3 in
      record {
        ring_after = l.ring_after;
        returned = rw (d.1, l.returned) refl;
        valid = l.valid;
        holds = l.holds;
        pinned = l.pinned;
      }

  -- `run` asks the stream to read at least one byte, hands on the messages without an error, and leaves a
  -- valid ring with the bytes `rest`. Any bytes that answer the request, from one to as many as it asks
  -- for, are appended to these when they arrive at its place.
  pub record Answers (run : Option (Option ReadRequest × Received t RingBuffer)) (room : ℕ)
      (ms : List (Message t)) (rest : List ℕ) : Type 0 where
    pub request : ReadRequest
    pub ring_after : RingBuffer
    pub returned :
        run ≡ some (some request, record { result = value tt; messages = ms; buffer = ring_after })
    pub at_least : request.min_length ≡ 1
    pub positive : 1 ≤ request.max_length
    pub inside : request.max_length ≤ room
    pub valid : Valid ring_after
    pub holds : readable ring_after ≡ rest
    pub taken :
        (bs : List ℕ)
        → 1 ≤ length bs
        → length bs ≤ request.max_length
        → Appended Valid spare readable ring_after bs (arrive request.place bs ring_after)

  not_zero : (n : ℕ) → 1 ≤ n → (n == 0) ≡ false
  not_zero n h = ground arith

  -- Where the bytes that have been read into a valid ring complete the packets of some messages,
  -- in the ranges of their types, with arrays no longer than vectors can be, and within the limit, leave
  -- less than the length of a packet
  -- behind them, and do not fill the ring, the peer asks the stream to read,
  -- hands on these messages in their order, and keeps what is behind them. Whatever bytes, from one to as
  -- many as it has asked for, the stream then stores at the place that it was given, they are appended
  -- to what is kept when they are passed over: no unread byte is overwritten. Its loop ends after as
  -- many rounds as there are messages and one more.
  pub on_read_done-Answers :
      (ms : List (Message t)) (q : RingBuffer) (rest : List ℕ) (bytes rounds : ℕ)
      → Valid q
      → 1 ≤ bytes
      → bytes < length (spare q)
      → AreBytes (readable q ++ take bytes (spare q))
      → AllFit (Fits t) ms
      → AllFit (IsHeld max_size t) ms
      → AllFit (Within max_size text limits t) ms
      → length rest < 8
      → length ms < rounds
      → readable q ++ take bytes (spare q) ≡ packets t ms ++ rest
      → Answers
          (on_read_done ring max_size text limits t rounds bytes q)
          (length (spare q) - bytes)
          ms
          rest
  unfolding on_read_done
  on_read_done-Answers ms q rest n rounds v some_bytes room bytes h k small short fuel e =
      let a = ring-IsWriter.advance q n v some_bytes (omega (arith, room)) in
      let left : length (spare a.state) ≡ length (spare q) - n =
        ap length a.spare_after ∙ length-drop n (spare q) in
      let w = ring-IsWriter.segment a.state 0 a.valid (omega (arith, left, room)) in
      let at = (w.stored [] (omega arith)).at in
      let place = (w.stored [] (omega arith)).place in
      let before = a.written_after ∙ e in
      let l =
        decode_loop-HandsOn a.state ms a.state rest rounds
          ((a.valid, subst AreBytes (sym a.written_after) bytes), (refl, refl)) h k small short fuel
          before in
      record {
        request = record { place = place; min_length = 1; max_length = w.size };
        ring_after = l.ring_after;
        returned = rw (a.moved, w.reported, not_zero w.size w.positive, at, l.returned) refl;
        at_least = refl;
        positive = w.positive;
        inside = omega (arith, w.inside, left);
        valid = l.valid;
        holds = l.holds;
        taken = λ bs some_there fit.
            answered a.state l.ring_after place w.size bs (packets t ms) rest a.valid l.valid
              l.pinned (write_zero place a.valid at) before l.holds (omega (arith, w.inside))
              (segment_end w.size a.valid (omega (arith, left, room)) w.reported) some_there fit;
      }

  -- Where the bytes that have been read fill a valid ring, the peer reports that a message is too
  -- long, hands on no message and asks for no more, whatever packets are complete in the ring.
  pub on_read_done-full :
      (q : RingBuffer) (bytes rounds : ℕ)
      → Valid q
      → 1 ≤ bytes
      → bytes ≡ length (spare q)
      → (s : RingBuffer) × (on_read_done ring max_size text limits t rounds bytes q
          ≡ some (
            none,
            record {
              result = error (critical_error "Message too long");
              messages = [];
              buffer = s;
            },
          ))
        × (readable s ≡ readable q ++ take bytes (spare q))
  unfolding on_read_done
  on_read_done-full q n rounds v some_bytes full =
      let a = ring-IsWriter.advance q n v some_bytes (omega (arith, full)) in
      let left : length (spare a.state) ≡ length (spare q) - n =
        ap length a.spare_after ∙ length-drop n (spare q) in
      let none_left : write_composite_length a.state ≡ 0 =
        some-injective (ring-IsWriter.composite a.state a.valid) ∙ left ∙ omega (arith, full) in
      (a.state, rw (a.moved, write_segment-full a.state a.valid none_left) refl, a.written_after)
