-- ===== src/Tests/Peers.antt =====
-- The theorems on the streaming peer at rings that hold a packet.
use forstio.Prelude.{
  ℕ, ◌-◌, ◌≡◌, refl, false, none, some, List, [], ◌∷◌, ◌++◌, length, take, drop, arith,
}
use forstio.Error.{error, critical_error}
use forstio.Buffer.Ring.{RingBuffer, ring, read_composite_length}
use forstio.Buffer.Ring.Order.{rotate}
use forstio.Buffer.Ring.Valid.{ordered, Valid, readable, spare}
use forstio.Stream.Defs.{w2}
use forstio.Stream.Bytes.{AreBytes, le_bytes}
use forstio.Message.Schema.{Schema, primitive, unsigned}
use forstio.Codec.Format.{packet, payload, concat_map}
use forstio.Codec.Packet.{default_limits}
use forstio.Codec.Packet.Ring.{packets}
use forstio.Io.Peer as Peer
use forstio.Io.Peer.{on_read_done, on_write_done}
use forstio.Io.Peer.Receive.{Answers, on_read_done-Answers, on_read_done-full}
use forstio.Io.Peer.Send.{Sends, send-Sends, WritesOn, on_write_done-WritesOn}
use forstio.Tests.Buffers.{wrapped, wrapped-Valid, readable-wrapped}
use forstio.Tests.Codecs.{
  person, ann, ann-Fits, any_size, late, late-Valid, length-packet-ann, length-spare-late,
}

abbrev number : Schema
number = primitive unsigned w2

-- The packet of 513, the first byte of the next, and two bytes that mean nothing.
abbrev cells : List ℕ
cells = 2 ∷ 0 ∷ 0 ∷ 0 ∷ 0 ∷ 0 ∷ 0 ∷ 0 ∷ 1 ∷ 2 ∷ 9 ∷ 0 ∷ 0 ∷ []

abbrev filled : RingBuffer
filled = record {
  buffer = cells;
  read_position = 0;
  write_position = 0;
  write_reached_read = false;
}

filled-Valid : Valid filled
filled-Valid = record {
  positive = omega arith;
  small = omega arith;
  read_in = omega arith;
  write_in = omega arith;
  met = λ e. cc;
}

readable-filled : readable filled ≡ []
unfolding readable ordered read_composite_length rotate
readable-filled = refl

spare-filled : spare filled ≡ cells
unfolding spare ordered read_composite_length rotate
spare-filled = refl

packets-number : packets number (513 ∷ []) ≡ 2 ∷ 0 ∷ 0 ∷ 0 ∷ 0 ∷ 0 ∷ 0 ∷ 0 ∷ 1 ∷ 2 ∷ []
unfolding packet payload le_bytes concat_map
packets-number = refl

length-payload-number : length (payload number 513) ≡ 2
unfolding payload le_bytes
length-payload-number = refl

arrived : readable filled ++ take 11 (spare filled) ≡ packets number (513 ∷ []) ++ 9 ∷ []
arrived = rw (readable-filled, spare-filled, packets-number) refl

arrived_bytes : AreBytes (readable filled ++ take 11 (spare filled))
arrived_bytes =
    rw (readable-filled, spare-filled)
      (
        omega arith,
        (
          omega arith,
          (
            omega arith,
            (
              omega arith,
              (
                omega arith,
                (
                  omega arith,
                  (omega arith, (omega arith, (omega arith, (omega arith, (omega arith, tt))))),
                ),
              ),
            ),
          ),
        ),
      )

on_read_done-Answers_example :
    Answers any_size
      (λ n. none)
      default_limits
      number
      (on_read_done ring any_size (λ n. none) default_limits number 2 11 filled)
      (length (spare filled) - 11)
      (513 ∷ [])
      (9 ∷ [])
on_read_done-Answers_example =
    on_read_done-Answers any_size (λ n. none) default_limits number (513 ∷ []) filled (9 ∷ []) 11 2
      filled-Valid (omega arith) (rw spare-filled (omega arith)) arrived_bytes (omega arith, tt)
      (tt, tt) (omega (arith, length-payload-number), tt) (omega arith) (omega arith) arrived

on_read_done-full_example :
    (s : RingBuffer) × (on_read_done ring any_size (λ n. none) default_limits number 2 13 filled
      ≡ some (
        none,
        record { result = error (critical_error "Message too long"); messages = []; buffer = s },
      ))
    × (readable s ≡ readable filled ++ take 13 (spare filled))
on_read_done-full_example =
    on_read_done-full any_size (λ n. none) default_limits number filled 13 2 filled-Valid
      (omega arith) (rw spare-filled refl)

send-Sends_example :
    Sends (Peer.send ring person ann late) (readable late) (readable late ++ packet person ann)
send-Sends_example =
    send-Sends person ann late late-Valid ann-Fits
      (omega (arith, length-packet-ann, length-spare-late))

on_write_done-WritesOn_example : WritesOn (on_write_done ring 1 wrapped) (drop 1 (readable wrapped))
on_write_done-WritesOn_example =
    on_write_done-WritesOn wrapped 1 wrapped-Valid (rw readable-wrapped (omega arith))
