-- ===== src/Tests/Codecs.antt =====
-- The theorems on the codec at a struct with a number, a string and a union, and a ring whose
-- positions are near the end of the storage, so that the packets wrap around.
use forstio.Prelude.{
  ℕ, ◌^◌, ◌≡◌, refl, false, none, some, [], ◌∷◌, ◌++◌, length, arith, inr, ◌>>=◌, replicate,
}
use forstio.Buffer.Defs.{too_small}
use forstio.Buffer.Ring.{RingBuffer, ring, read_composite_length, write_composite_length}
use forstio.Buffer.Ring.Order.{rotate}
use forstio.Buffer.Ring.Valid.{ordered, Valid, readable, spare, length-spare}
use forstio.Buffer.Ring.Reader.{ring-IsReader}
use forstio.Buffer.Ring.Writer.{ring-IsWriter, ring-Refuses}
use forstio.Buffer.View.{view}
use forstio.Buffer.View as View
use forstio.Buffer.View.Writer.{Writing, view_spare, view_written, view-IsWriter, advance_lem}
use forstio.Stream.Defs.{w1, w2}
use forstio.Stream.Bytes.{AreBytes, le_bytes}
use forstio.Stream.Encode.{Encoded}
use forstio.Message.Schema.{
  Schema, primitive, string, array as array_of, struct, union, end, member, last, choice, unsigned,
}
use forstio.Message.Value.{Message, Fits, IsHeld, index, fresh}
use forstio.Codec.Format.{payload, packet, concat_map}
use forstio.Codec.Size.{message_size}
use forstio.Codec.Size.Correct.{message_size-length-payload}
use forstio.Codec.Encode as EncodeImpl
use forstio.Codec.Encode.Correct.{encode-Encoded-payload}
use forstio.Codec.Decode as DecodeImpl
use forstio.Codec.Decode.Agree.{Agrees}
use forstio.Codec.Decode.Correct.{decode_refines}
use forstio.Codec.Parse.{parse, ok}
use forstio.Codec.Packet.{default_limits, encode, decode}
use forstio.Codec.Packet.Encode.{encode-Encoded-packet, encode-packet-refused}
use forstio.Codec.Packet.Decode.{
  parse_packet, PacketAgrees, decode_packet_refines, decode-packet, bytes-IsReader,
}
use forstio.Codec.Packet.Ring.{Receives, packets, send, receive, receive-send}
use forstio.Tests.Buffers.{wrapped, wrapped-Valid, readable-wrapped, spare-wrapped}

abbrev pub person : Schema
person = struct (
    member (primitive unsigned w2) "id" (
      member string "name" (
        member
          (union
            (choice (primitive unsigned w1) "age" (last (array_of (primitive unsigned w1)) "tags")))
          "more" end)))

abbrev pub ann : Message person
ann = (513, (97 ∷ 110 ∷ 110 ∷ [], (inr (1 ∷ 2 ∷ []), tt)))

pub ann-Fits : Fits person ann
unfolding index
ann-Fits = (
  omega arith,
  (
    ((omega arith, (omega arith, (omega arith, tt))), omega arith),
    ((omega arith, (omega arith, (omega arith, (omega arith, tt)))), tt),
  ),
)

-- The `max_size()` of a vector with elements of at most 16 bytes.
abbrev pub any_size : Schema → ℕ
any_size s = 2 ^ 59

pub ann-IsHeld : IsHeld any_size person ann
ann-IsHeld = (tt, (tt, ((omega arith, (tt, (tt, tt))), tt)))

length-payload-ann : length (payload person ann) ≡ 27
unfolding payload le_bytes concat_map index
length-payload-ann = refl

pub length-packet-ann : length (packet person ann) ≡ 35
unfolding packet payload le_bytes concat_map index
length-packet-ann = refl

-- an empty ring of 100 cells that stands at cell 90
abbrev pub late : RingBuffer
late = record {
  buffer = replicate 100 0;
  read_position = 90;
  write_position = 90;
  write_reached_read = false;
}

pub late-Valid : Valid late
late-Valid = record {
  positive = omega arith;
  small = omega arith;
  read_in = omega arith;
  write_in = omega arith;
  met = λ e. cc;
}

pub length-spare-late : length (spare late) ≡ 100
unfolding write_composite_length
length-spare-late = length-spare late-Valid

readable-late : readable late ≡ []
unfolding readable read_composite_length
readable-late = refl

encode-Encoded-packet_example :
    Encoded Valid spare readable late (packet person ann) (encode ring person ann late)
encode-Encoded-packet_example =
    encode-Encoded-packet ring-IsWriter person ann late late-Valid ann-Fits
      (omega (arith, length-packet-ann, length-spare-late))

encode-packet-refused_example : encode ring person ann wrapped ≡ some (too_small, wrapped)
encode-packet-refused_example =
    encode-packet-refused ring-IsWriter person ann wrapped ring-Refuses wrapped-Valid
      (omega (arith, length-packet-ann)) (rw (spare-wrapped, length-packet-ann) (omega arith))

length-packets-ann : length (packets person (ann ∷ ann ∷ [])) ≡ 70
unfolding packet payload le_bytes concat_map index
length-packets-ann = refl

receive-send_example :
    Receives
      (send person (ann ∷ ann ∷ []) late >>= receive any_size (λ n. none) default_limits person 2)
      (ann ∷ ann ∷ [])
      []
receive-send_example =
    receive-send any_size (λ n. none) default_limits person (ann ∷ ann ∷ []) late late-Valid
      readable-late (ann-Fits, (ann-Fits, tt)) (ann-IsHeld, (ann-IsHeld, tt))
      (omega (arith, length-payload-ann), (omega (arith, length-payload-ann), tt))
      (omega (arith, length-packets-ann, length-spare-late))

message_size-length-payload_example : message_size person ann ≡ length (payload person ann)
message_size-length-payload_example =
    message_size-length-payload person ann (omega (arith, length-payload-ann))

wrapped_bytes : AreBytes (readable wrapped)
wrapped_bytes = rw readable-wrapped (omega arith, (omega arith, tt))

decode_packet_refines_example :
    PacketAgrees
      (λ s. Valid s × AreBytes (readable s))
      readable
      wrapped
      (parse_packet any_size (λ n. none) default_limits person (readable wrapped))
      (decode ring any_size (λ n. none) default_limits person (fresh person) wrapped)
decode_packet_refines_example =
    decode_packet_refines (bytes-IsReader ring-IsReader) (λ s h. h.1) any_size (λ n. none)
      default_limits person (fresh person) wrapped (wrapped-Valid, wrapped_bytes)

decode_refines_example :
    Agrees
      (λ s. Valid s × AreBytes (readable s))
      readable
      (parse any_size (primitive unsigned w2) (readable wrapped))
      (DecodeImpl.decode ring any_size (primitive unsigned w2) 0 wrapped)
decode_refines_example =
    decode_refines (bytes-IsReader ring-IsReader) (λ s h. h.1) any_size (primitive unsigned w2) 0
      wrapped (wrapped-Valid, wrapped_bytes)

encode-Encoded-payload_example :
    Encoded
      (Writing Valid spare readable (readable late))
      (view_spare spare)
      (view_written spare)
      (View.make late)
      (payload person ann)
      (EncodeImpl.encode (view ring) person ann (View.make late))
encode-Encoded-payload_example =
    encode-Encoded-payload (view-IsWriter ring-IsWriter (readable late))
      (λ u k. advance_lem ring-IsWriter (readable late) u k 0 (omega arith)) person ann
      (View.make late) (record { valid = late-Valid; inside = omega arith; same = refl }) ann-Fits
      (omega (arith, length-payload-ann, length-spare-late))

-- 513 as two bytes at the front of a ring
abbrev small : RingBuffer
small = record {
  buffer = 1 ∷ 2 ∷ 7 ∷ 0 ∷ [];
  read_position = 0;
  write_position = 3;
  write_reached_read = false;
}

small-Valid : Valid small
small-Valid = record {
  positive = omega arith;
  small = omega arith;
  read_in = omega arith;
  write_in = omega arith;
  met = λ e. cc;
}

readable-small : readable small ≡ 1 ∷ 2 ∷ 7 ∷ []
unfolding readable ordered read_composite_length rotate
readable-small = refl

-- the packet of 513 at the front of a ring, and a byte behind it
abbrev sent : RingBuffer
sent = record {
  buffer = 2 ∷ 0 ∷ 0 ∷ 0 ∷ 0 ∷ 0 ∷ 0 ∷ 0 ∷ 1 ∷ 2 ∷ 7 ∷ 0 ∷ [];
  read_position = 0;
  write_position = 11;
  write_reached_read = false;
}

sent-Valid : Valid sent
sent-Valid = record {
  positive = omega arith;
  small = omega arith;
  read_in = omega arith;
  write_in = omega arith;
  met = λ e. cc;
}

readable-sent : readable sent ≡ packet (primitive unsigned w2) 513 ++ 7 ∷ []
unfolding readable ordered read_composite_length rotate packet payload le_bytes
readable-sent = refl

sent_bytes : AreBytes (readable sent)
unfolding readable ordered read_composite_length rotate
sent_bytes = omega arith

length-payload-number : length (payload (primitive unsigned w2) 513) ≡ 2
unfolding payload le_bytes
length-payload-number = refl

decode-packet_example :
    PacketAgrees
      (λ s. Valid s × AreBytes (readable s))
      readable
      sent
      (ok 513 (7 ∷ []))
      (decode ring any_size (λ n. none) default_limits (primitive unsigned w2) 9 sent)
decode-packet_example =
    decode-packet (bytes-IsReader ring-IsReader) (λ s h. h.1) any_size (λ n. none) default_limits
      (primitive unsigned w2) 513 9 sent (7 ∷ []) (sent-Valid, sent_bytes) (omega arith) tt
      (omega (arith, length-payload-number)) readable-sent
