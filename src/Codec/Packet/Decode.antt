-- ===== src/Codec/Packet/Decode.antt =====
-- `ProtoKelCodec::decode` takes a whole packet, or leaves the buffer as it is.
use mathlib.Core.Path.{subst}
use forstio.Prelude.{
  ℕ, ◌*◌, ◌≤◌, ◌<◌, ◌^◌, ◌≡◌, refl, sym, ap, ◌∙◌, true, false, Option, some, String, List, ◌++◌,
  length, arith, append_assoc, ◌>>=◌, if◌then◌else◌, ltb, ◌==◌, le→ltb, none, Bool,
}
use forstio.Prelude.Laws.{length-append}
use forstio.Error.{Error, no_error, failed, make_error_formatted}
use forstio.Buffer.Defs.{Buffer}
use forstio.Buffer.Contract.{IsReader}
use forstio.Buffer.View.{BufferView, view}
use forstio.Buffer.View as View
use forstio.Buffer.View.Reader.{Reading, view_readable, view-IsReader}
use forstio.Stream.Defs.{w8}
use forstio.Stream.Defs as Stream
use forstio.Stream.Bytes.{AreBytes, AreBytes-drop, le_bytes}
use forstio.Message.Schema.{Schema}
use forstio.Message.Value.{Message, Fits, IsHeld}
use forstio.Codec.Format.{payload, packet}
use forstio.Codec.Format.Bytes.{length-packet}
use forstio.Codec.Size.{message_size}
use forstio.Codec.Size.Correct.{message_size-length-payload}
use forstio.Codec.Parse as Parse
use forstio.Codec.Parse.{Parsed, ok, fail, throws, parse_number, parse}
use forstio.Codec.Parse.RoundTrip.{parse-payload, parse_number-le_bytes}
use forstio.Codec.Decode as DecodeImpl
use forstio.Codec.Decode.Agree.{Agrees, number-Agrees}
use forstio.Codec.Decode.Correct.{decode_refines}
use forstio.Codec.Packet.{Limits, too_big, bad_format, decode}

-- The message and the bytes behind its packet, or the error of the first check that fails: what
-- `decode` does on a plain list of bytes.
unfoldable pub parse_packet :
    (Schema → ℕ) → (ℕ → Option String) → Limits → (t : Schema) → List ℕ → Parsed (Message t)
parse_packet max_size text limits t bs = Parse.◌>>=◌ (parse_number w8 bs) λ n rest.
    if ltb limits.packet_size n
    then fail (too_big (text n))
    else (Parse.◌>>=◌ (parse max_size t rest)
        λ m rest'. if message_size t m == n then ok m rest' else fail bad_format)

-- A parsed message is returned without an error, and what follows the packet is left to read; an
-- error is reported as it is, and the buffer stays as it was; too long an array ends in an exception.
abbrev pub PacketAgrees :
    {S A : Type 0} (Valid : S → Type 0) (readable : S → List ℕ) (s : S)
    → Parsed A
    → Option (Error × A × S)
    → Type 0
PacketAgrees {S} {A} Valid readable s (ok m rest) run =
    (st : S) × (run ≡ some (no_error, m, st)) × Valid st × (readable st ≡ rest)
PacketAgrees {S} {A} Valid readable s (fail e) run =
    (m : A) × (run ≡ some (e, m, s)) × (failed e ≡ true)
PacketAgrees {S} {A} Valid readable s throws run = run ≡ none

too_big-failed : (text : Option String) → failed (too_big text) ≡ true
unfolding make_error_formatted
too_big-failed none = refl
too_big-failed (some x) = refl

equal_refl : (n : ℕ) → (n == n) ≡ true
equal_refl n = ground arith

-- A reader whose bytes are below 256 stays one.
pub bytes-IsReader :
    {S : Type 0} {b : Buffer S} {Valid : S → Type 0} {readable : S → List ℕ}
    → IsReader b Valid readable
    → IsReader b (λ s. Valid s × AreBytes (readable s)) readable
bytes-IsReader {S} {b} {Valid} {readable} r = record {
  small = λ s v. r.small s v.0;
  composite = λ s v. r.composite s v.0;
  segment = λ s off v. r.segment s off v.0;
  advance = λ s n v h.
      let a = r.advance s n v.0 h in
      record {
        state = a.state;
        moved = a.moved;
        valid = (a.valid, subst AreBytes (sym a.readable_after) (AreBytes-drop n (readable s) v.1));
        readable_after = a.readable_after;
      };
}

module _ {S : Type 0} {b : Buffer S} {Valid : S → Type 0} {readable : S → List ℕ}
    (r : IsReader b Valid readable) (bytes : (s : S) → Valid s → AreBytes (readable s))
    (max_size : Schema → ℕ) (text : ℕ → Option String) (limits : Limits) where
  parse_packet-packet :
      (t : Schema) (m : Message t) (rest : List ℕ)
      → Fits t m
      → IsHeld max_size t m
      → length (payload t m) ≤ limits.packet_size
      → length (payload t m) < 2 ^ 63
      → parse_packet max_size text limits t (packet t m ++ rest) ≡ ok m rest
  unfolding parse_packet packet
  parse_packet-packet t m rest h k small fit =
      let n = length (payload t m) in
      let n_small : n < 2 ^ (8 * 8) = omega (arith, fit) in
      rw
        (
          append_assoc (le_bytes 8 n) (payload t m) rest,
          parse_number-le_bytes w8 n (payload t m ++ rest) n_small,
          le→ltb limits.packet_size n small,
          parse-payload max_size t m rest h k,
          message_size-length-payload t m (omega (arith, fit)),
          equal_refl n,
        )
        refl

  view_bytes :
      (s : S) (v : BufferView S) → Reading Valid readable s v → AreBytes (view_readable readable v)
  view_bytes s v h = AreBytes-drop v.read_offset (readable v.buffer) (bytes v.buffer h.valid)

  -- After the message: the announced length is compared, and the buffer advances.
  check_lem :
      {A : Type 0} (equal : Bool) (m : A) (rest : List ℕ) (s : S) (v : BufferView S)
      → Reading Valid readable s v
      → view_readable readable v ≡ rest
      → PacketAgrees Valid readable s (if equal then ok m rest else fail bad_format) (
          if equal
          then (b.read_advance v.buffer v.read_offset >>= λ s'. some (no_error, m, s'))
          else some (bad_format, m, v.buffer))
  check_lem true m rest s v h e =
      let a = r.advance v.buffer v.read_offset h.valid h.inside in
      (a.state, rw a.moved refl, a.valid, a.readable_after ∙ e)
  check_lem false m rest s v h e = (m, ap (λ c. some (bad_format, m, c)) h.same, refl)

  message_lem :
      (t : Schema) (n : ℕ) (s : S) (p : Parsed (Message t))
      (run : Option (Error × Message t × BufferView S))
      → Agrees (Reading Valid readable s) (view_readable readable) p run
      → PacketAgrees Valid readable s
          (Parse.◌>>=◌ p λ m rest'. if message_size t m == n then ok m rest' else fail bad_format)
          (run >>= λ q.
            if failed q.0
            then some (q.0, q.1, q.2.buffer)
            else (if message_size t q.1 == n
                then (b.read_advance q.2.buffer q.2.read_offset >>= λ s'. some (no_error, q.1, s'))
                else some (bad_format, q.1, q.2.buffer)))
  message_lem t n s (ok m rest) run h =
      rw h.1 (check_lem (message_size t m == n) m rest s h.0 h.2 h.3)
  message_lem t n s (fail e) run h =
      (h.1, rw (h.2, h.4) (ap (λ c. some (e, h.1, c)) (Reading.same h.3)), h.4)
  message_lem t n s throws run h = rw h refl

  length_lem :
      (t : Schema) (old : Message t) (s : S) (p : Parsed ℕ)
      (run : Option (Error × ℕ × BufferView S))
      → Agrees (Reading Valid readable s) (view_readable readable) p run
      → PacketAgrees Valid readable s
          (Parse.◌>>=◌ p λ n rest.
            if ltb limits.packet_size n
            then fail (too_big (text n))
            else (Parse.◌>>=◌
                (parse max_size t rest)
                λ m rest'. if message_size t m == n then ok m rest' else fail bad_format))
          (run >>= λ r.
            if failed r.0
            then some (r.0, old, r.2.buffer)
            else (if ltb limits.packet_size r.1
                then some (too_big (text r.1), old, r.2.buffer)
                else (DecodeImpl.decode (view b) max_size t old r.2 >>= λ q.
                    if failed q.0
                    then some (q.0, q.1, q.2.buffer)
                    else (if message_size t q.1 == r.1
                        then (b.read_advance q.2.buffer q.2.read_offset >>= λ s'.
                            some (no_error, q.1, s'))
                        else some (bad_format, q.1, q.2.buffer)))))
  length_lem t old s (ok n rest) run h = rw h.1 (limit_lem (ltb limits.packet_size n))
    where
      limit_lem :
          (over : Bool)
          → PacketAgrees Valid readable s
              (if over
                then fail (too_big (text n))
                else (Parse.◌>>=◌
                    (parse max_size t rest)
                    λ m rest'. if message_size t m == n then ok m rest' else fail bad_format))
              (if over
                then some (too_big (text n), old, h.0.buffer)
                else (DecodeImpl.decode (view b) max_size t old h.0 >>= λ q.
                    if failed q.0
                    then some (q.0, q.1, q.2.buffer)
                    else (if message_size t q.1 == n
                        then (b.read_advance q.2.buffer q.2.read_offset >>= λ s'.
                            some (no_error, q.1, s'))
                        else some (bad_format, q.1, q.2.buffer))))
      limit_lem true = (
        old,
        ap (λ c. some (too_big (text n), old, c)) (Reading.same h.2),
        too_big-failed (text n),
      )
      limit_lem false =
          message_lem t n s (parse max_size t rest) (DecodeImpl.decode (view b) max_size t old h.0)
            (subst
              (λ (c : List ℕ).
                Agrees (Reading Valid readable s) (view_readable readable) (parse max_size t c)
                  (DecodeImpl.decode (view b) max_size t old h.0))
              h.3 (decode_refines (view-IsReader r s) (view_bytes s) max_size t old h.0 h.2))
  length_lem t old s (fail e) run h =
      (old, rw (h.2, h.4) (ap (λ c. some (e, old, c)) (Reading.same h.3)), h.4)
  length_lem t old s throws run h = rw h refl

  -- In a valid buffer that keeps the contract of a reader and holds bytes, decoding does what the
  -- reference parser does on the bytes that can be read, whatever the message held before: the parsed message is returned and exactly its packet is consumed, and
  -- with any error (too few bytes, a length over the limit, an unknown alternative, a length that
  -- is not the message's) the buffer is as it was. In all these
  -- cases the call returns, so that no assertion fails. It does not return, since the resize throws,
  -- exactly where the parser meets an array that is announced to be longer than a vector of its elements
  -- can be.
  pub decode_packet_refines :
      (t : Schema) (old : Message t) (s : S)
      → Valid s
      → PacketAgrees Valid readable s
          (parse_packet max_size text limits t (readable s))
          (decode b max_size text limits t old s)
  unfolding parse_packet decode
  decode_packet_refines t old s v =
      length_lem t old s (parse_number w8 (readable s)) (Stream.decode (view b) w8 0 (View.make s))
        (number-Agrees (view-IsReader r s) (view_bytes s) w8 0 (View.make s)
          (record { valid = v; inside = omega arith; same = refl }))

  -- In a valid buffer that keeps the contract of a reader and holds bytes, a packet at the front of
  -- the readable bytes is decoded to its message, and only what follows it
  -- is left to read, for every message in the ranges of its types whose arrays are no longer than vectors
  -- can be and whose payload is within the limit of the packet size, whatever the target held before.
  pub decode-packet :
      (t : Schema) (m old : Message t) (s : S) (rest : List ℕ)
      → Valid s
      → Fits t m
      → IsHeld max_size t m
      → length (payload t m) ≤ limits.packet_size
      → readable s ≡ packet t m ++ rest
      → PacketAgrees Valid readable s (ok m rest) (decode b max_size text limits t old s)
  decode-packet t m old s rest v h k small e =
      subst (λ p. PacketAgrees Valid readable s p (decode b max_size text limits t old s))
        (ap (parse_packet max_size text limits t) e
          ∙ parse_packet-packet t m rest h k small (
              omega (
                arith,
                r.small s v,
                ap length e,
                length-packet t m,
                length-append (packet t m) rest,
              )))
        (decode_packet_refines t old s v)
