-- ===== src/Codec/Packet/Ring.antt =====
-- Packets through a `RingBuffer`: it is a queue of packets.
use mathlib.Core.Path.{subst}
use forstio.Prelude.{
  ℕ, suc, zero, ◌-◌, ◌≤◌, ◌≡◌, refl, sym, ap, ◌∙◌, Option, none, some, String, List, [], ◌∷◌, ◌++◌,
  length, append_assoc, append-nil, arith, if◌then◌else◌, ◌>>=◌,
}
use forstio.Error.{failed}
use forstio.Buffer.Ring.{RingBuffer, ring}
use forstio.Buffer.Ring.Valid.{Valid, readable, spare}
use forstio.Buffer.Ring.Reader.{ring-IsReader}
use forstio.Buffer.Ring.Writer.{ring-IsWriter}
use forstio.Stream.Bytes.{AreBytes, AreBytes-append}
use forstio.Prelude.Laws.{length-append, length-drop}
use forstio.Message.Schema.{Schema}
use forstio.Message.Value.{Message, Fits, IsHeld, AllFit, fresh}
use forstio.Codec.Format.{payload, packet, concat_map}
use forstio.Codec.Format.Bytes.{packet-AreBytes}
use forstio.Codec.Packet.{Limits, encode, decode}
use forstio.Codec.Packet.Encode.{encode-Encoded-packet}
use forstio.Codec.Packet.Decode.{decode-packet, bytes-IsReader}

-- Sends the messages one after the other, as long as there is no error.
unfoldable pub send : (t : Schema) → List (Message t) → RingBuffer → Option RingBuffer
send t [] q = some q
send t (m ∷ ms) q = do r ← encode ring t m q; if failed r.0 then none else send t ms r.1

-- Takes that many messages, each into a new message, as long as there is no error.
unfoldable pub receive :
    (Schema → ℕ)
    → (ℕ → Option String)
    → Limits
    → (t : Schema) → ℕ
    → RingBuffer
    → Option (List (Message t) × RingBuffer)
receive max_size text limits t zero q = some ([], q)
receive max_size text limits t (suc n) q = do
  r ← decode ring max_size text limits t (fresh t) q
  if failed r.0
      then none
      else (do rest ← receive max_size text limits t n r.2; some (r.1 ∷ rest.0, rest.1))

-- `run` has left a valid ring with `bs` in it.
pub record Leaves (run : Option RingBuffer) (bs : List ℕ) : Type 0 where
  pub ring_after : RingBuffer
  pub returned : run ≡ some ring_after
  pub valid : Valid ring_after
  pub holds : readable ring_after ≡ bs

-- `run` hands out `ms` and leaves a valid ring with `bs` in it.
pub record Receives {A : Type 0} (run : Option (List A × RingBuffer)) (ms : List A) (bs : List ℕ)
    : Type 0 where
  pub ring_after : RingBuffer
  pub returned : run ≡ some (ms, ring_after)
  pub valid : Valid ring_after
  pub holds : readable ring_after ≡ bs

-- The packets of the messages, one after the other.
abbrev pub packets : (t : Schema) → List (Message t) → List ℕ
packets t = concat_map (packet t)

packets-AreBytes :
    (t : Schema) (ms : List (Message t)) → AllFit (Fits t) ms → AreBytes (packets t ms)
unfolding concat_map
packets-AreBytes t [] h = tt
packets-AreBytes t (m ∷ ms) h =
    AreBytes-append (packet t m) (packets t ms) (packet-AreBytes t m h.0)
      (packets-AreBytes t ms h.1)

-- Packets that fit go behind what the ring holds.
send-Leaves :
    (t : Schema) (ms : List (Message t)) (q : RingBuffer)
    → Valid q
    → AllFit (Fits t) ms
    → length (packets t ms) ≤ length (spare q)
    → Leaves (send t ms q) (readable q ++ packets t ms)
unfolding send concat_map
send-Leaves t [] q v h fit = record {
  ring_after = q;
  returned = refl;
  valid = v;
  holds = sym (append-nil (readable q));
}
send-Leaves t (m ∷ ms) q v h fit =
    let len = length-append (packet t m) (packets t ms) in
    let e = encode-Encoded-packet ring-IsWriter t m q v h.0 (omega arith) in
    let left : length (spare e.state) ≡ length (spare q) - length (packet t m) =
      ap length e.spare_after ∙ length-drop (length (packet t m)) (spare q) in
    let l = send-Leaves t ms e.state e.valid h.1 (omega arith) in
    record {
      ring_after = l.ring_after;
      returned = rw e.returned l.returned;
      valid = l.valid;
      holds =
          l.holds
          ∙ ap (λ c. c ++ packets t ms) e.written_after
          ∙ append_assoc (readable q) (packet t m) (packets t ms);
    }

module _ (max_size : Schema → ℕ) (text : ℕ → Option String) (limits : Limits) where
  -- The payloads are within the limit.
  abbrev pub Within : (t : Schema) → Message t → Type 0
  Within t m = length (payload t m) ≤ limits.packet_size

  receive-Receives :
      (t : Schema) (ms : List (Message t)) (q : RingBuffer) (rest : List ℕ)
      → Valid q
      → AreBytes (readable q)
      → AllFit (Fits t) ms
      → AllFit (IsHeld max_size t) ms
      → AllFit (Within t) ms
      → readable q ≡ packets t ms ++ rest
      → Receives (receive max_size text limits t (length ms) q) ms rest
  unfolding receive concat_map
  receive-Receives t [] q rest v bytes h k small e = record {
    ring_after = q;
    returned = refl;
    valid = v;
    holds = e;
  }
  receive-Receives t (m ∷ ms) q rest v bytes h k small e =
      let d =
        decode-packet (bytes-IsReader ring-IsReader) (λ s c. c.1) max_size text limits t m (fresh t)
          q (packets t ms ++ rest) (v, bytes) h.0 k.0 small.0
          (e ∙ append_assoc (packet t m) (packets t ms) rest) in
      let l = receive-Receives t ms d.0 rest d.2.0 d.2.1 h.1 k.1 small.1 d.3 in
      record {
        ring_after = l.ring_after;
        returned = rw (d.1, l.returned) refl;
        valid = l.valid;
        holds = l.holds;
      }

  -- A ring is a queue of packets: any messages in the ranges of their types, with arrays no longer
  -- than vectors can be and payloads within the limit, whose packets together fit into the spare cells of an empty ring (wherever its
  -- positions stand, so the packets may wrap around), are all sent without an error, and
  -- receiving as many gives the same messages in the same order and leaves the ring empty.
  pub receive-send :
      (t : Schema) (ms : List (Message t)) (q : RingBuffer)
      → Valid q
      → readable q ≡ []
      → AllFit (Fits t) ms
      → AllFit (IsHeld max_size t) ms
      → AllFit (Within t) ms
      → length (packets t ms) ≤ length (spare q)
      → Receives (send t ms q >>= receive max_size text limits t (length ms)) ms []
  receive-send t ms q v empty h k small fit =
      let l = send-Leaves t ms q v h fit in
      let holds : readable l.ring_after ≡ packets t ms =
        l.holds ∙ ap (λ c. c ++ packets t ms) empty in
      let g =
        receive-Receives t ms l.ring_after [] l.valid
          (subst AreBytes (sym holds) (packets-AreBytes t ms h)) h k small
          (holds ∙ sym (append-nil (packets t ms))) in
      record {
        ring_after = g.ring_after;
        returned =
            ap (λ (run : Option RingBuffer). run >>= receive max_size text limits t (length ms))
              l.returned
            ∙ g.returned;
        valid = g.valid;
        holds = g.holds;
      }
