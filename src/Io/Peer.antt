-- ===== src/Io/Peer.antt =====
-- `StreamingIoPeer` of source/forstio/io_peer.h and source/forstio/io_peer.tmpl.h: the function that
-- runs when the stream has read some bytes, and `send`. The calls of the stream are the requests that
-- they hand out: the cell from which on to read or write, and the lengths.
pub mod Arrive
pub mod Receive
pub mod Send
use forstio.Prelude.{
  ℕ, zero, suc, Bool, true, false, Option, none, some, String, List, [], ◌∷◌, ◌==◌, ltb,
  if◌then◌else◌, ◌>>=◌,
}
use forstio.Error.{Error, ErrorOr, error, value, no_error, failed, is_critical, critical_error}
use forstio.Buffer.Defs.{Buffer}
use forstio.Message.Schema.{Schema}
use forstio.Message.Value.{Message, fresh}
use forstio.Codec.Packet.{Limits, encode, decode}

-- What the function returns to its conveyor, the messages that it has handed to `incoming_feeder`, and
-- the buffer that it leaves.
pub record Received (t : Schema) (S : Type 0) : Type 0 where
  pub result : ErrorOr (Unit {0})
  pub messages : List (Message t)
  pub buffer : S

-- `io_stream->read(buffer, min_length, max_length)`
pub record ReadRequest : Type 0 where
  pub place : ℕ
  pub min_length : ℕ
  pub max_length : ℕ

module _ {S : Type 0} (b : Buffer S) (max_size : Schema → ℕ) (text : ℕ → Option String)
    (limits : Limits) (t : Schema) where
  -- What a round of the loop does with the result of `decode`; `rest` is the rest of the loop.
  abbrev pub handle : (S → Option (Received t S)) → Error × Message t × S → Option (Received t S)
  handle rest r =
      if is_critical r.0
      then some (record { result = error r.0; messages = []; buffer = r.2 })
      else (if failed r.0
          then some (record { result = value tt; messages = []; buffer = r.2 })
          else (rest r.2 >>= λ k. some (record k { messages = r.1 ∷ k.messages })))

  -- The `while(true)` of the function, with the rounds that are left.
  unfoldable pub decode_loop : ℕ → S → Option (Received t S)
  decode_loop zero s = none
  decode_loop (suc n) s =
      decode b max_size text limits t (fresh t) s >>= λ r. handle (decode_loop n) r

  abbrev message_too_long : ErrorOr (Unit {0})
  message_too_long = error (critical_error "Message too long")

  -- The function that `readDone` is given, for the number of bytes that have been read: what it asks
  -- the stream to read, and what comes of the messages. `rounds` bounds its loop.
  unfoldable pub on_read_done : ℕ → ℕ → S → Option (Option ReadRequest × Received t S)
  on_read_done rounds bytes s = do
    s₁ ← b.write_advance s bytes
    n ← b.write_segment_length s₁ 0
    if n == 0
        then some (none, record { result = message_too_long; messages = []; buffer = s₁ })
        else (do
          place ← b.write s₁ 0
          k ← decode_loop rounds s₁
          some (some (record { place = place; min_length = 1; max_length = n }), k))

-- `io_stream->write(buffer, length)`
pub record WriteRequest : Type 0 where
  pub place : ℕ
  pub size : ℕ

module _ {S : Type 0} (b : Buffer S) where
  -- The call of `io_stream->write` with the bytes of the buffer that lie together at its front.
  abbrev pub write_front : S → Option WriteRequest
  write_front s = do
    place ← b.read s 0
    n ← b.read_segment_length s 0
    some (record { place = place; size = n })

  -- `StreamingIoPeer::send`: the error, what it asks the stream to write, and the buffer. The source does
  -- not compile when the template is instantiated: `send` is declared `void`, and its body returns an
  -- `Error` on every path. The model is the body, with the `Error` that it returns as the result.
  unfoldable pub send : (t : Schema) → Message t → S → Option (Error × Option WriteRequest × S)
  send t m s = do
    n ← b.read_segment_length s 0
    r ← encode b t m s
    if failed r.0
        then some (r.0, none, r.1)
        else (if n == 0
            then (do w ← write_front r.1; some (no_error, some w, r.1))
            else some (no_error, none, r.1))

  -- The function that `writeDone` is given, for the number of bytes that have been written. The source does
  -- not compile when the template is instantiated: the parameter `size_bytes` has no type, the body reads
  -- the undeclared `bytes`, and calls the undeclared `readSegmengtLength`. The model takes `size_bytes` and
  -- `bytes` for one parameter of type `size_t`, and the call for one of `readSegmentLength`.
  unfoldable pub on_write_done : ℕ → S → Option (Option WriteRequest × S)
  on_write_done bytes s = do
    s₁ ← b.read_advance s bytes
    n ← b.read_composite_length s₁
    if ltb 0 n then (do w ← write_front s₁; some (some w, s₁)) else some (none, s₁)
