-- ===== src/Codec/Packet.antt =====
-- `ProtoKelCodec::encode` and `ProtoKelCodec::decode`. Both work on a view, and move the positions
-- of the buffer itself only when all has gone well.
pub mod Encode
pub mod Decode
pub mod Ring
use forstio.Prelude.{ℕ, Option, none, some, List, ltb, ◌==◌, if◌then◌else◌, ◌>>=◌, add_size, String}
use forstio.Error.{Error, no_error, failed, critical_error, make_error_formatted, generic_critical}
use forstio.Buffer.Defs.{Buffer}
use forstio.Buffer.View.{BufferView, view, write_require_length}
use forstio.Buffer.View as View
use forstio.Stream.Defs.{w8}
use forstio.Stream.Defs as Stream
use forstio.Message.Schema.{Schema}
use forstio.Message.Value.{Message}
use forstio.Codec.Size.{message_size}
use forstio.Codec.Encode as EncodeImpl
use forstio.Codec.Decode as DecodeImpl

-- `ProtoKelCodec::Limits`
pub record Limits : Type 0 where
  pub packet_size : ℕ

abbrev pub default_limits : Limits
default_limits = record { packet_size = 4096 }

abbrev pub bad_format : Error
bad_format = critical_error "Bad packet format"

-- `criticalError` with a formatter: `text` is what the formatter makes of the length, `none` where
-- it runs out of memory.
abbrev pub too_big : Option String → Error
too_big text = make_error_formatted text generic_critical "Packet size too big"

module _ {S : Type 0} (b : Buffer S) where
  unfoldable pub encode : (t : Schema) → Message t → S → Option (Error × S)
  encode t m s = do
    let packet_length = message_size t m
    e ← write_require_length b (View.make s) (add_size packet_length 8)
    if failed e then some (e, s) else (do
      r ← Stream.encode (view b) w8 packet_length (View.make s)
      if failed r.0 then some (r.0, r.1.buffer) else (do
        q ← EncodeImpl.encode (view b) t m r.1
        if failed q.0
            then some (q.0, q.1.buffer)
            else (do s' ← b.write_advance q.1.buffer q.1.write_offset; some (no_error, s'))))

module _ {S : Type 0} (b : Buffer S) (max_size : Schema → ℕ) where
  unfoldable pub decode :
      (ℕ → Option String) → Limits → (t : Schema) → Message t → S → Option (Error × Message t × S)
  decode text limits t old s = do
    r ← Stream.decode (view b) w8 0 (View.make s)
    if failed r.0
        then some (r.0, old, r.2.buffer)
        else (if ltb limits.packet_size r.1 then some (too_big (text r.1), old, r.2.buffer) else (do
          q ← DecodeImpl.decode (view b) max_size t old r.2
          if failed q.0
              then some (q.0, q.1, q.2.buffer)
              else (if message_size t q.1 == r.1
                  then (do s' ← b.read_advance q.2.buffer q.2.read_offset; some (no_error, q.1, s'))
                  else some (bad_format, q.1, q.2.buffer))))
