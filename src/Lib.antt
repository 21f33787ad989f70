-- ===== src/Lib.antt =====
-- A model of forstio's buffers, messages, codec, event loop and conveyors, and proofs about them.
--
-- forstio is a C++ library for messages over event-driven streams. A message has a schema, a type
-- made of templates (source/forstio/schema.h). A container holds its value
-- (source/forstio/message_container.h), and builders and readers reach into it
-- (source/forstio/message.h). `ProtoKelCodec` (source/forstio/proto_kel.h) turns a message into a
-- packet, the length of its payload and the payload, and back. It works on a `BufferView` over any
-- `Buffer` (source/forstio/buffer.h, buffer.cpp), and sends numbers with
-- `StreamValue` (source/forstio/stream_endian.h). Errors are values (source/forstio/error.h). The
-- drivers move bytes between streams and memory with the helpers of source/forstio/io_helpers.h.
-- `EventLoop` fires events (source/forstio/async.h, async.cpp), and conveyors, chains of nodes that
-- hand values on, are driven by it (source/forstio/async.h, async.tmpl.h).
--
-- The files:
--   Prelude     numbers, lists, Boolean tests, `size_t` arithmetic and memory blocks
--   Error       `Error` and `ErrorOr`
--   Buffer      `Buffer` is the record of its virtual functions over a state (Buffer/Defs), with
--               `push`, `pop`, `toString` and `toHex`. Buffer/Contract says what they need of
--               a buffer: the bytes that can be read and the cells that can be written.
--               Buffer/Ring, Buffer/Array and Buffer/View are the implementations
--   Stream      `ShiftStreamValue`
--   Message     Message/Schema the schemas, Message/Value the containers' values, Message/Keys
--               the search of a member by name, Message/Access builders and readers
--   Codec       Codec/Size, Codec/Encode and Codec/Decode are `ProtoKelEncodeImpl` and
--               `ProtoKelDecodeImpl`, Codec/Packet is `ProtoKelCodec`. Codec/Format says which
--               bytes a message is, Codec/Parse reads them from a list: they specify the codec
--   Io          `readStep` and `writeStep` of source/forstio/io_helpers.cpp, over any stream, Io/Stream
--               the `read` and `write` of `AsyncIoStream` in source/forstio/io.cpp, and
--               Io/Peer the `StreamingIoPeer` of source/forstio/io_peer.tmpl.h, which sends and receives
--               messages with the codec and two ring buffers
--   Async       Async/Event the list of armed events with `armNext`, `armLater`, `armLast`, `disarm` and
--               `turn`, and Async/Event/Queue the three queues that specify it. Async/Loop `turnLoop`,
--               `wait` and `poll`. Async/Conveyor the nodes: Fetch is `getResult`, Fire is
--               `childHasFired`, `parentHasFired` and `fire`, Destroy the destructors, Build is
--               `Conveyor` and the feeder.
--               Async/Network the loop that drives conveyors
--   Tests       concrete buffers, messages, event loops, conveyors and peers
--
-- How the code is translated. `size_t` is a natural number with its wrap-around written out
-- (`add_size`, `sub_size`). An operation that has an assertion or that touches memory returns an
-- option, and `none` is a failed assertion, an access outside an object, an exception of the standard
-- library (`at` past the end, `std::get` of another alternative, `resize` beyond `max_size()`), or
-- what C++ leaves undefined, such as the front of an empty queue. A reference into a
-- buffer is the index of its cell: `read` and `write` return the index, and `load`, `store`,
-- `load_block` and `store_block` access the storage at it. A number of a message is its bit pattern.
-- Template recursion over a parameter pack is recursion over the schema. A `Builder` or a `Reader`
-- is a place in a message, and what it does is done to the message at the root. How large a vector can
-- be is left to the implementation of the standard library: `max_size` is an argument of the decoder and
-- of `resize`, and says for each schema how many messages a vector holds at most.
--
-- The templates of source/forstio/io_peer.tmpl.h do not compile when they are instantiated. `send` is
-- declared `void` and returns an `Error`; the model is its body, with that result. The function that
-- `writeDone` is given has a parameter without a type and uses two names that do not exist; the model
-- has the names that are meant.
--
-- An `Event **` is the head of the loop or the `next` of an event, so that the pointers of the list are
-- fields of one record. There is one event loop, of one thread. A storage of a conveyor is a number,
-- which is also that of its event, and `Net` holds all of them, with the pointers between them; the
-- nodes that own one another between two storages are a data type. The functions of `then` return a
-- value or an error or throw, and have no other effect.
--
-- Bounds. A buffer holds less than 2 ^ 63 bytes, as a `std::vector` does. The loops of `push` and
-- `pop` run on fuel, as many rounds as there are bytes: each round moves one byte at least, since a
-- segment is not empty. `readStep` and `writeStep` run on as much fuel as bytes are wanted, since a
-- stream moves one byte at least or reports an error. `turnLoop` has the bound of the code, 65536
-- rounds. Destructors nest at most as deep as there are storages, and `parentHasFired` at most two
-- deep, since the storage of a conveyor is no appendage. The loop of the peer over the packets that
-- have arrived runs as many rounds as there are packets, and one that finds no other.
--
-- Not modelled: the text that a length over the limit is formatted to (an argument of the model),
-- running out of memory where a vector may still grow, `ChainArrayBuffer`, which has no implementation,
-- `OneTimeConveyorNode`, which cannot be instantiated, the list of `ConveyorSinks`
-- (source/forstio/async.cpp), the streams over the conveyors (source/forstio/io.h, io.cpp) but for
-- `read` and `write`, TLS (source/forstio/tls) and the Unix driver (driver), which call the
-- operating system.
pub mod Async
pub mod Buffer
pub mod Codec
pub mod Error
pub mod Io
pub mod Message
pub mod Prelude
pub mod Stream
pub mod Tests
