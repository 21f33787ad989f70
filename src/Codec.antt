-- ===== src/Codec.antt =====
-- source/forstio/proto_kel.h: `ProtoKelCodec`. `Size`, `Encode` and `Decode` are the templates
-- `ProtoKelEncodeImpl` and `ProtoKelDecodeImpl`, `Packet` the two methods of the codec; `Format`
-- says independently what a packet is made of.
pub mod Steps
pub mod Size
pub mod Encode
pub mod Decode
pub mod Packet
pub mod Format
pub mod Parse
