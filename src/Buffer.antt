-- ===== src/Buffer.antt =====
-- source/forstio/buffer.h and source/forstio/buffer.cpp: byte buffers.
-- `Defs` has the class `Buffer`; `Ring`, `Array` and `View` are the classes that derive from it,
-- each below the contract that its clients use.
pub mod Defs
pub mod Contract
pub mod Ring
pub mod Array
pub mod View
pub mod Push
pub mod Pop
