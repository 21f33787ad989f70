-- ===== src/Message.antt =====
-- source/forstio/schema.h, message_container.h and message.h: schemas, the values that the message
-- containers of a schema hold, and the readers and builders over them.
pub mod Schema
pub mod Value
pub mod Keys
pub mod Access
