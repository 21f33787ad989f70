-- ===== src/Async.antt =====
-- source/forstio/async.h, source/forstio/async.tmpl.h and source/forstio/async.cpp: the event loop
-- and the conveyors that it drives.
pub mod Event
pub mod Loop
pub mod Conveyor
pub mod Network
