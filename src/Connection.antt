-- ===== src/Connection.antt =====
-- The framing of inbound bytes, of include/fix8/connection.hpp and runtime/connection.cpp.
pub mod Stream
pub mod Reader
pub mod Framing
pub mod Sound
