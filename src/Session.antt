-- ===== src/Session.antt =====
-- The session layer: runtime/session.cpp and include/fix8/session.hpp.
pub mod State
pub mod Fields
pub mod Ids
pub mod Act
pub mod Send
pub mod Check
pub mod Resend
pub mod Logon
pub mod Process
pub mod Service
