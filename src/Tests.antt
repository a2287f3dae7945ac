-- ===== src/Tests.antt =====
-- The theorems at concrete inputs.
mod Codec
mod Persist
mod Session
mod Time
mod Wire
mod Decode
mod Store
mod Timer
