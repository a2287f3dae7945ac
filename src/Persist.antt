-- ===== src/Persist.antt =====
-- The persisters of include/fix8/persist.hpp: what a session asks of one, and two that implement it.
pub mod Range
pub mod Memory
pub mod File
