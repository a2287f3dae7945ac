-- ===== src/Codec.antt =====
-- The text level of a FIX message: decimal numbers, `tag=value` elements, the checksum.
pub mod Decimal
pub mod Element
pub mod Header
pub mod Checksum
