-- ===== src/Time.antt =====
-- The UTC time formats of include/fix8/field.hpp, over the ticks of include/fix8/tickval.hpp. An `int`
-- and a tick count are their bits; signed overflow wraps. A buffer is the bytes that can be read: what
-- reads past them, or past `mon_days`, is `none`.
pub mod Int
pub mod Tm
pub mod Text
pub mod Digits
pub mod Epoch
pub mod Reads
pub mod RoundTrip
