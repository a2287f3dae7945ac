-- ===== src/Message.antt =====
-- Messages as trees of fields and their encoding, of include/fix8/message.hpp and runtime/message.cpp.
pub mod Tree
pub mod Encode
pub mod Size
pub mod Framed
pub mod Factory
pub mod Wire
pub mod Delivery
pub mod Schema
pub mod Group
pub mod Decode
pub mod Outcome
pub mod GroupEnds
pub mod Ends
pub mod Items
pub mod Parsed
pub mod Settled
pub mod RoundTrip
pub mod Reencode
pub mod Refused
pub mod Parse
pub mod Parts
pub mod Made
pub mod Store
pub mod Copy
pub mod Move
