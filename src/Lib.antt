-- ===== src/Lib.antt =====
-- fix8: a FIX engine. What is modelled here is the core of its runtime: the bytes of a message, the
-- stores that messages are sent again from, and the session that counts, checks and answers them.
--
-- The parts and how they work together. A connection (include/fix8/connection.hpp) hands each text
-- that it receives to `Session::process`, which has a message made of it, checks its sequence
-- number and answers it by the handlers of runtime/session.cpp. What a session sends goes through
-- `send_process`, which numbers the message, encodes it, writes it to the socket and records it in
-- a persister (runtime/persist.cpp, runtime/filepersist.cpp). A resend request reads a range of the
-- persister back through a callback of the session. A timer calls two services each second, one for
-- heartbeats and one for the schedule.
--
-- The files.
--   Base: the names that all modules share, Boolean tests, lists on the native numbers, `std::map` as
--   an association list in the order of its keys (Base/SortedMap) and its part in a range
--   (Base/Suffix).
--   Codec/Decimal: `fast_atoi` and `itoa` of include/fix8/f8utils.hpp. Codec/Element: the extraction
--   of elements, and Codec/Checksum: `calc_chksum` and `fmt_chksum`, of include/fix8/message.hpp.
--   Codec/Header: `extract_header` and `extract_trailer` of runtime/message.cpp.
--   Persist/Range: the loop over a range of messages that the persisters share. Persist/Memory:
--   `MemoryPersister`. Persist/File: `FilePersister`, with its two files.
--   Schedule: `Schedule::test` of include/fix8/session.hpp with the ticks of
--   include/fix8/tickval.hpp; Schedule/Configured: `create_schedule` of runtime/configuration.cpp and
--   `decode_dow` of runtime/f8utils.cpp, whose times, offset and duration are those read already.
--   Time: the formats of dates and times of include/fix8/field.hpp: Time/Int, the arithmetic of
--   `int`; Time/Tm, `struct tm` and `time_to_epoch`; Time/Text, printing and parsing; Time/Epoch, the
--   calendar; Time/Digits, Time/Reads and Time/RoundTrip, the lemmas.
--   Timer: `TimerEvent` and `Timer` of include/fix8/timer.hpp.
--   Traits: the set of field traits, `presorted_set` with its hash array, of include/fix8/traits.hpp;
--   Traits/Fields: `FieldTraits`, with lemmas in Traits/Laws, Traits/Bits, Traits/Flags and
--   Traits/Missing.
--   Connection: `FIXReader`. Connection/Stream: `sockRead` over a socket that gives its bytes in
--   pieces; Connection/Reader: `read`; Connection/Framing and Connection/Sound: what it returns.
--   Message: the tree of fields and repeating groups of a message and its encoding (Message/Tree),
--   `Message::encode` (Message/Encode), the checks of `Message::factory` on the end of a text
--   (Message/Factory), and their lemmas: Message/Size, Message/Framed, Message/Wire; Message/Delivery
--   goes from the encoding to the reader. The way back: what the decoding asks of the generated code
--   (Message/Schema), `decode_group` (Message/Group), `MessageBase::decode` (Message/Decode),
--   `Message::decode` and `factory` (Message/Parse). That it ends: Message/Outcome,
--   Message/GroupEnds, Message/Ends. What it makes of a text: one element in Message/Items, all of
--   them in Message/Parsed and Message/Settled, `decode` in Message/RoundTrip and Message/Refused,
--   the encoding of the result in Message/Reencode, the three parts of a message in Message/Parts
--   and the factory in Message/Made. Message/Store: the maps of fields and positions, `add_field`,
--   `replace` and `remove`; Message/Copy: `copy_legal`;
--   Message/Move: `move_legal`.
--   Session/State: the states, identities, messages, exceptions and members of a session.
--   Session/Act: code that changes a session and may throw. Session/Send: `send`, `send_process`,
--   `write_batch`, the admin messages (Session/Send/Build), `stop` and the numbers in the persister.
--   Session/Check: `enforce`, `compid_check`, `sequence_check`. Session/Resend:
--   `handle_resend_request` and `retrans_callback`. Session/Logon: `handle_logon` and the other admin
--   handlers. Session/Process: `process` and `start`, with gaps in Session/Process/Gap.
--   Session/Service: the services of the timer.
--   Session/Ids: the comparisons of identities.
--   Tests: the theorems at concrete inputs.
--
-- What stands for code that is not in the repository. The class that the compiler writes for a
-- schema makes messages: for a session `Codec` in Session/State has these calls and the encoding,
-- and `Application` in Session/Process those of a derived session. A session asks its persister
-- through the record `Persister`. The answers of the system to the calls of the file persister are
-- an argument (`Io`). The decoding has the fields that the schema knows, the traits of its groups
-- and the size of its buffers in `Schema`. `gmtime` of the C library is an argument of the formats
-- of dates.
--
-- Bounds and fuel. Sequence numbers are `unsigned` with 32 bits and wrap; ticks have 64 bits and
-- are compared in two's complement. The loop over a range has as many rounds as there are numbers
-- in the range, which is enough since the keys of a map rise; `itoa` has 32 rounds, since a number
-- of 32 bits has no more digits in any base. The decoding of a message runs on fuel that its loops
-- and those of its groups share; twice as much as the text has bytes, and three, is enough where
-- every group has a mandatory field; without one, no fuel may be. The loop of the nearest record
-- has one round for each number.
--
-- Not modelled: the printing and cloning of messages, the pipelined model and all threads
-- and locks but that of the timer under `stop`, the buffered form of `sockRead`, logs, the configuration but for its schedules, the
-- persisters over other databases, the compiler, and the copies of other projects' libraries
-- (include/fix8/ff, runtime/gzstream.cpp, runtime/modp_numtoa.c). Fields that hold integers hold natural numbers
-- here, an `int` that is compared its 32 bits; the sizes and offsets of the file persister do not wrap,
-- and its `get` of a range is left out.
pub mod Base
pub mod Codec
pub mod Persist
pub mod Schedule
pub mod Time
pub mod Timer
pub mod Traits
pub mod Connection
pub mod Message
pub mod Session
pub mod Tests
