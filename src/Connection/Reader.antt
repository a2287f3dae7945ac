-- ===== src/Connection/Reader.antt =====
-- `FIXReader::read` of runtime/connection.cpp. `begin_str` is the version of the schema;
-- `max_fld_length` and `max_msg_len` are the constants that the build sets.
use fix.Base.{
  ℕ, zero, suc, ◌+◌, ◌-◌, ◌^◌, ◌≤◌, ◌≡◌, arith, ◌==◌, not, Bytes, Option, some, none, [], ◌∷◌, ◌++◌,
  ltb, ◌||◌, ◌&&◌, if◌then◌else◌, length, drop, same_bytes,
}
use fix.Codec.Decimal.{u32, fast_atoi}
use fix.Codec.Element.{soh, isdigit, extract_element}
use fix.Codec.Header.{char_at, fits, c_str}
use fix.Connection.Stream.{Socket, sock_read}

-- A read returns the message and leaves the socket, or throws. `unterminated` is a conversion that
-- runs past its buffer, which no value with its zero behind it is; `overflow` is a write past a buffer.
pub data Read : Type 0 where
  message : Bytes → Socket → Read
  peer_reset_connection : Read
  illegal_message : Read
  invalid_version : Bytes → Read
  invalid_body_length : ℕ → Read
  unterminated : Read
  overflow : Read

abbrev pub chksum_sz : ℕ
chksum_sz = 7

-- `set_preamble_sz`.
abbrev pub bg_sz : Bytes → ℕ
bg_sz begin_str = 2 + length begin_str + 1 + 3

-- `_max_msg_len - _bg_sz - _chksum_sz`, in a `size_t`.
unfoldable pub body_limit : Bytes → ℕ → ℕ
body_limit begin_str max_msg_len =
    if ltb max_msg_len (bg_sz begin_str + chksum_sz)
    then max_msg_len + 2 ^ 64 - bg_sz begin_str - chksum_sz
    else max_msg_len - bg_sz begin_str - chksum_sz

pub body_limit-exact :
    (begin_str : Bytes) (max_msg_len : ℕ)
    → bg_sz begin_str + chksum_sz ≤ max_msg_len
    → body_limit begin_str max_msg_len ≡ max_msg_len - bg_sz begin_str - chksum_sz
unfolding body_limit
body_limit-exact begin_str max_msg_len h = ground (arith, h)

-- How the loop that reads the body length ends: with what was read, or by an exception.
pub data Length : Type 0 where
  length_read : Bytes → Socket → Length
  length_peer_reset : Length
  length_illegal : Length

-- One byte, which has to be a digit or the separator.
abbrev pub read_byte : Option (Bytes × Socket) → (Bytes → Socket → Length) → Length
read_byte none next = length_peer_reset
read_byte (some (bt, after)) next =
    if not (isdigit (char_at 0 bt)) && not (char_at 0 bt == soh)
    then length_illegal
    else next bt after

-- The loop; `room` is how many bytes the buffer has left behind the one that is read next.
unfoldable pub read_length : ℕ → Socket → Bytes → Length
read_length zero sock to = read_byte (sock_read sock 1) (λ bt after. length_read (to ++ bt) after)
read_length (suc room) sock to = read_byte (sock_read sock 1) (λ bt after.
    let more = read_length room after (to ++ bt) in
    if char_at 0 bt == soh then length_read (to ++ bt) after else more)

-- The body and the checksum behind the length.
unfoldable pub read_body : Bytes → ℕ → ℕ → Socket → Read
read_body to mlen limit sock =
    if mlen == 0 || ltb limit mlen then invalid_body_length mlen else elim (sock_read sock mlen) [
      | none ↦ peer_reset_connection
      | some body ↦ elim (sock_read body.1 chksum_sz) [
        | none ↦ peer_reset_connection
        | some chksum ↦ message (to ++ (body.0 ++ chksum.0)) chksum.1
      ]
    ]

-- What was read up to the body length is checked, and the length converted.
unfoldable pub check_preamble : Bytes → ℕ → ℕ → Bytes → Socket → Read
unfolding c_str read_body body_limit
check_preamble begin_str max_fld_length max_msg_len to sock =
    let first = extract_element to in
    let second = extract_element (drop first.consumed to) in
    if not (fits max_fld_length first)
    then overflow
    else if first.consumed == 0
    then illegal_message
    else if not (char_at 0 first.tag == b'8')
    then illegal_message
    else if not (same_bytes begin_str (c_str first.val))
    then invalid_version (c_str first.val)
    else if not (fits max_fld_length second)
    then overflow
    else if second.consumed == 0
    then illegal_message
    else if not (char_at 0 second.tag == b'9')
    then illegal_message
    else elim (fast_atoi u32 0 (second.val ++ 0 ∷ [])) [
      | none ↦ unterminated
      | some mlen ↦ read_body to mlen (body_limit begin_str max_msg_len) sock
    ]

unfoldable pub read : Bytes → ℕ → ℕ → Socket → Read
unfolding read_length check_preamble
read begin_str max_fld_length max_msg_len sock = elim (sock_read sock (bg_sz begin_str)) [
  | none ↦ peer_reset_connection
  | some preamble ↦ elim (read_length (max_msg_len - bg_sz begin_str - 1) preamble.1 preamble.0) [
    | length_peer_reset ↦ peer_reset_connection
    | length_illegal ↦ illegal_message
    | length_read to after ↦ check_preamble begin_str max_fld_length max_msg_len to after
  ]
]
