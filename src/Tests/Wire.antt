-- ===== src/Tests/Wire.antt =====
-- The theorems of the framing and of the encoding at concrete inputs.
use fix.Base.{
  true, ℕ, ◌+◌, ◌≡◌, ◌≤◌, same_bytes, refl, Bytes, some, false, [], ◌∷◌, ◌++◌, codes, length, take,
  drop, arith,
}
use fix.Codec.Decimal.{itoa, fast_atoi}
use fix.Codec.Element.{isdigit, extract_element}
use fix.Codec.Element.Laws.{IsValue, field}
use fix.Codec.Checksum.{compiled_chksum, fmt_chksum}
use fix.Traits.{FieldTrait, find_hashed}
use fix.Connection.Stream.{Socket, received, sock_read}
use fix.Connection.Reader.{read, message, bg_sz, chksum_sz, read_length, check_preamble}
use fix.Connection.Framing.{IsFrame, Follow, IsText, Returns, read-stream}
use fix.Connection.Sound.{IsHead, read_sound}
use fix.Message.Tree.{Field, MessageBase, message_base, no_groups, encoded, encode}
use fix.Message.Encode.{Message, encode_message}
use fix.Message.Factory.{check_trailer, accepted}
use fix.Message.Wire.{IsEncodable}
use fix.Message.Delivery.{read-encode_message}

abbrev version : Bytes
version = codes "FIX.4.2"

-- A heartbeat with its body, and one byte of the next message.
abbrev body : Bytes
body = field (codes "35") (codes "0") []

abbrev beat : Bytes
beat =
    field (codes "8") version
      (field (codes "9") (codes "5") (body ++ field (codes "10") (codes "161") []))

abbrev sock : Socket
sock = take 3 beat ∷ [] ∷ drop 3 beat ∷ codes "8" ∷ []

beat-IsFrame : IsFrame version 1024 200 beat
unfolding isdigit fast_atoi
beat-IsFrame = record {
  len = codes "5";
  body = body;
  chksum = field (codes "10") (codes "161") [];
  text_is = refl;
  digits = (refl, tt);
  some_digit = omega arith;
  len_is = refl;
  some_body = omega arith;
  body_fits = omega arith;
  len_fits = omega arith;
  version_short = omega arith;
  len_short = omega arith;
  chksum_is = refl;
}

version-IsValue : IsValue version
version-IsValue = (
  omega arith,
  (omega arith, (omega arith, (omega arith, (omega arith, (omega arith, (omega arith, tt)))))),
)

version-IsText : IsText version
version-IsText = (
  omega arith,
  (omega arith, (omega arith, (omega arith, (omega arith, (omega arith, (omega arith, tt)))))),
)

read-stream_example : Follow version 1024 200 (beat ∷ []) (codes "8") sock
unfolding received
read-stream_example =
    read-stream version 1024 200 (beat ∷ []) (codes "8") sock version-IsValue version-IsText
      (beat-IsFrame, tt) refl

beat-read : read version 1024 200 sock ≡ message beat (codes "8" ∷ [])
unfolding read read_length check_preamble sock_read extract_element fast_atoi same_bytes
beat-read = refl

read_sound_example :
    (received sock ≡ beat ++ received (codes "8" ∷ []))
    × ((head tail : Bytes) × (n : ℕ) × (beat ≡ head ++ tail)
        × IsHead version head n
        × (length tail ≡ n + chksum_sz)
        × (1 ≤ n)
        × (bg_sz version + n + chksum_sz ≤ 200))
read_sound_example = read_sound version 1024 200 sock (codes "8" ∷ []) beat (omega arith) beat-read

abbrev trait : ℕ → ℕ → FieldTrait
trait fnum bits = record { fnum = fnum; ftype = 0; pos = 0; bits = bits }

abbrev field_of : ℕ → Bytes → Field
field_of fnum value = record { fnum = fnum; value = value; count = 0 }

-- The header has BeginString and BodyLength suppressed, the trailer CheckSum.
abbrev header : MessageBase
header =
    message_base (trait 8 32 ∷ trait 9 32 ∷ trait 35 0 ∷ [])
      (field_of 8 version ∷ field_of 9 [] ∷ field_of 35 [] ∷ []) no_groups []

abbrev trailer : MessageBase
trailer = message_base (trait 10 32 ∷ []) (field_of 10 [] ∷ []) no_groups []

abbrev heartbeat : Message
heartbeat = record {
  msg_type = codes "0";
  header = some header;
  body = message_base (trait 112 0 ∷ []) [] no_groups [];
  trailer = some trailer;
}

abbrev before : Bytes
before = codes "0123456789abcdef0123456789abcdef"

heartbeat-IsEncodable : IsEncodable version before heartbeat body
unfolding encode itoa find_hashed
heartbeat-IsEncodable = record {
  header = header;
  trailer = trailer;
  has_header = refl;
  has_trailer = refl;
  msg_type = field_of 35 [];
  begin_string = field_of 8 version;
  body_length = field_of 9 [];
  check_sum = field_of 10 [];
  has_msg_type = refl;
  has_begin_string = refl;
  has_body_length = refl;
  has_check_sum = refl;
  version = refl;
  head_text = body;
  body_text = [];
  tail_text = [];
  header_is = refl;
  body_is = refl;
  trailer_is = refl;
  text_is = refl;
  some_text = omega arith;
  text_bound = omega arith;
  room = omega arith;
}

heartbeat-encoded : encode_message true version before heartbeat ≡ encoded beat
unfolding encode_message encode itoa find_hashed compiled_chksum fmt_chksum
heartbeat-encoded = refl

read-encode_message_example :
    Returns (read version 1024 200 sock) beat (codes "8")
    × ((chksum : Bytes) × (check_trailer true beat false ≡ accepted chksum))
read-encode_message_example =
    read-encode_message true version before body beat (codes "8") heartbeat 1024 200 sock
      heartbeat-IsEncodable version-IsValue version-IsText (omega arith) (omega arith) (omega arith)
      heartbeat-encoded (unfold received in refl)
