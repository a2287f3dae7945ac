-- ===== src/Message/Made.antt =====
-- `Message::factory` of runtime/message.cpp on a text of three parts.
use fix.Base.{ℕ, ◌<◌, ◌^◌, ◌≡◌, ◌≢◌, Bytes, Option, some, [], ◌∷◌, ◌++◌, length}
use fix.Message.Tree.{Field}
use fix.Codec.Decimal.{u32, itoa, fast_atoi}
use fix.Codec.Header.{c_str, extract_header, header}
use fix.Message.Factory.{Trailer, accepted, invalid_message, bad_check_sum}
use fix.Message.Encode.{
  Message, get_field, set_field, common_BodyLength, common_MsgType, common_CheckSum,
}
use fix.Message.Schema.{Schema}
use fix.Message.Items.{wire}
use fix.Message.Parse.{MessageClass, made, invalid, wrong_check_sum, broken, Made}
use fix.Message.Parts.{Part, part_before, part_after, IsPart}

-- The text of a message: three fields in front (`head`), the three parts of the message of its type,
-- and the last seven bytes with the checksum. The header has places for the length and the type, and
-- the trailer for the checksum.
pub record IsText (s : Schema) (find_ptr : Bytes → Option MessageClass) (from : Bytes)
    : Type 0 where
  pub class : MessageClass
  pub h : Part
  pub b : Part
  pub t : Part
  pub head : Bytes
  pub last : Bytes
  pub text_is : from ≡ head ++ (wire h.added ++ (wire b.added ++ (wire t.added ++ last)))
  pub len : Bytes
  pub mtype_buffer : Bytes
  pub mtype : Bytes
  pub mtype_is : c_str mtype_buffer ≡ mtype
  pub begins : extract_header s.max_fld_length from ≡ some (header (length head) len mtype_buffer)
  pub some_head : length head ≢ 0
  pub mlen : ℕ
  pub len_is : fast_atoi u32 0 (len ++ 0 ∷ []) ≡ some mlen
  pub len_bound : mlen < 2 ^ 31
  pub length_text : Bytes
  pub printed : itoa mlen 10 ≡ some length_text
  pub class_is : find_ptr mtype ≡ some class
  pub last_is : length last ≡ 7
  pub header_is : class.empty.header ≡ some (part_before h)
  pub body_is : class.empty.body ≡ part_before b
  pub trailer_is : class.empty.trailer ≡ some (part_before t)
  pub h_is : IsPart s h (wire b.added ++ (wire t.added ++ last))
  pub b_is : IsPart s b (wire t.added ++ last)
  pub t_is : IsPart s t []
  pub body_length : Field
  pub has_length : get_field common_BodyLength (part_after h) ≡ some body_length
  pub msg_type : Field
  pub has_type :
      get_field common_MsgType (set_field common_BodyLength length_text (part_after h))
      ≡ some msg_type
  pub check_sum : Field
  pub has_sum : get_field common_CheckSum (part_after t) ≡ some check_sum

-- The message of such a text, with its checksum.
abbrev pub message_of :
    {s : Schema} {find_ptr : Bytes → Option MessageClass} {from : Bytes}
    → IsText s find_ptr from
    → Bytes
    → Message
message_of i chksum = record i.class.empty {
  header = some (
      set_field common_MsgType i.mtype
        (set_field common_BodyLength i.length_text (part_after i.h)));
  body = part_after i.b;
  trailer = some (set_field common_CheckSum chksum (part_after i.t));
}

-- The message as it is before the checks of the end.
abbrev headed :
    {s : Schema} {find_ptr : Bytes → Option MessageClass} {from : Bytes}
    → IsText s find_ptr from
    → Message
headed i = record i.class.empty {
  header = some (
      set_field common_MsgType i.mtype
        (set_field common_BodyLength i.length_text (part_after i.h)));
  body = part_after i.b;
  trailer = some (part_after i.t);
}

-- What the checks of the end come to.
abbrev pub verdict : (Bytes → Message) → Trailer → Made
verdict whole fix.Message.Factory.undefined = broken
verdict whole invalid_message = invalid
verdict whole (bad_check_sum mchkval) = wrong_check_sum mchkval
verdict whole (accepted chksum) = made (whole chksum)
