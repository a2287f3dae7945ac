-- ===== src/Message/Wire.antt =====
-- From the encoding of a message to its reader.
use fix.Base.{
  Bool, ℕ, ◌+◌, ◌^◌, ◌<◌, ◌≤◌, ◌≡◌, ap, ◌∙◌, sym, Bytes, List, some, none, [], ◌∷◌, ◌++◌, length,
  arith, codes,
}
use fix.Codec.Decimal.{itoa, u32}
use fix.Codec.Decimal.RoundTrip.{fast_atoi-itoa}
use fix.Codec.Element.Laws.{field}
use fix.Codec.Checksum.{compiled_chksum}
use fix.Codec.Checksum.Plain.{fmt_chksum-digits}
use fix.Message.Tree.{Field, MessageBase, message_base, encoded, encode, ◌>>=◌}
use fix.Message.Encode.{
  Message, get_field, set_field, find_field, digits, preamble_sz, encode_around, encode_message,
  common_BeginString, common_BodyLength, common_CheckSum, common_MsgType,
}
use fix.Message.Size.{length-itoa}
use fix.Message.Framed.{
  layout, chksum_of, front, front-append, encode_around-steps, calc_chksum_bound,
}

find_field-fnum :
    (fnum : ℕ) (fs : List Field) (f : Field) → find_field fnum fs ≡ some f → f.fnum ≡ fnum
find_field-fnum fnum [] f e = absurd (ground (arith, e))
find_field-fnum fnum (g ∷ fs) f e = ground (arith, find_field-fnum fnum fs f)

get_field-fnum :
    (fnum : ℕ) (m : MessageBase) (f : Field) → get_field fnum m ≡ some f → f.fnum ≡ fnum
get_field-fnum fnum (message_base fp pos repeats unknown) f e = find_field-fnum fnum pos f e

-- A message whose parts can be encoded, with the fields that the encoding asks for; `text` is what the
-- parts come to, which has between 1 and 9,999,999 bytes, and the two fields in front of it fit.
pub record IsEncodable (begin_str before : Bytes) (m : Message) (text : Bytes) : Type 0 where
  pub header : MessageBase
  pub trailer : MessageBase
  pub has_header : m.header ≡ some header
  pub has_trailer : m.trailer ≡ some trailer
  pub msg_type : Field
  pub begin_string : Field
  pub body_length : Field
  pub check_sum : Field
  pub has_msg_type : get_field common_MsgType header ≡ some msg_type
  pub has_begin_string : get_field common_BeginString header ≡ some begin_string
  pub has_body_length : get_field common_BodyLength header ≡ some body_length
  pub has_check_sum : get_field common_CheckSum trailer ≡ some check_sum
  pub version : begin_string.value ≡ begin_str
  pub head_text : Bytes
  pub body_text : Bytes
  pub tail_text : Bytes
  pub header_is : encode (set_field common_MsgType m.msg_type header) ≡ encoded head_text
  pub body_is : encode m.body ≡ encoded body_text
  pub trailer_is : encode trailer ≡ encoded tail_text
  pub text_is : text ≡ head_text ++ (body_text ++ tail_text)
  pub some_text : 1 ≤ length text
  pub text_bound : length text < 10 ^ 7
  pub room : preamble_sz begin_str + digits (length text) ≤ length before

module _ (wide : Bool) (begin_str before : Bytes) (m : Message) (text : Bytes)
    (p : IsEncodable begin_str before m text) where
  to_around :
      encode_message wide begin_str before m
      ≡ encode_around wide begin_str before text p.begin_string p.body_length p.check_sum
  unfolding encode_message
  to_around =
      rw
        (
          encode_message, p.has_header, p.has_msg_type, p.header_is, ◌>>=◌, p.body_is,
          p.has_trailer, p.trailer_is, p.has_begin_string, p.has_body_length, p.has_check_sum,
        )
        (ap (λ t. encode_around wide begin_str before t p.begin_string p.body_length p.check_sum)
          (sym p.text_is))

  pub encode_message-layout :
      (len : Bytes) × (chksum : Bytes) × (itoa (length text) 10 ≡ some len)
      × (chksum_of wide (field (codes "8") begin_str (field (codes "9") len text)) ≡ some chksum)
      × (encode_message wide begin_str before m ≡ encoded (layout begin_str len text chksum))
  encode_message-layout =
      let (len, printed, digit, reads) =
        fast_atoi-itoa u32 (length text) [] (omega arith) (omega arith)
          (omega (arith, p.text_bound)) in
      let whole = front begin_str len ++ text in
      let small = calc_chksum_bound wide whole (length whole) in
      let sum = fmt_chksum-digits (compiled_chksum wide whole (length whole) 0 none) small in
      (
        len,
        _,
        printed,
        ap (chksum_of wide) (sym (front-append begin_str len text)) ∙ sum,
        to_around
            ∙ encode_around-steps wide begin_str before text len _ p.begin_string p.body_length
                p.check_sum
                (
                  get_field-fnum common_BeginString p.header p.begin_string p.has_begin_string,
                  get_field-fnum common_BodyLength p.header p.body_length p.has_body_length,
                  get_field-fnum common_CheckSum p.trailer p.check_sum p.has_check_sum,
                )
                p.version printed (length-itoa (length text) len p.some_text p.text_bound printed)
                p.room sum,
      )
