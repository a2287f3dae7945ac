-- ===== src/Message/Encode.antt =====
-- `Message::encode` of runtime/message.cpp, in a build without pre-encoding. The text is put together
-- around the place `moffs` in the store: the header without its first two fields, the body and the
-- trailer from there on, and then BeginString and BodyLength in front of it, at an offset that is
-- computed from their expected sizes. `before` is what the HEADER_CALC_OFFSET bytes in front hold.
-- A text is shorter than 2 ^ 31, and `wide` says which body of `calc_chksum` the build has.
use fix.Base.{
  Bool, ℕ, ◌+◌, ◌-◌, Bytes, List, Option, some, none, [], ◌∷◌, ◌++◌, ltb, ◌==◌, if◌then◌else◌,
  length, take, drop, map,
}
use fix.Codec.Decimal.{itoa}
use fix.Codec.Checksum.{compiled_chksum, fmt_chksum}
use fix.Message.Tree.{
  Field, MessageBase, message_base, Encoded, encoded, missing_message_component,
  missing_mandatory_field, undefined, ◌>>=◌, encode, encode_field,
}

abbrev pub common_BeginString : ℕ
common_BeginString = 8

abbrev pub common_BodyLength : ℕ
common_BodyLength = 9

abbrev pub common_CheckSum : ℕ
common_CheckSum = 10

abbrev pub common_MsgType : ℕ
common_MsgType = 35

-- `_ctx`, as far as it is read.
abbrev pub preamble_sz : Bytes → ℕ
preamble_sz begin_str = 2 + length begin_str + 1 + 3

-- `Message`: `none` where the pointer is null.
pub record Message : Type 0 where
  pub msg_type : Bytes
  pub header : Option MessageBase
  pub body : MessageBase
  pub trailer : Option MessageBase

abbrev pub find_field : ℕ → List Field → Option Field
find_field fnum [] = none
find_field fnum (f ∷ fs) = let rest = find_field fnum fs in if f.fnum == fnum then some f else rest

-- `get_begin_string` and the like: the field of a header or trailer.
abbrev pub get_field : ℕ → MessageBase → Option Field
get_field fnum (message_base fp pos repeats unknown) = find_field fnum pos

abbrev pub with_value : Field → Bytes → Field
with_value f value = record f { value = value }

-- `get_msg_type()->set(_msgType)`.
abbrev pub set_field : ℕ → Bytes → MessageBase → MessageBase
set_field fnum value (message_base fp pos repeats unknown) =
    message_base fp (map (λ f. if f.fnum == fnum then with_value f value else f) pos) repeats
      unknown

-- The number of digits that the length is taken to have.
abbrev pub digits : ℕ → ℕ
digits n =
    if ltb n 10
    then 1
    else if ltb n 100
    then 2
    else if ltb n 1000
    then 3
    else if ltb n 10000
    then 4
    else if ltb n 100000
    then 5
    else if ltb n 1000000
    then 6
    else 7

-- `text` written over the start of what is there.
abbrev pub write_over : Bytes → Bytes → Bytes
write_over text there = text ++ drop (length text) there

abbrev pub number_text : ℕ → (Bytes → Encoded) → Encoded
number_text n next = elim (itoa n 10) [ none ↦ undefined | some text ↦ next text ]

-- The two fields in front, then the checksum over the whole and its field; `text` is what stands from
-- `moffs` on, and a head longer than the bytes in front of it is written before the store.
unfoldable pub encode_around : Bool → Bytes → Bytes → Bytes → Field → Field → Field → Encoded
encode_around wide begin_str before text begin_string body_length check_sum =
    let hlen = preamble_sz begin_str + digits (length text) in
    let here = drop (length before - hlen) before ++ text in
    encode_field begin_string >>= λ first. number_text (length text) (λ len.
      encode_field (with_value body_length len) >>= λ second.
      let whole = write_over (first ++ second) here in
      elim (fmt_chksum (compiled_chksum wide whole (length text + hlen) 0 none)) [
        | none ↦ undefined
        | some chksum ↦
            if ltb (length before) hlen
            then undefined
            else (encode_field (with_value check_sum chksum) >>= λ last.
                encoded (take (hlen + length text) whole ++ last))
      ])

-- The fields that are looked up between the steps.
unfoldable pub encode_message : Bool → Bytes → Bytes → Message → Encoded
unfolding encode_around
encode_message wide begin_str before m = elim m.header [
  | none ↦ missing_message_component
  | some header ↦ elim (get_field common_MsgType header) [
    | none ↦ undefined
    | some found ↦ encode (set_field common_MsgType m.msg_type header) >>= λ h.
        encode m.body >>= λ b. elim m.trailer [
          | none ↦ missing_message_component
          | some trailer ↦ encode trailer >>= λ t. elim (get_field common_BeginString header) [
            | none ↦ missing_mandatory_field common_BeginString
            | some begin_string ↦ elim (get_field common_BodyLength header) [
              | none ↦ missing_mandatory_field common_BodyLength
              | some body_length ↦ elim (get_field common_CheckSum trailer) [
                | none ↦ missing_mandatory_field common_CheckSum
                | some check_sum ↦
                    encode_around wide begin_str before (h ++ (b ++ t)) begin_string body_length
                      check_sum
              ]
            ]
          ]
        ]
  ]
]
