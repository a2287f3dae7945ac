-- ===== src/Message/Parse.antt =====
-- `Message::decode` of include/fix8/message.hpp and `Message::factory` of runtime/message.cpp: a
-- message of its text.
use fix.Base.{ℕ, ◌-◌, ◌^◌, Bool, Bytes, Option, some, none, [], ◌∷◌, ◌++◌, ltb, ◌==◌, if◌then◌else◌}
use fix.Codec.Decimal.{u32, itoa, fast_atoi}
use fix.Codec.Header.{c_str, extract_header}
use fix.Message.Tree.{MessageBase}
use fix.Message.Encode.{
  Message, get_field, set_field, common_BodyLength, common_MsgType, common_CheckSum,
}
use fix.Message.Factory.{Trailer, check_trailer, accepted, bad_check_sum, invalid_message}
use fix.Message.Schema.{Schema, DecodeError, Decoded, decoded, threw, undefined, out_of_fuel, ◌>>=◌}
use fix.Message.Decode.{decode}

-- An entry of `_bme`: the classes of the parts of a message, and what its `_create` makes for a
-- shallow construction.
pub record MessageClass : Type 0 where
  pub header_class : ℕ
  pub body_class : ℕ
  pub trailer_class : ℕ
  pub empty : Message

-- A part that a pointer leads to.
abbrev decode_part :
    ℕ → Schema → ℕ → Option MessageBase → Bytes → ℕ → ℕ → Bool → Decoded (MessageBase × ℕ)
decode_part fuel s class none from s_offset ignore permissive_mode = undefined
decode_part fuel s class (some part) from s_offset ignore permissive_mode =
    decode fuel s class part from s_offset ignore permissive_mode

-- The three parts, one behind the other.
unfoldable pub decode_message :
    ℕ → Schema → MessageClass → Bytes → ℕ → ℕ → Bool → Decoded (Message × ℕ)
unfolding decode
decode_message fuel s c from offset ignore permissive_mode =
    decode_part fuel s c.header_class c.empty.header from offset 0 permissive_mode >>= λ h.
    decode fuel s c.body_class c.empty.body from h.1 0 permissive_mode >>= λ b.
    decode_part fuel s c.trailer_class c.empty.trailer from b.1 ignore permissive_mode >>= λ t.
    decoded (record c.empty { header = some h.0; body = b.0; trailer = some t.0 }, t.1)

-- What `factory` returns or throws. `broken` is a read or write that the language does not define,
-- `unfinished` a decoding that ran out of fuel.
pub data Made : Type 0 where
  made : Message → Made
  invalid : Made
  wrong_check_sum : ℕ → Made
  refused : DecodeError → Made
  broken : Made
  unfinished : Made

-- A pointer that is set through, to a field of the part.
abbrev set_there : ℕ → Bytes → Option MessageBase → Option MessageBase
set_there fnum value none = none
set_there fnum value (some part) = elim (get_field fnum part) [
  | none ↦ none
  | some f ↦ some (set_field fnum value part)
]

-- An `int` as a field prints it.
abbrev int_text : ℕ → Option Bytes
int_text n =
    if ltb n (2 ^ 31)
    then itoa n 10
    else elim (itoa (u32 - n) 10) [ none ↦ none | some digits ↦ some (b'-' ∷ digits) ]

-- The two fields of the header that are set after the decoding.
unfoldable pub set_header : ℕ → Bytes → Message → Option Message
set_header mlen mtype m = elim (int_text mlen) [
  | none ↦ none
  | some len ↦ elim (set_there common_MsgType mtype (set_there common_BodyLength len m.header)) [
    | none ↦ none
    | some header ↦ some (record m { header = some header })
  ]
]

-- After the checks of the end: the field that they set.
unfoldable pub finish : Trailer → Bool → Message → Made
finish fix.Message.Factory.undefined no_chksum m = broken
finish invalid_message no_chksum m = invalid
finish (bad_check_sum mchkval) no_chksum m = elim (set_there common_CheckSum [] m.trailer) [
  | none ↦ broken
  | some t ↦ wrong_check_sum mchkval
]
finish (accepted chksum) no_chksum m =
    if no_chksum then made m else elim (set_there common_CheckSum chksum m.trailer) [
      | none ↦ broken
      | some trailer ↦ made (record m { trailer = some trailer })
    ]

-- `find_ptr` is the search of `_bme` for a message type.
unfoldable pub factory : ℕ → Schema → (Bytes → Option MessageClass) → Bytes → Bool → Bool → Made
unfolding c_str extract_header decode_message set_header finish fast_atoi check_trailer
factory fuel s find_ptr from no_chksum permissive_mode =
    elim (extract_header s.max_fld_length from) [
      | none ↦ broken
      | some h ↦ if h.offset == 0 then invalid else elim (fast_atoi u32 0 (h.len ++ 0 ∷ [])) [
        | none ↦ broken
        | some mlen ↦ elim (find_ptr (c_str h.mtype)) [
          | none ↦ invalid
          | some c ↦ elim (decode_message fuel s c from h.offset 7 permissive_mode) [
            | threw e ↦ refused e
            | undefined ↦ broken
            | out_of_fuel ↦ unfinished
            | decoded end ↦ elim (set_header mlen (c_str h.mtype) end.0) [
              | none ↦ broken
              | some m ↦ finish (check_trailer s.wide_chksum from no_chksum) no_chksum m
            ]
          ]
        ]
      ]
    ]
