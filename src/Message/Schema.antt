-- ===== src/Message/Schema.antt =====
-- What the decoding of messages asks of the code that the compiler writes for a schema, and what it
-- comes to: `MessageBase::decode` and `decode_group` of runtime/message.cpp throw exceptions.
use fix.Base.{ℕ, Bool, ◌+◌, Bytes, List, Option, none, if◌then◌else◌, ltb, ◌==◌}
use fix.Traits.{FieldTrait}
use fix.Message.Tree.{
  Field, MessageBase, message_base, Groups, no_groups, group_at, GroupBase, no_messages,
  message_then,
}

-- `F8MetaCntx`, as far as decoding reads it. `find_be` has the call that makes a field of its text.
-- The classes of messages and groups are numbers: `traits` has the traits of the elements that
-- `create_group` makes, and `create_nested_group` is `none` for a null pointer. `max_fld_length` is
-- FIX8_MAX_FLD_LENGTH, which is not 0, and `wide_chksum` says which body of `calc_chksum` the build has.
pub record Schema : Type 0 where
  pub find_be : ℕ → Option (Bytes → Field)
  pub traits : ℕ → List FieldTrait
  pub create_nested_group : ℕ → ℕ → Option ℕ
  pub max_fld_length : ℕ
  pub wide_chksum : Bool

pub data DecodeError : Type 0 where
  duplicate_field : ℕ → DecodeError
  unknown_field : ℕ → DecodeError
  missing_field : ℕ → DecodeError
  missing_fixed_width : DecodeError
  value_too_large : DecodeError
  missing_repeating_group_field : ℕ → DecodeError

-- `undefined` is a write behind a buffer or a read through a null pointer.
pub data Decoded {ℓ} (A : Type ℓ) : Type ℓ where
  decoded : A → Decoded A
  threw : DecodeError → Decoded A
  undefined : Decoded A
  out_of_fuel : Decoded A

infixl 5 ◌>>=◌
abbrev pub ◌>>=◌ {ℓ κ} : {A : Type ℓ} {B : Type κ} → Decoded A → (A → Decoded B) → Decoded B
decoded a >>= next = next a
threw e >>= next = threw e
undefined >>= next = undefined
out_of_fuel >>= next = out_of_fuel

-- A message while it is decoded, `_pos` as the fields in the order of their positions, with the
-- offset that is read at. `last_valid` is the two variables of that name of `decode`: none where
-- the position is `npos`.
pub record Reading : Type 0 where
  pub fp : List FieldTrait
  pub fields : List Field
  pub repeats : Groups
  pub unknown : Bytes
  pub s_offset : ℕ
  pub last_valid : Option (ℕ × ℕ)

abbrev pub reading : MessageBase → ℕ → Reading
reading (message_base fp pos repeats unknown) s_offset = record {
  fp = fp;
  fields = pos;
  repeats = repeats;
  unknown = unknown;
  s_offset = s_offset;
  last_valid = none;
}

abbrev pub read_message : Reading → MessageBase
read_message r = message_base r.fp r.fields r.repeats r.unknown

abbrev pub advance : ℕ → Reading → Reading
advance n r = record r { s_offset = r.s_offset + n }

-- `_groups.find` and `insert`, into a map in the order of its keys. A new group is empty.
unfoldable pub find_group : ℕ → Groups → GroupBase
find_group fnum no_groups = no_messages
find_group fnum (group_at key group repeats) =
    let rest = find_group fnum repeats in if key == fnum then group else rest

unfoldable pub put_group : ℕ → GroupBase → Groups → Groups
put_group fnum group no_groups = group_at fnum group no_groups
put_group fnum group (group_at key other repeats) =
    let rest = put_group fnum group repeats in
    if key == fnum
    then group_at key group repeats
    else if ltb fnum key
    then group_at fnum group (group_at key other repeats)
    else group_at key other rest

-- `operator<<` of a group.
unfoldable pub add_message : MessageBase → GroupBase → GroupBase
add_message m no_messages = message_then m no_messages
add_message m (message_then first group) = message_then first (add_message m group)
