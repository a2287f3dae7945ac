-- ===== src/Message/Tree.antt =====
-- `MessageBase`, `GroupBase` and their encoding, of include/fix8/message.hpp and runtime/message.cpp,
-- with `BaseField::encode` of include/fix8/field.hpp.
use fix.Base.{
  ℕ, ◌^◌, Bool, not, Bytes, List, some, none, [], ◌∷◌, ◌++◌, ltb, ◌==◌, ◌&&◌, if◌then◌else◌,
}
use fix.Codec.Decimal.{itoa}
use fix.Codec.Element.{soh}
use fix.Traits.{FieldTrait}
use fix.Traits.Fields.{has_trait, find_trait, trait_group, trait_suppress}

-- A field: what its `print` writes, and the number that `has_group_count` reads it as.
pub record Field : Type 0 where
  pub fnum : ℕ
  pub value : Bytes
  pub count : ℕ

-- `MessageBase`: `_fp`, the fields of `_pos` in the order of their positions, `_groups` and `_unknown`;
-- and `GroupBase`, the messages of a repeating group.
mutual
  pub data MessageBase : Type 0 where
    message_base : List FieldTrait → List Field → Groups → Bytes → MessageBase

  pub data Groups : Type 0 where
    no_groups : Groups
    group_at : ℕ → GroupBase → Groups → Groups

  pub data GroupBase : Type 0 where
    no_messages : GroupBase
    message_then : MessageBase → GroupBase → GroupBase

-- What an encoding comes to. `undefined` is a trait that is read behind the end of the set.
pub data Encoded : Type 0 where
  encoded : Bytes → Encoded
  invalid_repeating_group : ℕ → Encoded
  missing_message_component : Encoded
  missing_mandatory_field : ℕ → Encoded
  undefined : Encoded

infixl 5 ◌>>=◌
abbrev pub ◌>>=◌ : Encoded → (Bytes → Encoded) → Encoded
encoded b >>= next = next b
invalid_repeating_group fnum >>= next = invalid_repeating_group fnum
missing_message_component >>= next = missing_message_component
missing_mandatory_field fnum >>= next = missing_mandatory_field fnum
undefined >>= next = undefined

-- `BaseField::encode`; 32 rounds of `itoa` are enough for a tag.
unfoldable pub encode_field : Field → Encoded
encode_field f = elim (itoa f.fnum 10) [
  | none ↦ undefined
  | some tag ↦ encoded (tag ++ b'=' ∷ (f.value ++ soh ∷ []))
]

-- The value is an `int`.
abbrev pub has_group_count : Field → Bool
has_group_count f = not (f.count == 0) && ltb f.count (2 ^ 31)

-- `encode_group`, of the groups with their encodings.
unfoldable pub encode_group : ℕ → List (ℕ × Encoded) → Encoded
encode_group fnum [] = invalid_repeating_group fnum
encode_group fnum ((key, text) ∷ groups) =
    let rest = encode_group fnum groups in if key == fnum then text else rest

-- One round of the loop of `encode`.
unfoldable pub encode_one : List FieldTrait → List (ℕ × Encoded) → Field → Encoded
unfolding has_trait encode_field encode_group
encode_one fp groups f = elim (find_trait f.fnum fp) [
  | none ↦ (encode_field f >>= λ text. undefined)
  | some t ↦
      if has_trait trait_suppress t
      then encoded []
      else if has_trait trait_group t && has_group_count f
      then (encode_field f >>= λ text.
          encode_group f.fnum groups >>= λ more. encoded (text ++ more))
      else encode_field f
]

unfoldable pub encode_fields : List FieldTrait → List (ℕ × Encoded) → List Field → Encoded
unfolding encode_one
encode_fields fp groups [] = encoded []
encode_fields fp groups (f ∷ fs) =
    let rest = encode_fields fp groups fs in
    encode_one fp groups f >>= λ text. rest >>= λ more. encoded (text ++ more)

unfoldable mutual
  unfolding encode_fields

  -- `MessageBase::encode`.
  pub encode : MessageBase → Encoded
  encode (message_base fp pos groups unknown) =
      encode_fields fp (encode_groups groups) pos >>= λ text. encoded (text ++ unknown)

  pub encode_groups : Groups → List (ℕ × Encoded)
  encode_groups no_groups = []
  encode_groups (group_at fnum group groups) = (fnum, encode_messages group) ∷ encode_groups groups

  -- The loop of `encode_group` over the messages of one group.
  pub encode_messages : GroupBase → Encoded
  encode_messages no_messages = encoded []
  encode_messages (message_then m group) =
      encode m >>= λ text. encode_messages group >>= λ more. encoded (text ++ more)
