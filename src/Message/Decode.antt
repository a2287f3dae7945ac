-- ===== src/Message/Decode.antt =====
-- `MessageBase::decode` of runtime/message.cpp. `text` is the first `fsize` bytes of `from`; the loop
-- and those of the groups share their fuel.
use fix.Base.{
  ℕ, zero, suc, ◌+◌, ◌-◌, Bool, true, false, not, Bytes, none, some, [], ◌∷◌, ◌++◌, ltb, leb, ◌==◌,
  ◌&&◌, ◌||◌, if◌then◌else◌, length, take, drop,
}
use fix.Codec.Decimal.{u16, u32, fast_atoi}
use fix.Codec.Element.{extract_element_fixed_width}
use fix.Traits.{FieldTrait}
use fix.Traits.Fields.{trait_present, trait_group, trait_automatic, has_trait, find_trait}
use fix.Message.Tree.{MessageBase, has_group_count}
use fix.Message.Schema.{
  Schema, duplicate_field, unknown_field, missing_fixed_width, value_too_large, Decoded, decoded,
  threw, undefined, out_of_fuel, ◌>>=◌, Reading, reading, read_message, advance,
}
use fix.Message.Group.{extract, c_number, check_missing, add_field, decode_group, group_loop}

-- FieldTrait::ft_Length and ft_data.
abbrev pub ft_length : ℕ
ft_length = 2

abbrev pub ft_data : ℕ
ft_data = 28

abbrev pub common_body_length : ℕ
common_body_length = 9

-- How a round of the loop of `decode` ends.
pub data Round : Type 0 where
  go_on : Reading → Round
  stop : Reading → Round

-- The label `unknown_field`, for an element of `result` bytes. What `append` takes may end with the
-- zero behind the text.
unfoldable pub unknown_element : Bytes → Bool → ℕ → Reading → Round
unknown_element from permissive_mode result r =
    if permissive_mode
    then go_on (record r {
      unknown = r.unknown ++ take result (drop r.s_offset (from ++ 0 ∷ []));
      s_offset = r.s_offset + result;
      last_valid = elim r.last_valid [
        | none ↦ some (length r.fields, r.s_offset)
        | some at ↦ some at
      ];
    })
    else stop r

-- The round of the inner loop for a field whose element has been read, up to its group. `nested` is
-- the decoding of a group of the message.
unfoldable pub add_decoded :
    Schema → (ℕ → Reading → Decoded Reading) → ℕ → FieldTrait → Bytes → Reading → Decoded Reading
unfolding add_field has_trait
add_decoded s nested tv t val r = elim (s.find_be tv) [
  | none ↦ threw (unknown_field tv)
  | some create ↦
      let bf = create val in
      let q = add_field tv bf r in
      elim (has_trait trait_group t && has_group_count bf) [
        | true ↦ nested tv q
        | false ↦ decoded q
      ]
]

-- The rest of that round: after a field that holds a length, the data of that length.
unfoldable pub data_after :
    Schema
    → (ℕ → Reading → Decoded Reading)
    → Bytes
    → Bytes
    → Bool
    → ℕ
    → FieldTrait
    → Bytes
    → Reading
    → Decoded Round
unfolding add_decoded unknown_element fast_atoi extract_element_fixed_width
data_after s nested from text permissive_mode tv t val r =
    if not (t.ftype == ft_length) || tv == common_body_length
    then decoded (go_on r)
    else (c_number u32 val >>= λ val_sz.
        let e = extract_element_fixed_width (drop r.s_offset text) val_sz in
        if ltb (s.max_fld_length - 1) val_sz
        then threw value_too_large
        else if leb s.max_fld_length (length e.tag)
        then undefined
        else if e.consumed == 0
        then threw missing_fixed_width
        else (c_number u16 e.tag >>= λ next. elim (find_trait next r.fp) [
          | none ↦ decoded (unknown_element from permissive_mode e.consumed r)
          | some d ↦
              if not (d.ftype == ft_data) || not (tv + 1 == next)
              then decoded (go_on r)
              else (add_decoded s nested next d e.val (advance e.consumed r) >>= λ q.
                  decoded (go_on q))
        ]))

unfoldable pub decode_round :
    Schema → (ℕ → Reading → Decoded Reading) → Bytes → Bytes → Bool → Reading → Decoded Round
unfolding extract add_decoded data_after unknown_element fast_atoi has_trait
decode_round s nested from text permissive_mode r =
    if ltb (length text) r.s_offset
    then decoded (stop r)
    else (extract s.max_fld_length (drop r.s_offset text) >>= λ e.
        if e.consumed == 0
        then decoded (stop r)
        else (c_number u16 e.tag >>= λ tv. elim (find_trait tv r.fp) [
          | none ↦ decoded (unknown_element from permissive_mode e.consumed r)
          | some t ↦
              let q = advance e.consumed r in
              if has_trait trait_present t
              then (if has_trait trait_automatic t
                  then decoded (go_on q)
                  else threw (duplicate_field tv))
              else (add_decoded s nested tv t e.val q >>= λ next.
                  data_after s nested from text permissive_mode tv t e.val next)
        ]))

unfoldable pub decode_loop : ℕ → Schema → ℕ → Bytes → Bytes → Bool → Reading → Decoded Reading
unfolding decode_round decode_group group_loop
decode_loop zero s class from text permissive_mode r = out_of_fuel
decode_loop (suc fuel) s class from text permissive_mode r =
    decode_round s (decode_group s (λ c g n. group_loop fuel s text c g n) class) from text
      permissive_mode r
    >>= λ round. elim round [
      | go_on q ↦ decode_loop fuel s class from text permissive_mode q
      | stop q ↦ decoded q
    ]

-- The offset that `decode` returns.
abbrev pub end_offset : Bool → Reading → ℕ
end_offset permissive_mode r = elim r.last_valid [
  | none ↦ r.s_offset
  | some at ↦ if permissive_mode && at.0 == length r.fields then at.1 else r.s_offset
]

-- A message of the class `class`. Where more bytes are ignored than there are, `fsize` wraps.
unfoldable pub decode :
    ℕ → Schema → ℕ → MessageBase → Bytes → ℕ → ℕ → Bool → Decoded (MessageBase × ℕ)
unfolding decode_loop check_missing
decode fuel s class m from s_offset ignore permissive_mode =
    let text = take (length from - ignore) from in
    if ltb (length from) ignore
    then undefined
    else (decode_loop fuel s class from text permissive_mode (reading m s_offset) >>= λ r.
        check_missing s r.fp >>= λ checked. decoded (read_message r, end_offset permissive_mode r))
