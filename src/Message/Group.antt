-- ===== src/Message/Group.antt =====
-- `MessageBase::decode_group` of runtime/message.cpp, and what it shares with `decode`. `text` is the
-- first `fsize` bytes of `from`. The loops run on fuel: each call passes on one less.
use fix.Base.{
  ℕ, zero, suc, ◌%◌, Bool, true, false, not, Bytes, List, Option, none, some, [], ◌∷◌, ◌++◌, ltb,
  leb, ◌==◌, ◌&&◌, ◌||◌, if◌then◌else◌, length, drop,
}
use fix.Codec.Decimal.{u16, u32, fast_atoi}
use fix.Codec.Element.{Element, extract_element}
use fix.Traits.{FieldTrait}
use fix.Traits.Fields.{
  trait_mandatory, trait_present, trait_group, has_trait, find_trait, get, get_pos, set,
  find_missing,
}
use fix.Message.Tree.{Field, GroupBase, no_groups, has_group_count}
use fix.Message.Schema.{
  Schema, missing_field, missing_repeating_group_field, Decoded, decoded, threw, undefined,
  out_of_fuel, ◌>>=◌, Reading, read_message, advance, find_group, put_group, add_message,
}

-- `extract_element` into the buffers of the call, which have `max` bytes each.
unfoldable pub extract : ℕ → Bytes → Decoded Element
unfolding extract_element
extract max text =
    let e = extract_element text in
    if leb max (length e.tag) || leb max (length e.val) then undefined else decoded e

-- `fast_atoi` of a C string, at an unsigned type with `m` values.
abbrev pub c_number : ℕ → Bytes → Decoded ℕ
c_number m s = elim (fast_atoi m 0 (s ++ 0 ∷ [])) [ none ↦ undefined | some n ↦ decoded n ]

-- The test for missing fields behind the loops; the message of the exception reads the name of the
-- field.
unfoldable pub check_missing : Schema → List FieldTrait → Decoded {0} Unit
unfolding find_missing
check_missing s fp =
    let missing = find_missing trait_mandatory fp in
    if missing == 0
    then decoded tt
    else elim (s.find_be missing) [ none ↦ undefined | some create ↦ threw (missing_field missing) ]

-- The field in the message, and its trait `present`.
unfoldable pub add_field : ℕ → Field → Reading → Reading
unfolding set
add_field tv bf r = record r { fp = set tv trait_present r.fp; fields = r.fields ++ bf ∷ [] }

-- How a round of the inner loop of `decode_group` ends: with the element, with the group, or with a
-- field more, and the number of the nested group that follows it if one does.
pub data Step : Type 0 where
  next_element : Step
  end_of_repeats : Step
  added : Reading → Option ℕ → Step

-- The round for an element that has been read.
unfoldable pub group_field : Schema → ℕ → Element → Reading → Decoded Step
unfolding add_field get get_pos has_trait
group_field s number e r =
    let tv = number % u16 in
    if get tv trait_present r.fp
    then decoded next_element
    else if length r.fields == 0 && not (get_pos tv r.fp == 1)
    then threw (missing_repeating_group_field number)
    else elim (s.find_be tv) [
      | none ↦ decoded end_of_repeats
      | some create ↦ elim (find_trait tv r.fp) [
        | none ↦ decoded end_of_repeats
        | some t ↦
            let bf = create e.val in
            decoded (
              added (add_field tv bf (advance e.consumed r))
                (if has_trait trait_group t && has_group_count bf then some tv else none))
      ]
    ]

unfoldable pub group_step : Schema → Bytes → Reading → Decoded Step
unfolding extract group_field fast_atoi
group_step s text r =
    if not (ltb r.s_offset (length text))
    then decoded next_element
    else (extract s.max_fld_length (drop r.s_offset text) >>= λ e.
        if e.consumed == 0
        then decoded next_element
        else (c_number u32 e.tag >>= λ number. group_field s number e r))

-- `create_group(false)`: a message without fields.
abbrev pub new_element : Schema → ℕ → ℕ → Reading
new_element s class s_offset = record {
  fp = s.traits class;
  fields = [];
  repeats = no_groups;
  unknown = [];
  s_offset = s_offset;
  last_valid = none;
}

-- `find_add_group`, and the loop of `decode_group` over the group. A group that is there is of the
-- class that `create_nested_group` makes.
unfoldable pub decode_group :
    Schema → (ℕ → GroupBase → ℕ → Decoded (GroupBase × ℕ)) → ℕ → ℕ → Reading → Decoded Reading
unfolding find_group put_group
decode_group s loop class fnum r = elim (s.create_nested_group class fnum) [
  | none ↦ undefined
  | some nested ↦ loop nested (find_group fnum r.repeats) r.s_offset >>= λ end.
      decoded (record r { repeats = put_group fnum end.0 r.repeats; s_offset = end.1 })
]

unfoldable mutual
  unfolding group_step decode_group check_missing add_message

  -- The outer loop.
  pub group_loop : ℕ → Schema → Bytes → ℕ → GroupBase → ℕ → Decoded (GroupBase × ℕ)
  group_loop zero s text class group s_offset = out_of_fuel
  group_loop (suc fuel) s text class group s_offset = elim (ltb s_offset (length text)) [
    | false ↦ decoded (group, s_offset)
    | true ↦ element_loop fuel s text class (new_element s class s_offset) >>= λ end.
        check_missing s end.0.fp >>= λ checked.
        let whole = add_message (read_message end.0) group in
        elim end.1 [
          | false ↦ decoded (whole, end.0.s_offset)
          | true ↦ group_loop fuel s text class whole end.0.s_offset
        ]
  ]

  -- The inner loop: the element, and `ok`. A group in an element is made by the group that the
  -- element is in.
  pub element_loop : ℕ → Schema → Bytes → ℕ → Reading → Decoded (Reading × Bool)
  element_loop zero s text class r = out_of_fuel
  element_loop (suc fuel) s text class r = group_step s text r >>= λ step. elim step [
    | next_element ↦ decoded (r, true)
    | end_of_repeats ↦ decoded (r, false)
    | added q nested ↦ elim nested [
      | none ↦ element_loop fuel s text class q
      | some fnum ↦ decode_group s (λ c g n. group_loop fuel s text c g n) class fnum q >>= λ next.
          element_loop fuel s text class next
    ]
  ]
