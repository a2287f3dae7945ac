-- ===== src/Message/Ends.antt =====
-- The decoding of a message ends, where each group has a mandatory field; where a group has none, it
-- may not.
use fix.Base.{
  ℕ, zero, suc, ◌+◌, ◌-◌, ◌*◌, ◌≤◌, ◌<◌, ◌≡◌, ◌≢◌, refl, Bool, Bytes, List, [], ◌∷◌, ◌&&◌, length,
  take, drop, arith, Bool-cases, Option-cases, inl, inr, ℕ_discrete,
}
use fix.Codec.Decimal.{u16, u32}
use fix.Codec.Element.{Element, extract_element_fixed_width}
use fix.Traits.{FieldTrait}
use fix.Traits.Fields.{trait_mandatory, trait_group, has_trait, find_trait, find_missing}
use fix.Message.Tree.{MessageBase, GroupBase, has_group_count}
use fix.Message.Schema.{
  Schema, Decoded, decoded, out_of_fuel, ◌>>=◌, Reading, reading, read_message, add_message,
  advance,
}
use fix.Message.Group.{
  extract, c_number, check_missing, add_field, group_step, new_element, decode_group, group_loop,
}
use fix.Message.Decode.{
  Round, go_on, stop, unknown_element, add_decoded, data_after, decode_round, decode_loop, decode,
}
use fix.Message.Outcome.{
  Ends, returns, throws, breaks, outcome, Ends-weaken, Within, extract-Ends, Any, c_number-Ends,
  NoneMissing, check_missing-Ends,
}
use fix.Message.GroupEnds.{HasMandatory, Onward, decode_group-Ends, group_loop-Ends}

add_decoded-Ends :
    (s : Schema) (nested : ℕ → Reading → Decoded Reading) (tv : ℕ) (t : FieldTrait) (val : Bytes)
    (r : Reading)
    → ((q : Reading) → q.s_offset ≡ r.s_offset → Ends (Onward q) (nested tv q))
    → Ends (Onward r) (add_decoded s nested tv t val r)
unfolding add_decoded add_field
add_decoded-Ends s nested tv t val r nested_ends = elim (Option-cases (s.find_be tv)) [
  | inl n ↦ ground (arith, n)
  | inr (create, n) ↦
      let ends = nested_ends (add_field tv (create val) r) refl in
      elim (Bool-cases (has_trait trait_group t && has_group_count (create val))) [
        | inl c ↦ ground (arith, n, c, ends)
        | inr c ↦ ground (arith, n, c)
      ]
]

-- A round that goes on does not go back.
abbrev RoundOnward : Reading → Round → Type 0
RoundOnward r (go_on q) = Onward r q
RoundOnward r (stop q) = Unit

data_after-Ends :
    (s : Schema) (nested : ℕ → Reading → Decoded Reading) (from text : Bytes)
    (permissive_mode : Bool) (tv : ℕ) (t : FieldTrait) (val : Bytes) (r : Reading)
    → ((fnum : ℕ) (q : Reading) → r.s_offset ≤ q.s_offset → Ends (Onward q) (nested fnum q))
    → Ends (RoundOnward r) (data_after s nested from text permissive_mode tv t val r)
unfolding data_after unknown_element
data_after-Ends s nested from text permissive_mode tv t val r nested_ends =
    elim (outcome Any (c_number u32 val) (c_number-Ends u32 val)) [
      | throws x is ↦ ground (arith, is)
      | breaks is ↦ ground (arith, is)
      | returns val_sz is done ↦
          let e = extract_element_fixed_width (drop r.s_offset text) val_sz in
          elim (outcome Any (c_number u16 e.tag) (c_number-Ends u16 e.tag)) [
            | throws x read ↦ ground (arith, is, read)
            | breaks read ↦ ground (arith, is, read)
            | returns next read done ↦ elim (Option-cases (find_trait next r.fp)) [
              | inl n ↦ ground (arith, is, read, n)
              | inr (d, n) ↦
                  let q = advance e.consumed r in
                  let ends =
                    add_decoded-Ends s nested next d e.val q
                      (λ p same. nested_ends next p (omega (arith, same))) in
                  elim (outcome (Onward q) (add_decoded s nested next d e.val q) ends) [
                    | throws x more ↦ ground (arith, is, read, n, more)
                    | breaks more ↦ ground (arith, is, read, n, more)
                    | returns p more onward ↦ ground (arith, is, read, n, more, onward)
                  ]
            ]
          ]
    ]

-- A round of `decode` that goes on has read within the text and moved on.
abbrev RoundEnd : Bytes → Reading → Round → Type 0
RoundEnd text r (go_on q) = (r.s_offset < length text) × (r.s_offset < q.s_offset)
RoundEnd text r (stop q) = Unit

RoundOnward-moves :
    (text : Bytes) (r q : Reading) (round : Round)
    → r.s_offset < length text
    → r.s_offset < q.s_offset
    → RoundOnward q round
    → RoundEnd text r round
RoundOnward-moves text r q (go_on p) within lt h = (within, omega (arith, lt, h))
RoundOnward-moves text r q (stop p) within lt h = tt

-- The round for an element that has been read, of a field of the message.
known-Ends :
    (s : Schema) (nested : ℕ → Reading → Decoded Reading) (from text : Bytes)
    (permissive_mode : Bool) (tv : ℕ) (t : FieldTrait) (val : Bytes) (r q : Reading)
    → r.s_offset < length text
    → r.s_offset < q.s_offset
    → ((fnum : ℕ) (p : Reading) → r.s_offset < p.s_offset → Ends (Onward p) (nested fnum p))
    → Ends (RoundEnd text r) (
        add_decoded s nested tv t val q >>= λ next.
        data_after s nested from text permissive_mode tv t val next)
known-Ends s nested from text permissive_mode tv t val r q within lt nested_ends =
    let ends =
      add_decoded-Ends s nested tv t val q (λ p same. nested_ends tv p (omega (arith, lt, same))) in
    elim (outcome (Onward q) (add_decoded s nested tv t val q) ends) [
      | throws x is ↦ ground (arith, is)
      | breaks is ↦ ground (arith, is)
      | returns next is onward ↦
          let rest =
            data_after-Ends s nested from text permissive_mode tv t val next
              (λ fnum p le. nested_ends fnum p (omega (arith, lt, onward, le))) in
          let further =
            Ends-weaken (RoundOnward next) (RoundEnd text r) _
              (λ a h. RoundOnward-moves text r next a within (omega (arith, lt, onward)) h) rest in
          ground (arith, is, further)
    ]

decode_round-Ends :
    (s : Schema) (nested : ℕ → Reading → Decoded Reading) (from text : Bytes)
    (permissive_mode : Bool) (r : Reading)
    → ((fnum : ℕ) (p : Reading) → r.s_offset < p.s_offset → Ends (Onward p) (nested fnum p))
    → Ends (RoundEnd text r) (decode_round s nested from text permissive_mode r)
unfolding decode_round unknown_element
decode_round-Ends s nested from text permissive_mode r nested_ends =
    let reads = extract s.max_fld_length (drop r.s_offset text) in
    elim (outcome (Within text r.s_offset) reads (extract-Ends s.max_fld_length text r.s_offset)) [
      | throws x is ↦ ground (arith, is)
      | breaks is ↦ ground (arith, is)
      | returns e is within ↦ elim (ℕ_discrete e.consumed 0) [
        | yes gone ↦ ground (arith, is, gone)
        | no some_bytes ↦
            let q = advance e.consumed r in
            let inside = within some_bytes in
            elim (outcome Any (c_number u16 e.tag) (c_number-Ends u16 e.tag)) [
              | throws x read ↦ ground (arith, is, read)
              | breaks read ↦ ground (arith, is, read)
              | returns tv read done ↦ elim (Option-cases (find_trait tv r.fp)) [
                | inl n ↦ ground (arith, is, read, n, inside, some_bytes)
                | inr (t, n) ↦
                    let known =
                      known-Ends s nested from text permissive_mode tv t e.val r q inside
                        (omega (arith, some_bytes)) nested_ends in
                    ground (arith, is, read, n, inside, some_bytes, known)
              ]
            ]
      ]
    ]

decode_loop-Ends :
    (fuel : ℕ) (s : Schema) (class : ℕ) (from text : Bytes) (permissive_mode : Bool) (r : Reading)
    → HasMandatory s
    → 2 * (length text - r.s_offset) + 3 ≤ fuel
    → Ends (λ q. Unit {0}) (decode_loop fuel s class from text permissive_mode r)
unfolding decode_loop
decode_loop-Ends zero s class from text permissive_mode r has enough =
    absurd (omega (arith, enough))
decode_loop-Ends (suc fuel) s class from text permissive_mode r has enough =
    let loop : ℕ → GroupBase → ℕ → Decoded (GroupBase × ℕ) =
      λ c g n. group_loop fuel s text c g n in
    let nested = decode_group s loop class in
    let nested_ends : (fnum : ℕ) (p : Reading)
        → r.s_offset < p.s_offset
        → Ends (Onward p) (nested fnum p) =
      λ fnum p lt.
        decode_group-Ends s loop class fnum p
          (λ c g. group_loop-Ends fuel s text c g p.s_offset has (omega (arith, enough, lt))) in
    let ends = decode_round-Ends s nested from text permissive_mode r nested_ends in
    elim (outcome (RoundEnd text r) (decode_round s nested from text permissive_mode r) ends) [
      | throws x is ↦ ground (arith, is)
      | breaks is ↦ ground (arith, is)
      | returns (stop q) is moves ↦ ground (arith, is)
      | returns (go_on q) is (within, moves) ↦
          let more =
            decode_loop-Ends fuel s class from text permissive_mode q has
              (omega (arith, enough, within, moves)) in
          ground (arith, is, more)
    ]

length-take_le {ℓ} : {A : Type ℓ} (n : ℕ) (xs : List A) → length (take n xs) ≤ length xs
length-take_le zero xs = omega arith
length-take_le (suc n) [] = omega arith
length-take_le (suc n) (x ∷ xs) = omega (arith, length-take_le n xs)

-- Where each class of groups has a mandatory field that a new element does not have yet, `decode` of
-- any text comes to an end, however the text is formed: with a message, with an exception, or at a step
-- that the language leaves undefined, as a write past a buffer. Twice as many rounds as the text has
-- bytes, and three, are enough.
pub decode-total :
    (s : Schema) (class : ℕ) (m : MessageBase) (from : Bytes) (s_offset ignore fuel : ℕ)
    (permissive_mode : Bool)
    → HasMandatory s
    → 2 * length from + 3 ≤ fuel
    → decode fuel s class m from s_offset ignore permissive_mode ≢ out_of_fuel
unfolding decode
decode-total s class m from s_offset ignore fuel permissive_mode has enough e =
    let text = take (length from - ignore) from in
    let loop = decode_loop fuel s class from text permissive_mode (reading m s_offset) in
    let ends : Ends (λ q. Unit {0}) loop =
      decode_loop-Ends fuel s class from text permissive_mode (reading m s_offset) has
        (omega (arith, enough, length-take_le (length from - ignore) from)) in
    elim (outcome (λ q. Unit {0}) loop ends) [
      | throws x is ↦ ground (arith, e, is)
      | breaks is ↦ ground (arith, e, is)
      | returns r is done ↦
          elim (outcome (NoneMissing r.fp) (check_missing s r.fp) (check_missing-Ends s r.fp)) [
            | throws x checked ↦ ground (arith, e, is, checked)
            | breaks checked ↦ ground (arith, e, is, checked)
            | returns u checked none_missing ↦ ground (arith, e, is, checked)
          ]
    ]

-- But where a class of groups has no mandatory field, and at the offset where an element of such a
-- group is due the text goes on but no element can be extracted, the decoding of the group never
-- ends: no number of rounds is enough.
pub group_loop-endless :
    (fuel : ℕ) (s : Schema) (text : Bytes) (class : ℕ) (group : GroupBase) (s_offset : ℕ)
    (e : Element)
    → find_missing trait_mandatory (s.traits class) ≡ 0
    → s_offset < length text
    → extract s.max_fld_length (drop s_offset text) ≡ decoded e
    → e.consumed ≡ 0
    → group_loop fuel s text class group s_offset ≡ out_of_fuel
unfolding group_loop group_step check_missing
group_loop-endless zero s text class group s_offset e none_mandatory within fails empty = refl
group_loop-endless (suc zero) s text class group s_offset e none_mandatory within fails empty =
    ground (arith, within)
group_loop-endless (suc (suc fuel)) s text class group s_offset e none_mandatory within fails
      empty =
    let first = new_element s class s_offset in
    let again =
      group_loop-endless (suc fuel) s text class (add_message (read_message first) group) s_offset e
        none_mandatory within fails empty in
    ground (arith, within, fails, empty, none_mandatory, again)
