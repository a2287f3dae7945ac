-- ===== src/Message/GroupEnds.antt =====
-- The decoding of a repeating group ends, where each group has a mandatory field.
use fix.Base.{
  ℕ, zero, suc, ◌+◌, ◌-◌, ◌*◌, ◌%◌, ◌≤◌, ◌<◌, ◌≡◌, ◌≢◌, ap, sym, ◌∙◌, Bool, Bytes, none, some, ltb,
  length, drop, arith, Bool-cases, Option-cases, inl, inr, dec_lt,
}
use fix.Codec.Decimal.{u16, u32}
use fix.Codec.Element.{Element}
use fix.Traits.Fields.{trait_mandatory, find_trait, find_missing}
use fix.Message.Tree.{GroupBase}
use fix.Message.Schema.{Schema, Decoded, Reading, read_message, add_message, find_group}
use fix.Message.Group.{
  extract, c_number, add_field, Step, next_element, end_of_repeats, added, group_field, group_step,
  new_element, decode_group, group_loop, element_loop,
}
use fix.Message.Outcome.{
  Ends, returns, throws, breaks, outcome, Ends-weaken, Within, extract-Ends, Any, c_number-Ends,
  NoneMissing, check_missing-Ends,
}

-- A field that a round adds is within the text and moves the offset on.
abbrev Moves : Bytes → Reading → Step → Type 0
Moves text r next_element = Unit
Moves text r end_of_repeats = Unit
Moves text r (added q nested) = (r.s_offset < length text) × (r.s_offset < q.s_offset)

group_field-Ends :
    (s : Schema) (text : Bytes) (number : ℕ) (e : Element) (r : Reading)
    → r.s_offset < length text
    → e.consumed ≢ 0
    → Ends (Moves text r) (group_field s number e r)
unfolding group_field add_field
group_field-Ends s text number e r within some_bytes =
    let tv = number % u16 in
    elim (Option-cases (s.find_be tv)) [
      | inl n ↦ ground (arith, n)
      | inr (create, n) ↦ elim (Option-cases (find_trait tv r.fp)) [
        | inl k ↦ ground (arith, n, k)
        | inr (t, k) ↦ ground (arith, n, k)
      ]
    ]

group_step-Ends :
    (s : Schema) (text : Bytes) (r : Reading) → Ends (Moves text r) (group_step s text r)
unfolding group_step
group_step-Ends s text r =
    let reads = extract s.max_fld_length (drop r.s_offset text) in
    elim (outcome (Within text r.s_offset) reads (extract-Ends s.max_fld_length text r.s_offset)) [
      | returns e is within ↦ elim (outcome Any (c_number u32 e.tag) (c_number-Ends u32 e.tag)) [
        | returns number read done ↦
            ground (arith, is, within, read, group_field-Ends s text number e r)
        | throws x read ↦ ground (arith, is, read)
        | breaks read ↦ ground (arith, is, read)
      ]
      | throws x is ↦ ground (arith, is)
      | breaks is ↦ ground (arith, is)
    ]

-- A loop that adds a field moves on; one that does not leaves the traits of its message.
abbrev ElementEnd : Reading → Reading × Bool → Type 0
ElementEnd r end = (r.s_offset ≤ end.0.s_offset) × (end.0.s_offset ≡ r.s_offset → end.0.fp ≡ r.fp)

abbrev pub GroupEnd : ℕ → GroupBase × ℕ → Type 0
GroupEnd s_offset end = s_offset ≤ end.1

-- Each class of groups has a mandatory field, which its new elements do not have yet.
abbrev pub HasMandatory : Schema → Type 0
HasMandatory s = (class : ℕ) → find_missing trait_mandatory (s.traits class) ≢ 0

group-moves :
    (s : Schema) (class s_offset : ℕ) (end : Reading × Bool)
    → HasMandatory s
    → s_offset ≤ end.0.s_offset
    → (end.0.s_offset ≡ s_offset → end.0.fp ≡ s.traits class)
    → find_missing trait_mandatory end.0.fp ≡ 0
    → s_offset < end.0.s_offset
group-moves s class s_offset end has le kept none_missing = elim (dec_lt s_offset end.0.s_offset) [
  | yes lt ↦ lt
  | no ge ↦
      let same = kept (omega (arith, le, ge)) in
      absurd (has class (ap (find_missing trait_mandatory) (sym same) ∙ none_missing))
]

abbrev pub Onward : Reading → Reading → Type 0
Onward r q = r.s_offset ≤ q.s_offset

pub decode_group-Ends :
    (s : Schema) (loop : ℕ → GroupBase → ℕ → Decoded (GroupBase × ℕ)) (class fnum : ℕ) (r : Reading)
    → ((c : ℕ) (g : GroupBase) → Ends (GroupEnd r.s_offset) (loop c g r.s_offset))
    → Ends (Onward r) (decode_group s loop class fnum r)
unfolding decode_group
decode_group-Ends s loop class fnum r loop_ends =
    elim (Option-cases (s.create_nested_group class fnum)) [
      | inl n ↦ ground (arith, n)
      | inr (c, n) ↦
          let g = find_group fnum r.repeats in
          elim (outcome (GroupEnd r.s_offset) (loop c g r.s_offset) (loop_ends c g)) [
            | throws x is ↦ ground (arith, n, is)
            | breaks is ↦ ground (arith, n, is)
            | returns end is le ↦ ground (arith, n, is, le)
          ]
    ]

ElementEnd-later :
    (r q : Reading) (end : Reading × Bool)
    → r.s_offset < q.s_offset
    → q.s_offset ≤ end.0.s_offset
    → ElementEnd r end
ElementEnd-later r q end lt le = (omega (arith, lt, le), λ e. absurd (omega (arith, lt, le, e)))

mutual
  unfolding group_loop

  pub group_loop-Ends :
      (fuel : ℕ) (s : Schema) (text : Bytes) (class : ℕ) (group : GroupBase) (s_offset : ℕ)
      → HasMandatory s
      → 2 * (length text - s_offset) + 2 ≤ fuel
      → Ends (GroupEnd s_offset) (group_loop fuel s text class group s_offset)
  group_loop-Ends zero s text class group s_offset has enough = absurd (omega (arith, enough))
  group_loop-Ends (suc fuel) s text class group s_offset has enough =
      let first = new_element s class s_offset in
      let run = element_loop fuel s text class first in
      elim (Bool-cases (ltb s_offset (length text))) [
        | inr c ↦ ground (arith, c)
        | inl c ↦
            let run_ends =
              element_loop-Ends fuel s text class first has (ground (arith, enough, c)) in
            elim (outcome (ElementEnd first) run run_ends) [
              | throws x is ↦ ground (arith, c, is)
              | breaks is ↦ ground (arith, c, is)
              | returns end is (le, kept) ↦
                  let whole = add_message (read_message end.0) group in
                  elim (outcome (NoneMissing end.0.fp) _ (check_missing-Ends s end.0.fp)) [
                    | throws x checked ↦ ground (arith, c, is, checked)
                    | breaks checked ↦ ground (arith, c, is, checked)
                    | returns u checked none_missing ↦
                        let moved = group-moves s class s_offset end has le kept none_missing in
                        let more =
                          group_loop-Ends fuel s text class whole end.0.s_offset has
                            (ground (arith, enough, c, moved)) in
                        let further =
                          Ends-weaken (GroupEnd end.0.s_offset) (GroupEnd s_offset) _
                            (λ a h. omega (arith, h, moved)) more in
                        elim (Bool-cases end.1) [
                          | inl ok ↦ ground (arith, c, is, checked, ok, further)
                          | inr ok ↦ ground (arith, c, is, checked, ok, le)
                        ]
                  ]
            ]
      ]

  element_loop-Ends :
      (fuel : ℕ) (s : Schema) (text : Bytes) (class : ℕ) (r : Reading)
      → HasMandatory s
      → 2 * (length text - r.s_offset) + 1 ≤ fuel
      → Ends (ElementEnd r) (element_loop fuel s text class r)
  element_loop-Ends zero s text class r has enough = absurd (omega (arith, enough))
  element_loop-Ends (suc fuel) s text class r has enough =
      elim (outcome (Moves text r) (group_step s text r) (group_step-Ends s text r)) [
        | throws x is ↦ ground (arith, is)
        | breaks is ↦ ground (arith, is)
        | returns next_element is moves ↦ ground (arith, is)
        | returns end_of_repeats is moves ↦ ground (arith, is)
        | returns (added q none) is (within, moves) ↦
            let more =
              element_loop-Ends fuel s text class q has (omega (arith, enough, within, moves)) in
            let further =
              Ends-weaken (ElementEnd q) (ElementEnd r) _ (λ a h. ElementEnd-later r q a moves h.0)
                more in
            ground (arith, is, further)
        | returns (added q (some fnum)) is (within, moves) ↦
            let loop : ℕ → GroupBase → ℕ → Decoded (GroupBase × ℕ) =
              λ c g n. group_loop fuel s text c g n in
            let group_ends = decode_group-Ends s loop class fnum q (λ c g.
              group_loop-Ends fuel s text c g q.s_offset has
                (omega (arith, enough, within, moves))) in
            elim (outcome (Onward q) (decode_group s loop class fnum q) group_ends) [
              | throws x nested ↦ ground (arith, is, nested)
              | breaks nested ↦ ground (arith, is, nested)
              | returns next nested onward ↦
                  let more =
                    element_loop-Ends fuel s text class next has
                      (omega (arith, enough, within, moves, onward)) in
                  let further =
                    Ends-weaken (ElementEnd next) (ElementEnd r) _
                      (λ a h. ElementEnd-later r next a (omega (arith, moves, onward)) h.0) more in
                  ground (arith, is, nested, further)
            ]
      ]
