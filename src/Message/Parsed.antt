-- ===== src/Message/Parsed.antt =====
-- What `decode` of runtime/message.cpp makes of a text of fields.
use mathlib.Core.Path.{subst}
use native.Mathlib.Nat.{suc-add}
use fix.Base.{
  ℕ, suc, ◌+◌, ◌≡◌, ◌≢◌, ◌⊎◌, ap, sym, ◌∙◌, Bool, true, Bytes, List, none, [], ◌∷◌, ◌++◌,
  if◌then◌else◌, length, length-append, append_assoc, arith, Bool-cases, inl, inr, All,
}
use fix.Codec.Element.Laws.{field, field-append}
use fix.Traits.{FieldTrait}
use fix.Traits.Laws.{Rising}
use fix.Traits.Flags.{set-Rising, find_trait-set_other}
use fix.Traits.Fields.{trait_present, find_trait, has, set}
use fix.Message.Tree.{Field}
use fix.Message.Schema.{Schema, Decoded, decoded, Reading, advance}
use fix.Message.Group.{add_field, decode_group, group_loop}
use fix.Message.Decode.{go_on, decode_round, decode_loop}
use fix.Message.Items.{
  tag_of, size_of, wire, Fits, IsReadable, decode_round-known, keep_unknown, decode_round-foreign,
  length-field,
}

-- An element that `decode` takes: a field of the message, or in the permissive mode another one.
abbrev pub IsItem : Schema → Bool → List FieldTrait → Field → Type 0
IsItem s permissive_mode fp f =
    Fits s f × (IsReadable s fp f ⊎ ((permissive_mode ≡ true) × (find_trait f.fnum fp ≡ none)))

abbrev pub Distinct : List Field → Type 0
Distinct [] = Unit
Distinct (f ∷ fs) = All (λ g. g.fnum ≢ f.fnum) fs × Distinct fs

-- What the elements do to a reading.
unfoldable pub settle : List Field → Reading → Reading
unfolding add_field
settle [] r = r
settle (f ∷ fs) r =
    settle fs
      (if has f.fnum r.fp then add_field f.fnum f (advance (size_of f) r) else keep_unknown f r)

IsReadable-set :
    (s : Schema) (fp : List FieldTrait) (key : ℕ) (f : Field)
    → Rising 0 fp
    → f.fnum ≢ key
    → IsReadable s fp f
    → IsReadable s (set key trait_present fp) f
IsReadable-set s fp key f rising ne h = record {
  create = h.create;
  known = h.known;
  makes = h.makes;
  trait = h.trait;
  found = find_trait-set_other f.fnum key trait_present fp rising ne ∙ h.found;
  absent = h.absent;
  no_group = h.no_group;
  no_length = h.no_length;
}

IsItem-set :
    (s : Schema) (permissive_mode : Bool) (fp : List FieldTrait) (key : ℕ) (f : Field)
    → Rising 0 fp
    → f.fnum ≢ key
    → IsItem s permissive_mode fp f
    → IsItem s permissive_mode (set key trait_present fp) f
IsItem-set s permissive_mode fp key f rising ne (fits, inl h) =
    (fits, inl (IsReadable-set s fp key f rising ne h))
IsItem-set s permissive_mode fp key f rising ne (fits, inr (mode, foreign)) =
    (fits, inr (mode, find_trait-set_other f.fnum key trait_present fp rising ne ∙ foreign))

All-set :
    (s : Schema) (permissive_mode : Bool) (fp : List FieldTrait) (key : ℕ) (fs : List Field)
    → Rising 0 fp
    → All (λ f. f.fnum ≢ key) fs
    → All (IsItem s permissive_mode fp) fs
    → All (IsItem s permissive_mode (set key trait_present fp)) fs
All-set s permissive_mode fp key [] rising apart items = tt
All-set s permissive_mode fp key (f ∷ fs) rising apart items = (
  IsItem-set s permissive_mode fp key f rising apart.0 items.0,
  All-set s permissive_mode fp key fs rising apart.1 items.1,
)

-- One element.
decode_round-item :
    (s : Schema) (nested : ℕ → Reading → Decoded Reading) (before rest ignored : Bytes)
    (permissive_mode : Bool) (f : Field) (r : Reading)
    → IsItem s permissive_mode r.fp f
    → r.s_offset ≡ length before
    → let text = before ++ field (tag_of f) f.value rest in
      decode_round s nested (text ++ ignored) text permissive_mode r
      ≡ decoded (
          go_on (
            if has f.fnum r.fp
            then add_field f.fnum f (advance (size_of f) r)
            else keep_unknown f r))
decode_round-item s nested before rest ignored permissive_mode f r (fits, inl h) at =
    let is =
      decode_round-known s nested (before ++ field (tag_of f) f.value rest ++ ignored) before rest
        permissive_mode f r fits h at in
    ground (arith, is, h.found)
decode_round-item s nested before rest ignored permissive_mode f r (fits, inr (mode, foreign)) at =
    let is = decode_round-foreign s nested before rest ignored f r fits foreign at in
    ground (arith, is, foreign, mode)

pub settle-step :
    (f : Field) (r : Reading)
    → let q =
        if has f.fnum r.fp then add_field f.fnum f (advance (size_of f) r) else keep_unknown f r in
      q.s_offset ≡ r.s_offset + size_of f
unfolding add_field
settle-step f r = elim (Bool-cases (has f.fnum r.fp)) [
  | inl c ↦ ground (arith, c)
  | inr c ↦ ground (arith, c)
]

settle-keeps :
    (s : Schema) (permissive_mode : Bool) (f : Field) (fs : List Field) (r : Reading)
    → Rising 0 r.fp
    → All (λ g. g.fnum ≢ f.fnum) fs
    → All (IsItem s permissive_mode r.fp) fs
    → let q =
        if has f.fnum r.fp then add_field f.fnum f (advance (size_of f) r) else keep_unknown f r in
      Rising 0 q.fp × All (IsItem s permissive_mode q.fp) fs
unfolding add_field
settle-keeps s permissive_mode f fs r rising apart items = elim (Bool-cases (has f.fnum r.fp)) [
  | inl c ↦ rw c (
    set-Rising f.fnum trait_present r.fp rising,
    All-set s permissive_mode r.fp f.fnum fs rising apart items,
  )
  | inr c ↦ rw c (rising, items)
]

decode_loop-step :
    (fuel : ℕ) (s : Schema) (class : ℕ) (from text : Bytes) (permissive_mode : Bool) (r q : Reading)
    → decode_round s
        (decode_group s (λ c g n. group_loop fuel s text c g n) class)
        from
        text
        permissive_mode
        r
      ≡ decoded (go_on q)
    → decode_loop (suc fuel) s class from text permissive_mode r
      ≡ decode_loop fuel s class from text permissive_mode q
unfolding decode_loop
decode_loop-step fuel s class from text permissive_mode r q is = ground (arith, is)

pub decode_loop-items :
    (fs : List Field) (fuel : ℕ) (s : Schema) (class : ℕ) (before rest ignored text : Bytes)
    (permissive_mode : Bool) (r : Reading)
    → text ≡ before ++ (wire fs ++ rest)
    → r.s_offset ≡ length before
    → Rising 0 r.fp
    → All (IsItem s permissive_mode r.fp) fs
    → Distinct fs
    → decode_loop (length fs + fuel) s class (text ++ ignored) text permissive_mode r
      ≡ decode_loop fuel s class (text ++ ignored) text permissive_mode (settle fs r)
unfolding settle
decode_loop-items [] fuel s class before rest ignored text permissive_mode r split at rising items
      distinct =
    ground arith
decode_loop-items (f ∷ fs) fuel s class before rest ignored text permissive_mode r split at rising
      items distinct =
    let q =
      if has f.fnum r.fp then add_field f.fnum f (advance (size_of f) r) else keep_unknown f r in
    let here : text ≡ before ++ field (tag_of f) f.value (wire fs ++ rest) =
      split ∙ ap (λ b. before ++ b) (field-append (tag_of f) f.value (wire fs) rest) in
    let next : text ≡ (before ++ field (tag_of f) f.value []) ++ (wire fs ++ rest) =
      here
      ∙ ap (λ b. before ++ b) (sym (field-append (tag_of f) f.value [] (wire fs ++ rest)))
      ∙ sym (append_assoc before (field (tag_of f) f.value []) (wire fs ++ rest)) in
    let nested : ℕ → Reading → Decoded Reading =
      decode_group s (λ c g n. group_loop (length fs + fuel) s text c g n) class in
    let round : decode_round s nested (text ++ ignored) text permissive_mode r ≡ decoded (go_on q) =
      subst (λ b. decode_round s nested (b ++ ignored) b permissive_mode r ≡ decoded (go_on q))
        (sym here)
        (decode_round-item s nested before (wire fs ++ rest) ignored permissive_mode f r items.0
          at) in
    let (rising_on, items_on) = settle-keeps s permissive_mode f fs r rising distinct.0 items.1 in
    let more =
      decode_loop-items fs fuel s class (before ++ field (tag_of f) f.value []) rest ignored text
        permissive_mode q next
        (settle-step f r
          ∙ omega (
            arith,
            at,
            length-append before (field (tag_of f) f.value []),
            length-field (tag_of f) f.value,
          ))
        rising_on items_on distinct.1 in
    ap (λ n. decode_loop n s class (text ++ ignored) text permissive_mode r)
      (suc-add (length fs) fuel)
    ∙ decode_loop-step (length fs + fuel) s class (text ++ ignored) text permissive_mode r q round
    ∙ more
