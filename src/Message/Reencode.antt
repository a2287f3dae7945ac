-- ===== src/Message/Reencode.antt =====
-- A message that has been decoded, encoded again, of runtime/message.cpp.
use fix.Base.{
  ℕ, suc, ◌+◌, ◌<◌, ◌≡◌, refl, ap, sym, ◌∙◌, Bool, false, Bytes, List, some, [], ◌∷◌, ◌++◌, ◌&&◌,
  length, append-nil, arith, inl, inr, All, ℕ_discrete,
}
use mathlib.Core.Path.{subst}
use fix.Codec.Decimal.{u16}
use fix.Codec.Element.Laws.{field, field-append}
use fix.Traits.{FieldTrait}
use fix.Traits.Laws.{Rising}
use fix.Traits.Flags.{set-Rising, find_trait-set_other, find_trait-set_same, has_trait-with_bit}
use fix.Traits.Fields.{
  trait_mandatory, trait_present, trait_group, trait_suppress, has_trait, find_trait, set, get,
  find_missing, with_bit,
}
use fix.Message.Tree.{
  Field, MessageBase, message_base, Groups, encoded, encode, encode_field, encode_one,
  encode_fields, encode_groups, has_group_count,
}
use fix.Message.Schema.{Schema, decoded}
use fix.Message.Decode.{decode}
use fix.Message.Items.{tag_of, tag_of-reads, wire}
use fix.Message.Parsed.{IsItem, Distinct}
use fix.Message.Settled.{known_of, foreign_of, mark}
use fix.Message.RoundTrip.{Stops, decode-fields}

-- A field that `encode` writes, without a group behind it.
record Writes (fp : List FieldTrait) (f : Field) : Type 0 where
  trait : FieldTrait
  found : find_trait f.fnum fp ≡ some trait
  shown : has_trait trait_suppress trait ≡ false
  no_group : (has_trait trait_group trait && has_group_count f) ≡ false
  tag_fits : f.fnum < u16

Writes-set :
    (fp : List FieldTrait) (key : ℕ) (f : Field)
    → Rising 0 fp
    → Writes fp f
    → Writes (set key trait_present fp) f
Writes-set fp key f rising w = elim (ℕ_discrete f.fnum key) [
  | no ne ↦ record {
    trait = w.trait;
    found = find_trait-set_other f.fnum key trait_present fp rising ne ∙ w.found;
    shown = w.shown;
    no_group = w.no_group;
    tag_fits = w.tag_fits;
  }
  | yes same ↦ record {
    trait = with_bit trait_present w.trait;
    found =
        subst
          (λ k. find_trait f.fnum (set k trait_present fp) ≡ some (with_bit trait_present w.trait))
          same (find_trait-set_same f.fnum trait_present fp w.trait rising w.found);
    shown = has_trait-with_bit trait_suppress trait_present w.trait ∙ w.shown;
    no_group =
        ap (λ b. b && has_group_count f) (has_trait-with_bit trait_group trait_present w.trait)
        ∙ w.no_group;
    tag_fits = w.tag_fits;
  }
]

Writes-mark :
    (ks : List Field) (fp : List FieldTrait) (f : Field)
    → Rising 0 fp
    → Writes fp f
    → Writes (mark ks fp) f
Writes-mark [] fp f rising w = w
Writes-mark (k ∷ ks) fp f rising w =
    Writes-mark ks (set k.fnum trait_present fp) f (set-Rising k.fnum trait_present fp rising)
      (Writes-set fp k.fnum f rising w)

known_of-Writes :
    (s : Schema) (permissive_mode : Bool) (ks : List Field) (fp : List FieldTrait) (fs : List Field)
    → Rising 0 fp
    → All (IsItem s permissive_mode fp) fs
    → All (λ f. get f.fnum trait_suppress fp ≡ false) fs
    → All (Writes (mark ks fp)) (known_of fp fs)
unfolding get
known_of-Writes s permissive_mode ks fp [] rising items shown = tt
known_of-Writes s permissive_mode ks fp (f ∷ fs) rising ((fits, inl h), items) shown =
    let rest = known_of-Writes s permissive_mode ks fp fs rising items shown.1 in
    let seen : has_trait trait_suppress h.trait ≡ false = ground (arith, h.found, shown.0) in
    let first : Writes fp f = record {
      trait = h.trait;
      found = h.found;
      shown = seen;
      no_group = h.no_group;
      tag_fits = fits.tag_fits;
    } in
    let kept : known_of fp (f ∷ fs) ≡ f ∷ known_of fp fs = ground (arith, h.found) in
    subst (All (Writes (mark ks fp))) (sym kept) (Writes-mark ks fp f rising first, rest)
known_of-Writes s permissive_mode ks fp (f ∷ fs) rising ((fits, inr (mode, foreign)), items) shown =
    let rest = known_of-Writes s permissive_mode ks fp fs rising items shown.1 in
    let kept : known_of fp (f ∷ fs) ≡ known_of fp fs = ground (arith, foreign) in
    subst (All (Writes (mark ks fp))) (sym kept) rest

encode_field-tag_of :
    (f : Field) → f.fnum < u16 → encode_field f ≡ encoded (field (tag_of f) f.value [])
unfolding encode_field
encode_field-tag_of f h = let (tag_ok, back, printed) = tag_of-reads f h in ground (arith, printed)

encode_fields-wire :
    (fp : List FieldTrait) (repeats : Groups) (ks : List Field)
    → All (Writes fp) ks
    → encode_fields fp (encode_groups repeats) ks ≡ encoded (wire ks)
unfolding encode_fields encode_one
encode_fields-wire fp repeats [] w = refl
encode_fields-wire fp repeats (k ∷ ks) w = ground (
  arith,
  w.0.found,
  w.0.shown,
  w.0.no_group,
  encode_field-tag_of k w.0.tag_fits,
  encode_fields-wire fp repeats ks w.1,
  field-append (tag_of k) k.value [] (wire ks),
)

pub strict-known :
    (s : Schema) (permissive_mode : Bool) (fp : List FieldTrait) (fs : List Field)
    → permissive_mode ≡ false
    → All (IsItem s permissive_mode fp) fs
    → (known_of fp fs ≡ fs) × (foreign_of fp fs ≡ [])
strict-known s permissive_mode fp [] mode items = (refl, refl)
strict-known s permissive_mode fp (f ∷ fs) mode ((fits, inl h), items) =
    let (known, foreign) = strict-known s permissive_mode fp fs mode items in
    (ground (arith, h.found, known), ground (arith, h.found, foreign))
strict-known s permissive_mode fp (f ∷ fs) mode ((fits, inr (other, foreign)), items) =
    absurd (ground (arith, mode, other))

encode-whole :
    (fp : List FieldTrait) (ks : List Field) (repeats : Groups) (unknown : Bytes)
    → All (Writes fp) ks
    → encode (message_base fp ks repeats unknown) ≡ encoded (wire ks ++ unknown)
unfolding encode
encode-whole fp ks repeats unknown w = ground (arith, encode_fields-wire fp repeats ks w)

-- The conditions on each element: its tag is the number in decimal without zeros in front, and the
-- class of the schema makes of its text a field that prints that same text, as one of strings does; an
-- element like 34=0012, whose field prints 12, is left out, and so are groups and data fields.
-- A message without fields that decodes such a text, from an offset on, as `decode-fields` says, is
-- encoded again as its fields, in the order in which they came, and then the others, if none of the
-- fields is suppressed; in the strict mode these are the very bytes that were decoded.
pub encode-decode :
    (s : Schema) (class fuel : ℕ) (fp : List FieldTrait) (repeats : Groups)
    (before rest ignored : Bytes) (permissive_mode : Bool) (fs : List Field)
    → Rising 0 fp
    → All (IsItem s permissive_mode fp) fs
    → All (λ f. get f.fnum trait_suppress fp ≡ false) fs
    → Distinct fs
    → Stops s permissive_mode fp rest
    → find_missing trait_mandatory (mark (known_of fp fs) fp) ≡ 0
    → (m : MessageBase) × (offset : ℕ) × (decode
          (length fs + suc fuel)
          s
          class
          (message_base fp [] repeats [])
          ((before ++ (wire fs ++ rest)) ++ ignored)
          (length before)
          (length ignored)
          permissive_mode
        ≡ decoded (m, offset))
      × (encode m ≡ encoded (wire (known_of fp fs) ++ wire (foreign_of fp fs)))
      × (permissive_mode ≡ false → encode m ≡ encoded (wire fs))
encode-decode s class fuel fp repeats before rest ignored permissive_mode fs rising items shown
      distinct stops complete =
    let ks = known_of fp fs in
    let m = message_base (mark ks fp) ks repeats (wire (foreign_of fp fs)) in
    let (offset, is, at) =
      decode-fields s class fuel fp [] repeats [] before rest ignored permissive_mode fs rising
        items distinct stops complete in
    let again =
      encode-whole (mark ks fp) ks repeats (wire (foreign_of fp fs))
        (known_of-Writes s permissive_mode ks fp fs rising items shown) in
    (
      m,
      offset,
      is,
      again,
      λ mode.
          let (known, foreign) = strict-known s permissive_mode fp fs mode items in
          again
          ∙ ap (λ l. encoded (wire l ++ wire (foreign_of fp fs))) known
          ∙ ap (λ l. encoded (wire fs ++ wire l)) foreign
          ∙ ap encoded (append-nil (wire fs)),
    )
