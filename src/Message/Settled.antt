-- ===== src/Message/Settled.antt =====
-- The elements of a text and what they leave of a message, for `decode` of runtime/message.cpp.
use fix.Base.{
  ℕ, ◌+◌, ◌≡◌, ◌≢◌, refl, ap, sym, ◌∙◌, true, false, Bytes, List, [], ◌∷◌, ◌++◌, if◌then◌else◌,
  length, length-append, append_assoc, append-nil, arith, Bool-cases, inl, inr, All, is_some,
}
use fix.Codec.Element.Laws.{field, field-append}
use fix.Traits.{FieldTrait}
use fix.Traits.Laws.{Rising}
use fix.Traits.Flags.{set-Rising, find_trait-set_other}
use fix.Traits.Fields.{trait_present, has, set}
use fix.Message.Tree.{Field}
use fix.Message.Schema.{Reading, advance}
use fix.Message.Group.{add_field}
use fix.Message.Items.{tag_of, size_of, wire, keep_unknown}
use fix.Message.Parsed.{Distinct, settle}

-- The fields of the message among those of a text, and the others.
abbrev pub known_of : List FieldTrait → List Field → List Field
known_of fp [] = []
known_of fp (f ∷ fs) = let rest = known_of fp fs in if has f.fnum fp then f ∷ rest else rest

abbrev pub foreign_of : List FieldTrait → List Field → List Field
foreign_of fp [] = []
foreign_of fp (f ∷ fs) = let rest = foreign_of fp fs in if has f.fnum fp then rest else f ∷ rest

-- The traits after these fields.
abbrev pub mark : List Field → List FieldTrait → List FieldTrait
mark [] fp = fp
mark (f ∷ fs) fp = mark fs (set f.fnum trait_present fp)

known_of-set :
    (fp : List FieldTrait) (key : ℕ) (fs : List Field)
    → Rising 0 fp
    → All (λ f. f.fnum ≢ key) fs
    → (known_of (set key trait_present fp) fs ≡ known_of fp fs)
      × (foreign_of (set key trait_present fp) fs ≡ foreign_of fp fs)
known_of-set fp key [] rising apart = (refl, refl)
known_of-set fp key (f ∷ fs) rising apart =
    let (same, others) = known_of-set fp key fs rising apart.1 in
    let found : has f.fnum (set key trait_present fp) ≡ has f.fnum fp =
      ap is_some (find_trait-set_other f.fnum key trait_present fp rising apart.0) in
    (ground (arith, found, same), ground (arith, found, others))

-- What is left of a reading by the elements of a text.
pub record Settled (fs : List Field) (r q : Reading) : Type 0 where
  pub fp_is : q.fp ≡ mark (known_of r.fp fs) r.fp
  pub fields_is : q.fields ≡ r.fields ++ known_of r.fp fs
  pub repeats_is : q.repeats ≡ r.repeats
  pub unknown_is : q.unknown ≡ r.unknown ++ wire (foreign_of r.fp fs)
  pub s_offset_is : q.s_offset ≡ r.s_offset + length (wire fs)

pub length-field_more :
    (tag val rest : Bytes) → length (field tag val rest) ≡ length tag + length val + 2 + length rest
length-field_more tag val rest =
    length-append tag (b'=' ∷ (val ++ 1 ∷ rest)) ∙ omega (arith, length-append val (1 ∷ rest))

Settled-known :
    (f : Field) (fs : List Field) (r q : Reading)
    → Rising 0 r.fp
    → Distinct (f ∷ fs)
    → has f.fnum r.fp ≡ true
    → Settled fs (add_field f.fnum f (advance (size_of f) r)) q
    → Settled (f ∷ fs) r q
unfolding add_field
Settled-known f fs r q rising distinct c rest =
    let (same, others) = known_of-set r.fp f.fnum fs rising distinct.0 in
    let marked = set f.fnum trait_present r.fp in
    let known : known_of r.fp (f ∷ fs) ≡ f ∷ known_of marked fs = ground (arith, c, same) in
    let foreign : foreign_of r.fp (f ∷ fs) ≡ foreign_of marked fs = ground (arith, c, others) in
    record {
      fp_is = rest.fp_is ∙ ap (λ ks. mark ks r.fp) (sym known);
      fields_is =
          rest.fields_is
          ∙ append_assoc r.fields (f ∷ []) (known_of marked fs)
          ∙ ap (λ ks. r.fields ++ ks) (sym known);
      repeats_is = rest.repeats_is;
      unknown_is = rest.unknown_is ∙ ap (λ ks. r.unknown ++ wire ks) (sym foreign);
      s_offset_is =
          rest.s_offset_is ∙ omega (arith, length-field_more (tag_of f) f.value (wire fs));
    }

Settled-foreign :
    (f : Field) (fs : List Field) (r q : Reading)
    → has f.fnum r.fp ≡ false
    → Settled fs (keep_unknown f r) q
    → Settled (f ∷ fs) r q
Settled-foreign f fs r q c rest =
    let known : known_of r.fp (f ∷ fs) ≡ known_of r.fp fs = ground (arith, c) in
    let foreign : foreign_of r.fp (f ∷ fs) ≡ f ∷ foreign_of r.fp fs = ground (arith, c) in
    record {
      fp_is = rest.fp_is ∙ ap (λ ks. mark ks r.fp) (sym known);
      fields_is = rest.fields_is ∙ ap (λ ks. r.fields ++ ks) (sym known);
      repeats_is = rest.repeats_is;
      unknown_is =
          rest.unknown_is
          ∙ append_assoc r.unknown (field (tag_of f) f.value []) (wire (foreign_of r.fp fs))
          ∙ ap (λ b. r.unknown ++ b)
              (field-append (tag_of f) f.value [] (wire (foreign_of r.fp fs)))
          ∙ ap (λ ks. r.unknown ++ wire ks) (sym foreign);
      s_offset_is =
          rest.s_offset_is ∙ omega (arith, length-field_more (tag_of f) f.value (wire fs));
    }

pub settle-Settled :
    (fs : List Field) (r : Reading) → Rising 0 r.fp → Distinct fs → Settled fs r (settle fs r)
unfolding settle add_field
settle-Settled [] r rising distinct = record {
  fp_is = refl;
  fields_is = sym (append-nil r.fields);
  repeats_is = refl;
  unknown_is = sym (append-nil r.unknown);
  s_offset_is = omega arith;
}
settle-Settled (f ∷ fs) r rising distinct = elim (Bool-cases (has f.fnum r.fp)) [
  | inl c ↦
      let q = add_field f.fnum f (advance (size_of f) r) in
      let rest = settle-Settled fs q (set-Rising f.fnum trait_present r.fp rising) distinct.1 in
      rw c (Settled-known f fs r (settle fs q) rising distinct c rest)
  | inr c ↦
      let q = keep_unknown f r in
      rw c (Settled-foreign f fs r (settle fs q) c (settle-Settled fs q rising distinct.1))
]
