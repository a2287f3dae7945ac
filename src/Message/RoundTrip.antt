-- ===== src/Message/RoundTrip.antt =====
-- `decode` against the fields of its text, and against `encode`, of runtime/message.cpp.
use mathlib.Core.Path.{subst}
use fix.Base.{
  ℕ, suc, ◌+◌, ◌-◌, ◌≡◌, ◌⊎◌, refl, ap, sym, ◌∙◌, Bool, false, Bytes, List, none, [], ◌∷◌, ◌++◌,
  length, take, length-append, take-append, append_assoc, arith, Option-cases, inl, inr, All,
}
use fix.Codec.Element.{Element, element}
use fix.Codec.Element.Laws.{field}
use fix.Traits.{FieldTrait}
use fix.Traits.Laws.{Rising}
use fix.Traits.Flags.{set-Rising, find_trait-set-none}
use fix.Traits.Fields.{trait_mandatory, trait_present, find_trait, set, find_missing}
use fix.Message.Tree.{Field, MessageBase, message_base, Groups}
use fix.Message.Schema.{Schema, Decoded, decoded, Reading, reading, read_message}
use fix.Message.Group.{extract, check_missing, decode_group, group_loop}
use fix.Message.Decode.{stop, unknown_element, decode_round, decode_loop, end_offset, decode}
use fix.Message.Items.{tag_of, size_of, wire, Fits, extract-field, c_number-tag_of, drop-at, inside}
use fix.Message.Parsed.{IsItem, Distinct, settle, decode_loop-items}
use fix.Message.Settled.{known_of, foreign_of, mark, Settled, settle-Settled}

mark-none :
    (j : ℕ) (ks : List Field) (fp : List FieldTrait)
    → Rising 0 fp
    → find_trait j fp ≡ none
    → find_trait j (mark ks fp) ≡ none
mark-none j [] fp rising e = e
mark-none j (k ∷ ks) fp rising e =
    mark-none j ks (set k.fnum trait_present fp) (set-Rising k.fnum trait_present fp rising)
      (find_trait-set-none j k.fnum trait_present fp rising e)

-- What stands behind the fields: nothing that is an element, or in the strict mode a field that the
-- message does not have.
abbrev pub Stops : Schema → Bool → List FieldTrait → Bytes → Type 0
Stops s permissive_mode fp rest =
    ((e : Element) × (extract s.max_fld_length rest ≡ decoded e) × (e.consumed ≡ 0))
    ⊎ ((permissive_mode ≡ false)
        × ((g : Field) × (more : Bytes) × (rest ≡ field (tag_of g) g.value more)
            × Fits s g
            × (find_trait g.fnum fp ≡ none)))

decode_round-Stops :
    (s : Schema) (nested : ℕ → Reading → Decoded Reading) (from before rest : Bytes)
    (permissive_mode : Bool) (q : Reading)
    → q.s_offset ≡ length before
    → Stops s permissive_mode q.fp rest
    → decode_round s nested from (before ++ rest) permissive_mode q ≡ decoded (stop q)
unfolding decode_round unknown_element
decode_round-Stops s nested from before rest permissive_mode q at (inl (e, fails, empty)) =
    ground
      (arith, inside q.s_offset before rest at, drop-at q.s_offset before rest at, fails, empty)
decode_round-Stops s nested from before rest permissive_mode q at
      (inr (mode, (g, more, is, fits, foreign))) =
    let here = extract-field s g more fits in
    let read : extract s.max_fld_length rest ≡ decoded (element (size_of g) (tag_of g) g.value) =
      ap (extract s.max_fld_length) is ∙ here in
    ground (
      arith,
      inside q.s_offset before rest at,
      drop-at q.s_offset before rest at,
      read,
      c_number-tag_of s g fits,
      foreign,
      mode,
    )

pub decode_loop-Stops :
    (fuel : ℕ) (s : Schema) (class : ℕ) (from text before rest : Bytes) (permissive_mode : Bool)
    (q : Reading)
    → text ≡ before ++ rest
    → q.s_offset ≡ length before
    → Stops s permissive_mode q.fp rest
    → decode_loop (suc fuel) s class from text permissive_mode q ≡ decoded q
unfolding decode_loop
decode_loop-Stops fuel s class from text before rest permissive_mode q split at stops =
    let nested : ℕ → Reading → Decoded Reading =
      decode_group s (λ c g n. group_loop fuel s text c g n) class in
    let round : decode_round s nested from text permissive_mode q ≡ decoded (stop q) =
      ap (λ b. decode_round s nested from b permissive_mode q) split
      ∙ decode_round-Stops s nested from before rest permissive_mode q at stops in
    ground (arith, round)

pub Stops-mark :
    (s : Schema) (permissive_mode : Bool) (ks : List Field) (fp : List FieldTrait) (rest : Bytes)
    → Rising 0 fp
    → Stops s permissive_mode fp rest
    → Stops s permissive_mode (mark ks fp) rest
Stops-mark s permissive_mode ks fp rest rising (inl stops) = inl stops
Stops-mark s permissive_mode ks fp rest rising (inr (mode, (g, more, is, fits, foreign))) =
    inr (mode, (g, more, is, fits, mark-none g.fnum ks fp rising foreign))

end_offset-strict :
    (permissive_mode : Bool) (q : Reading)
    → permissive_mode ≡ false
    → end_offset permissive_mode q ≡ q.s_offset
end_offset-strict permissive_mode q mode = elim (Option-cases q.last_valid) [
  | inl n ↦ ground (arith, n)
  | inr (at, n) ↦ ground (arith, n, mode)
]

pub take-front : (xs ys : Bytes) → take (length (xs ++ ys) - length ys) (xs ++ ys) ≡ xs
take-front xs ys =
    let front : length (xs ++ ys) - length ys ≡ length xs = omega (arith, length-append xs ys) in
    ap (λ n. take n (xs ++ ys)) front ∙ take-append xs ys

decode-loop :
    (fuel : ℕ) (s : Schema) (class : ℕ) (m : MessageBase) (text ignored : Bytes) (s_offset : ℕ)
    (permissive_mode : Bool) (q : Reading)
    → decode_loop fuel s class (text ++ ignored) text permissive_mode (reading m s_offset)
      ≡ decoded q
    → find_missing trait_mandatory q.fp ≡ 0
    → decode fuel s class m (text ++ ignored) s_offset (length ignored) permissive_mode
      ≡ decoded (read_message q, end_offset permissive_mode q)
unfolding decode check_missing
decode-loop fuel s class m text ignored s_offset permissive_mode q is complete =
    rw (decode, take-front text ignored) (ground (arith, is, complete, length-append text ignored))

Settled-read :
    (fs : List Field) (r q : Reading)
    → Settled fs r q
    → read_message q
      ≡ message_base
          (mark (known_of r.fp fs) r.fp)
          (r.fields ++ known_of r.fp fs)
          r.repeats
          (r.unknown ++ wire (foreign_of r.fp fs))
Settled-read fs r q h = rw (h.fp_is, h.fields_is, h.repeats_is, h.unknown_is) refl

-- The loop over the elements, to its end.
pub decode_loop-settles :
    (s : Schema) (class fuel : ℕ) (m : MessageBase) (before rest ignored : Bytes)
    (permissive_mode : Bool) (fs : List Field)
    → let r = reading m (length before) in
      Rising 0 r.fp
      → All (IsItem s permissive_mode r.fp) fs
      → Distinct fs
      → Stops s permissive_mode r.fp rest
      → decode_loop
          (length fs + suc fuel)
          s
          class
          ((before ++ (wire fs ++ rest)) ++ ignored)
          (before ++ (wire fs ++ rest))
          permissive_mode
          r
        ≡ decoded (settle fs r)
decode_loop-settles s class fuel (message_base fp pos repeats unknown) before rest ignored
      permissive_mode fs rising items distinct stops =
    let text = before ++ (wire fs ++ rest) in
    let r = reading (message_base fp pos repeats unknown) (length before) in
    let q = settle fs r in
    let settled = settle-Settled fs r rising distinct in
    let split : text ≡ (before ++ wire fs) ++ rest = sym (append_assoc before (wire fs) rest) in
    let at : q.s_offset ≡ length (before ++ wire fs) =
      settled.s_offset_is ∙ sym (length-append before (wire fs)) in
    let stops_there : Stops s permissive_mode q.fp rest =
      subst (λ p. Stops s permissive_mode p rest) (sym settled.fp_is)
        (Stops-mark s permissive_mode (known_of fp fs) fp rest rising stops) in
    decode_loop-items fs (suc fuel) s class before rest ignored text permissive_mode r refl refl
      rising items distinct
    ∙ decode_loop-Stops fuel s class (text ++ ignored) text (before ++ wire fs) rest permissive_mode
        q split at stops_there

pub decode-fields :
    (s : Schema) (class fuel : ℕ) (fp : List FieldTrait) (pos : List Field) (repeats : Groups)
    (unknown before rest ignored : Bytes) (permissive_mode : Bool) (fs : List Field)
    → Rising 0 fp
    → All (IsItem s permissive_mode fp) fs
    → Distinct fs
    → Stops s permissive_mode fp rest
    → find_missing trait_mandatory (mark (known_of fp fs) fp) ≡ 0
    → let whole =
        message_base
          (mark (known_of fp fs) fp)
          (pos ++ known_of fp fs)
          repeats
          (unknown ++ wire (foreign_of fp fs)) in
      (offset : ℕ) × (decode
          (length fs + suc fuel)
          s
          class
          (message_base fp pos repeats unknown)
          ((before ++ (wire fs ++ rest)) ++ ignored)
          (length before)
          (length ignored)
          permissive_mode
        ≡ decoded (whole, offset))
      × (permissive_mode ≡ false → offset ≡ length before + length (wire fs))
decode-fields s class fuel fp pos repeats unknown before rest ignored permissive_mode fs rising
      items distinct stops complete =
    let text = before ++ (wire fs ++ rest) in
    let m = message_base fp pos repeats unknown in
    let r = reading m (length before) in
    let q = settle fs r in
    let settled = settle-Settled fs r rising distinct in
    let loop =
      decode_loop-settles s class fuel m before rest ignored permissive_mode fs rising items
        distinct stops in
    let full : find_missing trait_mandatory q.fp ≡ 0 =
      ap (find_missing trait_mandatory) settled.fp_is ∙ complete in
    (
      end_offset permissive_mode q,
      decode-loop (length fs + suc fuel) s class m text ignored (length before) permissive_mode q
            loop full
          ∙ ap (λ n. decoded (n, end_offset permissive_mode q)) (Settled-read fs r q settled),
      λ mode. end_offset-strict permissive_mode q mode ∙ settled.s_offset_is,
    )
