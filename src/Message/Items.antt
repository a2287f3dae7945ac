-- ===== src/Message/Items.antt =====
-- One element of a text as `decode` of runtime/message.cpp reads it: a field of the message, or one
-- that the message does not have.
use fix.Base.{
  ℕ, ◌+◌, ◌<◌, ◌≡◌, ap, sym, ◌∙◌, Bool, true, false, Bytes, List, none, some, [], ◌∷◌, ◌++◌, ltb,
  ◌==◌, ◌&&◌, length, take, drop, length-append, drop-append, take-append, append_assoc, arith, All,
}
use fix.Codec.Decimal.{u16, itoa, fast_atoi}
use fix.Codec.Decimal.RoundTrip.{fast_atoi-itoa, IsDigit}
use fix.Codec.Element.{element, isdigit}
use fix.Codec.Element.Laws.{IsTag, IsValue, field, field-append, extract_element_complete}
use fix.Traits.{FieldTrait}
use fix.Traits.Fields.{trait_present, trait_group, has_trait, find_trait}
use fix.Message.Tree.{Field, has_group_count}
use fix.Message.Schema.{Schema, Decoded, decoded, Reading, advance}
use fix.Message.Group.{extract, c_number, add_field}
use fix.Message.Decode.{ft_length, go_on, unknown_element, add_decoded, data_after, decode_round}

-- The text of a field, as `BaseField::encode` writes it.
unfoldable pub tag_of : Field → Bytes
tag_of f = elim (itoa f.fnum 10) [ none ↦ [] | some tag ↦ tag ]

abbrev pub size_of : Field → ℕ
size_of f = length (tag_of f) + length f.value + 2

abbrev pub wire : List Field → Bytes
wire [] = []
wire (f ∷ fs) = field (tag_of f) f.value (wire fs)

-- A field that goes through the buffers of `decode`.
pub record Fits (s : Schema) (f : Field) : Type 0 where
  pub tag_fits : f.fnum < u16
  pub tag_short : length (tag_of f) < s.max_fld_length
  pub val_ok : IsValue f.value
  pub val_short : length f.value < s.max_fld_length

-- A field that the message has, is not a group with elements nor the length of data, and is not
-- present yet, and that the generated code makes of its text.
pub record IsReadable (s : Schema) (fp : List FieldTrait) (f : Field) : Type 0 where
  pub create : Bytes → Field
  pub known : s.find_be f.fnum ≡ some create
  pub makes : create f.value ≡ f
  pub trait : FieldTrait
  pub found : find_trait f.fnum fp ≡ some trait
  pub absent : has_trait trait_present trait ≡ false
  pub no_group : (has_trait trait_group trait && has_group_count f) ≡ false
  pub no_length : (trait.ftype == ft_length) ≡ false

IsDigit-isdigit : (t : Bytes) → All IsDigit t → IsTag t
unfolding isdigit
IsDigit-isdigit [] h = tt
IsDigit-isdigit (c ∷ t) h = (ground (arith, h.0), IsDigit-isdigit t h.1)

pub tag_of-reads :
    (f : Field)
    → f.fnum < u16
    → IsTag (tag_of f)
      × (fast_atoi u16 0 (tag_of f ++ 0 ∷ []) ≡ some f.fnum)
      × (itoa f.fnum 10 ≡ some (tag_of f))
tag_of-reads f h =
    let (text, printed, digits, back) =
      fast_atoi-itoa u16 f.fnum [] (omega arith) (omega arith) h in
    let same : tag_of f ≡ text = unfold tag_of in ground (arith, printed) in
    rw same (IsDigit-isdigit text digits, back, printed)

-- What `decode` reads of such a field.
pub extract-field :
    (s : Schema) (f : Field) (rest : Bytes)
    → Fits s f
    → extract s.max_fld_length (field (tag_of f) f.value rest)
      ≡ decoded (element (size_of f) (tag_of f) f.value)
unfolding extract
extract-field s f rest fits =
    rw
      (extract_element_complete (tag_of f) f.value rest (tag_of-reads f fits.tag_fits).0
        fits.val_ok)
      (ground (arith, fits.tag_short, fits.val_short))

pub c_number-tag_of : (s : Schema) (f : Field) → Fits s f → c_number u16 (tag_of f) ≡ decoded f.fnum
c_number-tag_of s f fits =
    let (tag_ok, back, printed) = tag_of-reads f fits.tag_fits in ground (arith, back)

pub drop-at : (n : ℕ) (before rest : Bytes) → n ≡ length before → drop n (before ++ rest) ≡ rest
drop-at n before rest at = ap (λ k. drop k (before ++ rest)) at ∙ drop-append before rest

pub inside :
    (n : ℕ) (before rest : Bytes) → n ≡ length before → ltb (length (before ++ rest)) n ≡ false
inside n before rest at = ground (arith, at, length-append before rest)

-- The round of a field of the message adds it.
pub decode_round-known :
    (s : Schema) (nested : ℕ → Reading → Decoded Reading) (from before rest : Bytes)
    (permissive_mode : Bool) (f : Field) (r : Reading)
    → Fits s f
    → IsReadable s r.fp f
    → r.s_offset ≡ length before
    → decode_round s nested from (before ++ field (tag_of f) f.value rest) permissive_mode r
      ≡ decoded (go_on (add_field f.fnum f (advance (size_of f) r)))
unfolding decode_round data_after add_decoded
decode_round-known s nested from before rest permissive_mode f r fits readable at =
    let rest_text = field (tag_of f) f.value rest in
    ground (
      arith,
      inside r.s_offset before rest_text at,
      drop-at r.s_offset before rest_text at,
      extract-field s f rest fits,
      c_number-tag_of s f fits,
      readable.found,
      readable.absent,
      readable.known,
      readable.makes,
      readable.no_group,
      readable.no_length,
    )

pub length-field : (tag val : Bytes) → length (field tag val []) ≡ length tag + length val + 2
length-field tag val =
    length-append tag (b'=' ∷ (val ++ 1 ∷ [])) ∙ omega (arith, length-append val (1 ∷ []))

take-field :
    (tag val rest : Bytes)
    → take (length tag + length val + 2) (field tag val rest) ≡ field tag val []
take-field tag val rest =
    ap (take (length tag + length val + 2)) (sym (field-append tag val [] rest))
    ∙ ap (λ n. take n (field tag val [] ++ rest)) (sym (length-field tag val))
    ∙ take-append (field tag val []) rest

-- A field that the message does not have is kept as it came.
abbrev pub keep_unknown : Field → Reading → Reading
keep_unknown f r = record r {
  unknown = r.unknown ++ field (tag_of f) f.value [];
  s_offset = r.s_offset + size_of f;
  last_valid = elim r.last_valid [ none ↦ some (length r.fields, r.s_offset) | some at ↦ some at ];
}

pub decode_round-foreign :
    (s : Schema) (nested : ℕ → Reading → Decoded Reading) (before rest ignored : Bytes) (f : Field)
    (r : Reading)
    → Fits s f
    → find_trait f.fnum r.fp ≡ none
    → r.s_offset ≡ length before
    → let text = before ++ field (tag_of f) f.value rest in
      decode_round s nested (text ++ ignored) text true r ≡ decoded (go_on (keep_unknown f r))
unfolding decode_round unknown_element
decode_round-foreign s nested before rest ignored f r fits foreign at =
    let here = field (tag_of f) f.value rest in
    let behind : (before ++ here) ++ ignored ++ 0 ∷ []
        ≡ before ++ field (tag_of f) f.value (rest ++ (ignored ++ 0 ∷ [])) =
      ap (λ b. b ++ 0 ∷ []) (append_assoc before here ignored)
      ∙ append_assoc before (here ++ ignored) (0 ∷ [])
      ∙ ap (λ b. before ++ b)
          (append_assoc here ignored (0 ∷ [])
            ∙ field-append (tag_of f) f.value rest (ignored ++ 0 ∷ [])) in
    let kept : take (size_of f) (drop r.s_offset ((before ++ here) ++ ignored ++ 0 ∷ []))
        ≡ field (tag_of f) f.value [] =
      ap (λ b. take (size_of f) (drop r.s_offset b)) behind
      ∙ ap (take (size_of f)) (drop-at r.s_offset before _ at)
      ∙ take-field (tag_of f) f.value (rest ++ (ignored ++ 0 ∷ [])) in
    ground (
      arith,
      inside r.s_offset before here at,
      drop-at r.s_offset before here at,
      extract-field s f rest fits,
      c_number-tag_of s f fits,
      foreign,
      kept,
    )
