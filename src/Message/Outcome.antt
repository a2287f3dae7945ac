-- ===== src/Message/Outcome.antt =====
-- How a call of the decoding of messages ends: without running out of fuel, and with what result.
use fix.Base.{
  ℕ, ◌<◌, ◌≡◌, ◌≢◌, refl, ap, Bytes, List, [], ◌∷◌, ◌++◌, length, drop, length-drop, length-append,
  arith, Option-cases, inl, inr,
}
use fix.Codec.Decimal.{fast_atoi}
use fix.Codec.Element.{Element, extract_element}
use fix.Codec.Element.Laws.{extract_element_sound}
use fix.Traits.{FieldTrait}
use fix.Traits.Fields.{trait_mandatory, find_missing}
use fix.Message.Schema.{Schema, DecodeError, Decoded, decoded, threw, undefined, out_of_fuel}
use fix.Message.Group.{extract, c_number, check_missing}

-- The call does not run out of fuel, and what it returns has the property.
abbrev pub Ends {ℓ} : {A : Type ℓ} → (A → Type 0) → Decoded A → Type 0
Ends P (decoded a) = P a
Ends P (threw e) = Unit
Ends P undefined = Unit
Ends P out_of_fuel = ⊥

-- How a call that ends may end.
pub data Outcome {ℓ} {A : Type ℓ} (P : A → Type 0) (m : Decoded A) : Type ℓ where
  returns : (a : A) → m ≡ decoded a → P a → Outcome P m
  throws : (e : DecodeError) → m ≡ threw e → Outcome P m
  breaks : m ≡ undefined → Outcome P m

pub outcome {ℓ} : {A : Type ℓ} (P : A → Type 0) (m : Decoded A) → Ends P m → Outcome P m
outcome P (decoded a) ends = returns a refl ends
outcome P (threw e) ends = throws e refl
outcome P undefined ends = breaks refl
outcome P out_of_fuel ends = elim ends [ ]

pub Ends-weaken {ℓ} :
    {A : Type ℓ} (P Q : A → Type 0) (m : Decoded A) → ((a : A) → P a → Q a) → Ends P m → Ends Q m
Ends-weaken P Q (decoded a) h ends = h a ends
Ends-weaken P Q (threw e) h ends = tt
Ends-weaken P Q undefined h ends = tt
Ends-weaken P Q out_of_fuel h ends = ends

extract-within :
    (text : Bytes) (n : ℕ) → (extract_element (drop n text)).consumed ≢ 0 → n < length text
extract-within text n ne =
    let (rest, split, tag_ok, val_ok, count) = extract_element_sound (drop n text) ne in
    let e = extract_element (drop n text) in
    let size = ap length split in
    let parts = length-append e.tag (b'=' ∷ (e.val ++ 1 ∷ rest)) in
    omega (arith, size, parts, length-drop n text)

abbrev pub Any : ℕ → Type 0
Any n = Unit

pub c_number-Ends : (m : ℕ) (s : Bytes) → Ends Any (c_number m s)
c_number-Ends m s = elim (Option-cases (fast_atoi m 0 (s ++ 0 ∷ []))) [
  | inl n ↦ ground (arith, n)
  | inr (k, n) ↦ ground (arith, n)
]

-- An element that is read lies within the text.
abbrev pub Within : Bytes → ℕ → Element → Type 0
Within text n e = e.consumed ≢ 0 → n < length text

pub extract-Ends :
    (max : ℕ) (text : Bytes) (n : ℕ) → Ends (Within text n) (extract max (drop n text))
unfolding extract
extract-Ends max text n = ground (arith, extract-within text n)

abbrev pub NoneMissing : List FieldTrait → Unit {0} → Type 0
NoneMissing fp u = find_missing trait_mandatory fp ≡ 0

pub check_missing-Ends :
    (s : Schema) (fp : List FieldTrait) → Ends (NoneMissing fp) (check_missing s fp)
unfolding check_missing
check_missing-Ends s fp = elim (Option-cases (s.find_be (find_missing trait_mandatory fp))) [
  | inl n ↦ ground (arith, n)
  | inr (create, n) ↦ ground (arith, n)
]
