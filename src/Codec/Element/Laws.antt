-- ===== src/Codec/Element/Laws.antt =====
-- What the extraction of an element accepts, and what it returns.
use mathlib.Core.Path.{ap₂}
use fix.Base.{
  ℕ, ◌+◌, ◌<◌, ◌≡◌, ◌≢◌, refl, ap, ◌∙◌, Bytes, true, [], ◌∷◌, ◌++◌, All, length, length-append,
  take-append, append_assoc, append-nil, arith, inl, inr, Bool-cases, ℕ_discrete,
}
use fix.Codec.Element.{
  soh, isdigit, element, get_value, get_tag, extract_element, fixed_width,
  extract_element_fixed_width,
}

abbrev pub IsTag : Bytes → Type 0
IsTag = All (λ c. isdigit c ≡ true)

abbrev pub IsValue : Bytes → Type 0
IsValue = All (λ c. c ≢ soh)

abbrev pub field : Bytes → Bytes → Bytes → Bytes
field tag val rest = tag ++ b'=' ∷ (val ++ soh ∷ rest)

pub field-append :
    (tag val rest more : Bytes) → field tag val rest ++ more ≡ field tag val (rest ++ more)
field-append tag val rest more =
    append_assoc tag (b'=' ∷ (val ++ soh ∷ rest)) more
    ∙ ap (λ b. tag ++ b'=' ∷ b) (append_assoc val (soh ∷ rest) more)

get_value_complete :
    (v rest : Bytes) (ii : ℕ) (tag val : Bytes)
    → IsValue v
    → get_value (v ++ soh ∷ rest) ii tag val ≡ element (ii + length v + 1) tag (val ++ v)
unfolding get_value
get_value_complete [] rest ii tag val h = rw append-nil (ground arith)
get_value_complete (c ∷ v) rest ii tag val h =
    ground
      (arith, get_value_complete v rest (ii + 1) tag (val ++ c ∷ []), append_assoc val (c ∷ []) v)

get_tag_complete :
    (t v rest : Bytes) (ii : ℕ) (tag : Bytes)
    → IsTag t
    → IsValue v
    → get_tag (field t v rest) ii tag ≡ element (ii + length t + 1 + length v + 1) (tag ++ t) v
unfolding get_tag isdigit
get_tag_complete [] v rest ii tag h k =
    ground (arith, get_value_complete v rest (ii + 1) tag [], append-nil tag)
get_tag_complete (c ∷ t) v rest ii tag h k =
    ground (arith, get_tag_complete t v rest (ii + 1) (tag ++ c ∷ []), append_assoc tag (c ∷ []) t)

get_value-splits :
    (from : Bytes) (ii : ℕ) (tag val : Bytes)
    → (get_value from ii tag val).consumed ≢ 0
    → (v rest : Bytes) × (from ≡ v ++ soh ∷ rest) × IsValue v
unfolding get_value
get_value-splits [] ii tag val h = absurd (h refl)
get_value-splits (c ∷ from) ii tag val h = elim (ℕ_discrete c soh) [
  | yes e ↦ ([], from, ap (λ b. b ∷ from) e, tt)
  | no ne ↦
      let (v, rest, split, ok) =
        get_value-splits from (ii + 1) tag (val ++ c ∷ []) (ground arith) in
      (c ∷ v, rest, ap (◌∷◌ c) split, (ne, ok))
]

get_tag-splits :
    (from : Bytes) (ii : ℕ) (tag : Bytes)
    → (get_tag from ii tag).consumed ≢ 0
    → (t v rest : Bytes) × (from ≡ field t v rest) × IsTag t × IsValue v
unfolding get_tag isdigit
get_tag-splits [] ii tag h = absurd (h refl)
get_tag-splits (c ∷ from) ii tag h = elim (Bool-cases (isdigit c)) [
  | inl digit ↦
      let (t, v, rest, split, t_ok, v_ok) =
        get_tag-splits from (ii + 1) (tag ++ c ∷ []) (ground arith) in
      (c ∷ t, v, rest, ap (◌∷◌ c) split, (digit, t_ok), v_ok)
  | inr other ↦
      let assigned : c ≡ b'=' = ground arith in
      let (v, rest, split, ok) = get_value-splits from (ii + 1) tag [] (ground arith) in
      ([], v, rest, ap₂ ◌∷◌ assigned split, tt, ok)
]

-- An element at the head of the buffer, digits `=` value SOH with no SOH in the value, is taken off
-- whole: the tag and the value are returned, and the bytes consumed are the element's.
pub extract_element_complete :
    (t v rest : Bytes)
    → IsTag t
    → IsValue v
    → extract_element (field t v rest) ≡ element (length t + length v + 2) t v
unfolding extract_element
extract_element_complete t v rest h k =
    get_tag_complete t v rest 0 [] h k ∙ ap (λ n. element n t v) (omega arith)

-- The call returns a non-zero count on nothing else: then the buffer is such an element and a rest,
-- the tag and the value are the element's and the count is its size.
pub extract_element_sound :
    (from : Bytes)
    → (extract_element from).consumed ≢ 0
    → (rest : Bytes) × (from ≡ field (extract_element from).tag (extract_element from).val rest)
      × IsTag (extract_element from).tag
      × IsValue (extract_element from).val
      × ((extract_element from).consumed
          ≡ length (extract_element from).tag + length (extract_element from).val + 2)
unfolding extract_element
extract_element_sound from h =
    let (t, v, rest, split, t_ok, v_ok) = get_tag-splits from 0 [] h in
    let exact : extract_element from ≡ element (length t + length v + 2) t v =
      ap extract_element split ∙ extract_element_complete t v rest t_ok v_ok in
    (rest, rw exact split, rw exact t_ok, rw exact v_ok, rw exact refl)

fixed_width_complete :
    (t v rest : Bytes) (ii : ℕ) (tag : Bytes)
    → IsTag t
    → fixed_width (t ++ b'=' ∷ (v ++ rest)) ii (length v) tag
      ≡ element (ii + length t + 1 + length v + 1) (tag ++ t) v
unfolding fixed_width isdigit
fixed_width_complete [] v rest ii tag h =
    ground (arith, length-append v rest, take-append v rest, append-nil tag)
fixed_width_complete (c ∷ t) v rest ii tag h =
    ground
      (arith, fixed_width_complete t v rest (ii + 1) (tag ++ c ∷ []), append_assoc tag (c ∷ []) t)

fixed_width-short :
    (t v : Bytes) (n ii : ℕ) (tag : Bytes)
    → IsTag t
    → length v < n
    → (fixed_width (t ++ b'=' ∷ v) ii n tag).consumed ≡ 0
unfolding fixed_width isdigit
fixed_width-short [] v n ii tag h k = ground arith
fixed_width-short (c ∷ t) v n ii tag h k =
    ground (arith, fixed_width-short t v n (ii + 1) (tag ++ c ∷ []))

-- The fixed-width form takes as many bytes for the value as it is told, separators included, and
-- counts one more for the byte behind them; a buffer that ends inside the value is refused.
pub extract_element_fixed_width-field :
    (t v rest : Bytes) (n : ℕ)
    → IsTag t
    → length v < n
    → (extract_element_fixed_width (t ++ b'=' ∷ (v ++ rest)) (length v)
        ≡ element (length t + length v + 2) t v)
      × ((extract_element_fixed_width (t ++ b'=' ∷ v) n).consumed ≡ 0)
unfolding extract_element_fixed_width
extract_element_fixed_width-field t v rest n h short = (
  fixed_width_complete t v rest 0 [] h ∙ ap (λ k. element k t v) (omega arith),
  fixed_width-short t v n 0 [] h short,
)
