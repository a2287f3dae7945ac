-- ===== src/Codec/Element.antt =====
-- `MessageBase::extract_element` and `extract_element_fixed_width` of include/fix8/message.hpp.
-- `from` is the `sz` bytes that the call may read. The two overloads of `extract_element` leave the
-- same tag and value, as a C string or an `f8String`, on failure too: what was collected so far.
pub mod Laws
use fix.Base.{
  ℕ, zero, suc, ◌+◌, ◌-◌, Bytes, Bool, not, [], ◌∷◌, ◌++◌, ltb, leb, ◌==◌, ◌&&◌, ◌||◌,
  if◌then◌else◌, length, take, drop,
}

abbrev pub soh : ℕ
soh = 1

unfoldable pub isdigit : ℕ → Bool
isdigit c = leb b'0' c && leb c b'9'

-- `consumed` is what the call returns.
pub record Element : Type 0 where
  pub consumed : ℕ
  pub tag : Bytes
  pub val : Bytes

abbrev pub element : ℕ → Bytes → Bytes → Element
element n tag val = record { consumed = n; tag = tag; val = val }

-- The loop in state `get_value` at index `ii`.
unfoldable pub get_value : Bytes → ℕ → Bytes → Bytes → Element
get_value [] ii tag val = element 0 tag val
get_value (c ∷ from) ii tag val =
    let more = get_value from (ii + 1) tag (val ++ c ∷ []) in
    if c == soh then element (ii + 1) tag val else more

-- The loop in state `get_tag`.
unfoldable pub get_tag : Bytes → ℕ → Bytes → Element
unfolding get_value isdigit
get_tag [] ii tag = element 0 tag []
get_tag (c ∷ from) ii tag =
    let digit = get_tag from (ii + 1) (tag ++ c ∷ []) in
    if not (isdigit c)
    then (if not (c == b'=') then element 0 tag [] else get_value from (ii + 1) tag [])
    else digit

unfoldable pub extract_element : Bytes → Element
unfolding get_tag
extract_element from = get_tag from 0 []

-- The loop of `extract_element_fixed_width`; `from` is the unread part of the `sz` bytes. A failure
-- writes its zeros behind the tag read so far. `sz < ii + val_sz` is asked after `ii++`.
unfoldable pub fixed_width : Bytes → ℕ → ℕ → Bytes → Element
unfolding isdigit
fixed_width [] ii val_sz tag = element 0 tag []
fixed_width (c ∷ from) ii val_sz tag =
    let digit = fixed_width from (ii + 1) val_sz (tag ++ c ∷ []) in
    if isdigit c
    then digit
    else if not (c == b'=') || ltb (length from) val_sz
    then element 0 tag []
    else element (ii + 1 + val_sz + 1) tag (take val_sz from)

unfoldable pub extract_element_fixed_width : Bytes → ℕ → Element
unfolding fixed_width
extract_element_fixed_width from val_sz = fixed_width from 0 val_sz []
