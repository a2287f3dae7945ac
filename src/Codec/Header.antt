-- ===== src/Codec/Header.antt =====
-- `MessageBase::extract_header` and `extract_trailer` of runtime/message.cpp. A call returns its
-- count and what it left in the buffers of its arguments; `none` is a read in front of the text.
pub mod Laws
use fix.Base.{
  ℕ, zero, suc, ◌+◌, ◌-◌, Bytes, Bool, not, Option, none, some, [], ◌∷◌, ltb, ◌==◌, ◌||◌, ◌&&◌,
  if◌then◌else◌, length, take, drop,
}
use fix.Codec.Element.{Element, extract_element}

-- `*tag`, and `*(tag + 1)`: a C string ends in a zero.
abbrev pub char_at : ℕ → Bytes → ℕ
char_at zero [] = 0
char_at zero (c ∷ s) = c
char_at (suc i) [] = 0
char_at (suc i) (c ∷ s) = char_at i s

-- A `char` array as the C string in it.
unfoldable pub c_str : Bytes → Bytes
c_str [] = []
c_str (c ∷ s) = let rest = c_str s in if c == 0 then [] else c ∷ rest

pub record Header : Type 0 where
  pub offset : ℕ
  pub len : Bytes
  pub mtype : Bytes

-- The buffers are zeroed by the caller, `Message::factory`.
abbrev pub header : ℕ → Bytes → Bytes → Header
header offset len mtype = record { offset = offset; len = len; mtype = mtype }

-- MAX_MSGTYPE_FIELD_LEN, the size of the buffers for a tag, and for the length and the type.
abbrev pub max_msgtype : ℕ
max_msgtype = 32

-- The tag and the value fit buffers of `max_msgtype` and `val_sz` bytes, each with the zero behind it.
abbrev pub fits : ℕ → Element → Bool
fits val_sz e = ltb (length e.tag) max_msgtype && ltb (length e.val) val_sz

-- `none` is a write past a buffer; `max_fld_length` is FIX8_MAX_FLD_LENGTH.
unfoldable pub extract_header : ℕ → Bytes → Option Header
unfolding extract_element
extract_header max_fld_length from =
    let first = extract_element from in
    let second = extract_element (drop first.consumed from) in
    let third = extract_element (drop (first.consumed + second.consumed) from) in
    if not (fits max_fld_length first)
    then none
    else if first.consumed == 0
    then some (header 0 [] [])
    else if not (char_at 0 first.tag == b'8')
    then some (header 0 [] [])
    else if not (fits max_msgtype second)
    then none
    else if second.consumed == 0
    then some (header first.consumed second.val [])
    else if not (char_at 0 second.tag == b'9')
    then some (header 0 second.val [])
    else if not (fits max_msgtype third)
    then none
    else if third.consumed == 0
    then some (header (first.consumed + second.consumed) second.val third.val)
    else if not (char_at 0 third.tag == b'3') || not (char_at 1 third.tag == b'5')
    then some (header 0 second.val third.val)
    else some (header (first.consumed + second.consumed + third.consumed) second.val third.val)

-- The last seven bytes, less the final separator. A shorter text is read in front of its start.
unfoldable pub extract_trailer : Bytes → Option Element
unfolding extract_element
extract_trailer from =
    if ltb (length from) 7
    then none
    else some (extract_element (take 6 (drop (length from - 7) from)))
