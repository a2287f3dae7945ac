-- ===== src/Message/Framed.antt =====
-- An encoded message is one that the peer's reader frames, with the checksum of its bytes.
use fix.Base.{
  Bool, true, false, ℕ, ◌+◌, ◌-◌, ◌<◌, ◌≤◌, ◌≡◌, refl, ap, ◌∙◌, sym, Bytes, Option, some, none,
  false, ltb, [], ◌∷◌, ◌++◌, length, take, drop, length-append, take-append, drop-append,
  length-drop, append_assoc, append-nil, arith, codes,
}
use fix.Codec.Decimal.{itoa}
use fix.Codec.Element.{soh}
use fix.Codec.Element.Laws.{field, field-append}
use fix.Codec.Checksum.{
  Sums, add_word, word, word_loop, calc_chksum, calc_chksum_wide, compiled_chksum, fmt_chksum,
}
use fix.Message.Tree.{Field, encoded, encode_field, ◌>>=◌}
use fix.Message.Encode.{
  digits, write_over, with_value, number_text, preamble_sz, encode_around, common_BeginString,
  common_BodyLength, common_CheckSum,
}

-- The fields in front, the text and the checksum's field.
abbrev pub layout : Bytes → Bytes → Bytes → Bytes → Bytes
layout begin_str len text chksum =
    field (codes "8") begin_str (field (codes "9") len (text ++ field (codes "10") chksum []))

encode_field-tag :
    (f : Field) (tag : Bytes)
    → itoa f.fnum 10 ≡ some tag
    → encode_field f ≡ encoded (field tag f.value [])
unfolding encode_field
encode_field-tag f tag e = rw (encode_field, e) refl

tags :
    (itoa 8 10 ≡ some (codes "8"))
    × (itoa 9 10 ≡ some (codes "9"))
    × (itoa 10 10 ≡ some (codes "10"))
unfolding itoa
tags = (refl, refl, refl)

drop-all : (s : Bytes) → drop (length s) s ≡ []
drop-all [] = refl
drop-all (c ∷ s) = drop-all s

-- Where the head has the expected size, it fills the bytes in front of the text.
write_over-head :
    (head before text : Bytes)
    → length head ≤ length before
    → write_over head (drop (length before - length head) before ++ text) ≡ head ++ text
write_over-head head before text h =
    let there = drop (length before - length head) before in
    let size : length head ≡ length there =
      omega (arith, length-drop (length before - length head) before, h) in
    ap (λ n. head ++ drop n (there ++ text)) size ∙ ap (λ b. head ++ b) (drop-append there text)

take-whole :
    (head text : Bytes) (n : ℕ)
    → length head ≡ n
    → take (n + length text) (head ++ text) ≡ head ++ text
take-whole head text n h =
    ap (λ k. take k (head ++ text)) (omega (arith, length-append head text, h))
    ∙ ap (take (length (head ++ text))) (sym (append-nil (head ++ text)))
    ∙ take-append (head ++ text) []

-- The two fields in front of a text.
abbrev pub front : Bytes → Bytes → Bytes
front begin_str len = field (codes "8") begin_str [] ++ field (codes "9") len []

pub front-append :
    (begin_str len more : Bytes)
    → front begin_str len ++ more ≡ field (codes "8") begin_str (field (codes "9") len more)
front-append begin_str len more =
    append_assoc (field (codes "8") begin_str []) (field (codes "9") len []) more
    ∙ field-append (codes "8") begin_str [] (field (codes "9") len [] ++ more)
    ∙ ap (field (codes "8") begin_str) (field-append (codes "9") len [] more)

length-front :
    (begin_str len : Bytes) (n : ℕ)
    → length len ≡ digits n
    → length (front begin_str len) ≡ preamble_sz begin_str + digits n
length-front begin_str len n h = omega (
  arith,
  h,
  length-append begin_str (soh ∷ b'9' ∷ b'=' ∷ (len ++ soh ∷ [])),
  length-append len (soh ∷ []),
  length-append begin_str (soh ∷ []),
  ap length (append_assoc begin_str (soh ∷ []) (field (codes "9") len [])),
)

-- What the checksum is taken of, and its digits.
abbrev pub chksum_of : Bool → Bytes → Option Bytes
chksum_of wide whole = fmt_chksum (compiled_chksum wide whole (length whole) 0 none)

pub ltb-false : (a b : ℕ) → b ≤ a → ltb a b ≡ false
ltb-false a b h = ground arith

-- The steps of the encoding, put together.
pub encode_around-steps :
    (wide : Bool) (begin_str before text len chksum : Bytes) (bs bl cs : Field)
    → (bs.fnum ≡ common_BeginString) × (bl.fnum ≡ common_BodyLength) × (cs.fnum ≡ common_CheckSum)
    → bs.value ≡ begin_str
    → itoa (length text) 10 ≡ some len
    → length len ≡ digits (length text)
    → preamble_sz begin_str + digits (length text) ≤ length before
    → chksum_of wide (front begin_str len ++ text) ≡ some chksum
    → encode_around wide begin_str before text bs bl cs ≡ encoded (layout begin_str len text chksum)
unfolding encode_around
encode_around-steps wide begin_str before text len chksum bs bl cs fnums value printed size fits
      sum =
    let hlen = preamble_sz begin_str + digits (length text) in
    let head = front begin_str len in
    let head_size = length-front begin_str len (length text) size in
    let first : encode_field bs ≡ encoded (field (codes "8") begin_str []) =
      encode_field-tag bs (codes "8") (ap (λ n. itoa n 10) fnums.0 ∙ tags.0)
      ∙ ap (λ v. encoded (field (codes "8") v [])) value in
    let second =
      encode_field-tag (with_value bl len) (codes "9") (ap (λ n. itoa n 10) fnums.1 ∙ tags.1) in
    let last =
      encode_field-tag (with_value cs chksum) (codes "10") (ap (λ n. itoa n 10) fnums.2 ∙ tags.2) in
    let over : write_over head (drop (length before - hlen) before ++ text) ≡ head ++ text =
      ap (λ n. write_over head (drop (length before - n) before ++ text)) (sym head_size)
      ∙ write_over-head head before text (omega (arith, head_size, fits)) in
    let total : length text + hlen ≡ length (head ++ text) =
      omega (arith, length-append head text, head_size) in
    let room : ltb (length before) hlen ≡ false = ltb-false (length before) hlen fits in
    rw
      (
        encode_around,
        first,
        ◌>>=◌,
        number_text,
        printed,
        second,
        over,
        total,
        sum,
        room,
        last,
        over,
        take-whole head text hlen head_size,
      )
      (ap encoded
        (append_assoc head text (field (codes "10") chksum []) ∙ front-append begin_str len _))

word_loop_bound : (s : Bytes) (sums : Sums) → word_loop s sums < 256
unfolding word_loop
word_loop_bound [] sums = omega arith
word_loop_bound (a ∷ []) sums = omega arith
word_loop_bound (a ∷ b ∷ []) sums = omega arith
word_loop_bound (a ∷ b ∷ c ∷ []) sums = omega arith
word_loop_bound (a ∷ b ∷ c ∷ d ∷ []) sums = omega arith
word_loop_bound (a ∷ b ∷ c ∷ d ∷ e ∷ []) sums = omega arith
word_loop_bound (a ∷ b ∷ c ∷ d ∷ e ∷ f ∷ []) sums = omega arith
word_loop_bound (a ∷ b ∷ c ∷ d ∷ e ∷ f ∷ g ∷ []) sums = omega arith
word_loop_bound (a ∷ b ∷ c ∷ d ∷ e ∷ f ∷ g ∷ h ∷ s) sums =
    word_loop_bound s (add_word (word a b c d e f g h) sums)

pub calc_chksum_bound :
    (wide : Bool) (from : Bytes) (sz : ℕ) → compiled_chksum wide from sz 0 none < 256
unfolding compiled_chksum calc_chksum calc_chksum_wide
calc_chksum_bound true from sz = word_loop_bound (take sz from) _
calc_chksum_bound false from sz = ground arith
