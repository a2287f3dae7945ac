-- ===== src/Message/Delivery.antt =====
-- What one side encodes, the reader of the other side frames and its factory accepts.
use mathlib.Core.Path.{subst}
use fix.Base.{
  Bool, true, ℕ, ◌+◌, ◌-◌, ◌/◌, ◌%◌, ◌^◌, ◌<◌, ◌≤◌, ◌≡◌, refl, ap, ◌∙◌, sym, Bytes, some, none,
  false, [], ◌∷◌, ◌++◌, length, take, length-append, take-append, drop-append, arith, codes, All,
  ==_refl, ltb,
}
use fix.Codec.Decimal.{itoa, fast_atoi, atoi_loop, u32}
use fix.Codec.Decimal.RoundTrip.{IsDigit, fast_atoi-itoa}
use fix.Codec.Element.{soh, isdigit}
use fix.Codec.Element.Laws.{IsTag, IsValue, field, field-append}
use fix.Codec.Checksum.{compiled_chksum, calc_chksum, calc_chksum_wide, fmt_chksum}
use fix.Codec.Checksum.Plain.{fmt_chksum-digits}
use fix.Connection.Stream.{Socket, received}
use fix.Connection.Reader.{read, bg_sz, chksum_sz}
use fix.Connection.Framing.{IsText, IsFrame, Returns, framed-Returns}
use fix.Message.Tree.{encoded}
use fix.Message.Encode.{Message, encode_message, digits}
use fix.Message.Size.{length-itoa}
use fix.Message.Framed.{layout, calc_chksum_bound, ltb-false}
use fix.Message.Factory.{check_trailer, accepted}
use fix.Message.Wire.{IsEncodable, encode_message-layout}

take-all : (s : Bytes) → take (length s) s ≡ s
take-all [] = refl
take-all (c ∷ s) = ap (◌∷◌ c) (take-all s)

IsDigit-IsTag : (s : Bytes) → All IsDigit s → IsTag s
unfolding isdigit
IsDigit-IsTag [] h = tt
IsDigit-IsTag (c ∷ s) h = (ground (arith, h.0), IsDigit-IsTag s h.1)

-- `chksum` is three digits, which are read as `val`.
abbrev IsChksum : Bytes → ℕ → Type 0
IsChksum chksum val = (length chksum ≡ 3) × (fast_atoi u32 0 (chksum ++ 0 ∷ []) ≡ some val)

fmt_chksum-IsChksum :
    (val : ℕ) (chksum : Bytes) → val < 256 → fmt_chksum val ≡ some chksum → IsChksum chksum val
unfolding fast_atoi atoi_loop
fmt_chksum-IsChksum val chksum h e =
    let three : chksum ≡ (b'0' + val / 100) ∷ (b'0' + val / 10 % 10) ∷ (b'0' + val % 10) ∷ [] =
      ground (arith, fmt_chksum-digits val h, e) in
    rw three (refl, ground arith)

digits-few : (n : ℕ) → (1 ≤ digits n) × (digits n ≤ 7)
digits-few n = ground arith

calc_chksum-prefix :
    (wide : Bool) (whole more : Bytes) (sz : ℕ)
    → compiled_chksum wide (whole ++ more) sz 0 (some (length whole))
      ≡ compiled_chksum wide whole (length whole) 0 none
unfolding compiled_chksum calc_chksum calc_chksum_wide
calc_chksum-prefix true whole more sz = rw (take-append whole more, take-all whole) refl
calc_chksum-prefix false whole more sz =
    let zero_off : length whole - 0 ≡ length whole = omega arith in
    rw (take-append whole more, zero_off, take-all whole) refl

-- The check of the end of a text with a checksum field behind `whole`.
check_trailer-field :
    (wide : Bool) (whole chksum : Bytes)
    → IsChksum chksum (compiled_chksum wide whole (length whole) 0 none)
    → check_trailer wide (whole ++ field (codes "10") chksum []) false ≡ accepted chksum
unfolding check_trailer
check_trailer-field wide whole chksum (three, val) =
    let tail = field (codes "10") chksum [] in
    let size : length (whole ++ tail) - 7 ≡ length whole =
      omega (arith, length-append whole tail, length-append chksum (soh ∷ []), three) in
    let enough : ltb (length (whole ++ tail)) 7 ≡ false =
      ltb-false (length (whole ++ tail)) 7
        (omega (arith, length-append whole tail, length-append chksum (soh ∷ []), three)) in
    let digits_are : take 3 (chksum ++ soh ∷ []) ≡ chksum =
      ap (λ n. take n (chksum ++ soh ∷ [])) (sym three) ∙ take-append chksum (soh ∷ []) in
    rw
      (
        check_trailer,
        enough,
        size,
        drop-append whole tail,
        digits_are,
        val,
        size,
        calc_chksum-prefix wide whole tail (length (whole ++ tail)),
        ==_refl,
        drop-append whole tail,
        digits_are,
      )
      refl

-- The checksum field behind what it is taken of, as the layout puts it.
layout-append :
    (begin_str len text chksum : Bytes)
    → field (codes "8") begin_str (field (codes "9") len text) ++ field (codes "10") chksum []
      ≡ layout begin_str len text chksum
layout-append begin_str len text chksum =
    field-append (codes "8") begin_str (field (codes "9") len text) (field (codes "10") chksum [])
    ∙ ap (field (codes "8") begin_str)
        (field-append (codes "9") len text (field (codes "10") chksum []))

layout-IsFrame :
    (begin_str len text chksum : Bytes) (max_fld_length max_msg_len : ℕ)
    → itoa (length text) 10 ≡ some len
    → 1 ≤ length text
    → length text < 10 ^ 7
    → bg_sz begin_str + length text + chksum_sz ≤ max_msg_len
    → length begin_str < max_fld_length
    → 7 < max_fld_length
    → length chksum ≡ 3
    → IsFrame begin_str max_fld_length max_msg_len (layout begin_str len text chksum)
layout-IsFrame begin_str len text chksum max_fld_length max_msg_len printed some_text bound fits
      short wide_enough three =
    let (same, is, digit, reads) =
      fast_atoi-itoa u32 (length text) [] (omega arith) (omega arith) (omega (arith, bound)) in
    let size = length-itoa (length text) len some_text bound printed in
    let few = digits-few (length text) in
    let one : same ≡ len = ground (arith, is, printed) in
    record {
      len = len;
      body = text;
      chksum = field (codes "10") chksum [];
      text_is = refl;
      digits = IsDigit-IsTag len (subst (All IsDigit) one digit);
      some_digit = omega (arith, size, few);
      len_is = ap (λ l. fast_atoi u32 0 (l ++ 0 ∷ [])) (sym one) ∙ reads;
      some_body = some_text;
      body_fits = fits;
      len_fits = omega (arith, size, few, fits);
      version_short = short;
      len_short = omega (arith, size, few, wide_enough);
      chksum_is = omega (arith, length-append chksum (soh ∷ []), three);
    }

-- What one side encodes for the version of the schema, which has no separator and no zero in it, is,
-- where it fits the reader's buffer and the version and a length of seven digits those for fields, returned by the reader of the other side, exactly those bytes,
-- however the stream is cut into pieces and whatever comes behind them; and the checks of the factory on
-- its end accept it, the checksum included.
pub read-encode_message :
    (wide : Bool) (begin_str before text wire rest : Bytes) (m : Message)
    (max_fld_length max_msg_len : ℕ) (sock : Socket)
    → IsEncodable begin_str before m text
    → IsValue begin_str
    → IsText begin_str
    → bg_sz begin_str + length text + chksum_sz ≤ max_msg_len
    → length begin_str < max_fld_length
    → 7 < max_fld_length
    → encode_message wide begin_str before m ≡ encoded wire
    → received sock ≡ wire ++ rest
    → Returns (read begin_str max_fld_length max_msg_len sock) wire rest
      × ((chksum : Bytes) × (check_trailer wide wire false ≡ accepted chksum))
read-encode_message wide begin_str before text wire rest m max_fld_length max_msg_len sock p value
      plain fits short wide_enough e sent =
    let (len, chksum, printed, sum, is) = encode_message-layout wide begin_str before m text p in
    let whole = field (codes "8") begin_str (field (codes "9") len text) in
    let ok =
      fmt_chksum-IsChksum (compiled_chksum wide whole (length whole) 0 none) chksum
        (calc_chksum_bound wide whole (length whole)) sum in
    let frame =
      layout-IsFrame begin_str len text chksum max_fld_length max_msg_len printed p.some_text
        p.text_bound fits short wide_enough ok.0 in
    let same : wire ≡ layout begin_str len text chksum = ground (arith, e, is) in
    (
      framed-Returns begin_str value plain max_fld_length max_msg_len wire rest sock
          (subst (IsFrame begin_str max_fld_length max_msg_len) (sym same) frame) sent,
      (
        chksum,
        ap (λ w. check_trailer wide w false) (same ∙ sym (layout-append begin_str len text chksum))
            ∙ check_trailer-field wide whole chksum ok,
      ),
    )
