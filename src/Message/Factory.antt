-- ===== src/Message/Factory.antt =====
-- The checks of `Message::factory` of runtime/message.cpp on the end of a message: that a CheckSum
-- stands there, and that it is right. A text of less than seven bytes is read in front of its start.
use fix.Base.{
  ℕ, ◌-◌, Bool, not, Bytes, none, some, [], ◌∷◌, ◌++◌, ltb, ◌==◌, ◌||◌, if◌then◌else◌, length, take,
  drop,
}
use fix.Codec.Decimal.{u32, fast_atoi}
use fix.Codec.Checksum.{compiled_chksum}
use fix.Codec.Header.{char_at}

pub data Trailer : Type 0 where
  accepted : Bytes → Trailer
  invalid_message : Trailer
  bad_check_sum : ℕ → Trailer
  undefined : Trailer

-- `accepted` has what the field CheckSum is set to; nothing where the checksum is not asked for.
unfoldable pub check_trailer : Bool → Bytes → Bool → Trailer
check_trailer wide from no_chksum =
    let pp = drop (length from - 7) from in
    let chksum = take 3 (drop 3 pp) in
    let mchkval = compiled_chksum wide from (length from) 0 (some (length from - 7)) in
    if ltb (length from) 7
    then undefined
    else if not (char_at 0 pp == b'1') || not (char_at 1 pp == b'0')
    then invalid_message
    else if no_chksum
    then accepted []
    else elim (fast_atoi u32 0 (chksum ++ 0 ∷ [])) [
      | none ↦ undefined
      | some chkval ↦ if not (chkval == mchkval) then bad_check_sum mchkval else accepted chksum
    ]
