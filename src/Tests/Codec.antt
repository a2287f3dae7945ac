-- ===== src/Tests/Codec.antt =====
-- The theorems of the codec, of the schedule and of the traits at concrete inputs.
use fix.Base.{
  ℕ, Bool, ◌⊎◌, List, ◌+◌, ◌*◌, ◌^◌, ◌≡◌, ◌≢◌, ◌↔◌, refl, Bytes, true, false, none, some, [], ◌∷◌,
  ◌++◌, codes, drop, length, All, arith, ◌-◌, ◌%◌,
}
use fix.Codec.Decimal.{u16, itoa, fast_atoi}
use fix.Codec.Decimal.RoundTrip.{fast_atoi-itoa, IsDigit}
use fix.Codec.Element.{isdigit, extract_element, element}
use fix.Codec.Element.Laws.{IsTag, IsValue, field, extract_element_complete, extract_element_sound}
use fix.Codec.Header.{extract_header, header}
use fix.Codec.Header.Laws.{extract_header_complete}
use fix.Traits.{FieldTrait, find_hashed}
use fix.Traits.Fields.{find_missing, get, trait_present}
use fix.Traits.Missing.{Meets, find_missing_iff}
use fix.Traits.Laws.{Rising, find_hashed-index_of}
use fix.Schedule.{Schedule, test, in_range, toffset, ticks, day, minute}
use fix.Schedule.Laws.{test-daily}
use fix.Schedule.Configured.{decode_dow, create_schedule, create_schedule-test}

extract_element-complete_example :
    extract_element (field (codes "49") (codes "CL") (codes "56=X"))
    ≡ element 6 (codes "49") (codes "CL")
unfolding isdigit
extract_element-complete_example =
    extract_element_complete (codes "49") (codes "CL") (codes "56=X") (refl, (refl, tt))
      (omega arith, (omega arith, tt))

extract_element-sound_example :
    let from = field (codes "34") (codes "7") [] in
    (rest : Bytes) × (from ≡ field (extract_element from).tag (extract_element from).val rest)
    × IsTag (extract_element from).tag
    × IsValue (extract_element from).val
    × ((extract_element from).consumed
        ≡ length (extract_element from).tag + length (extract_element from).val + 2)
extract_element-sound_example =
    extract_element_sound (field (codes "34") (codes "7") [])
      (unfold extract_element in ground arith)

extract_header-complete_example :
    let text =
      field
        (codes "8")
        (codes "FIX.4.2")
        (field (codes "9") (codes "65") (field (codes "35") (codes "A") (codes "49=B"))) in
    (extract_header 1024 text ≡ some (header 20 (codes "65") (codes "A")))
    × (drop 20 text ≡ codes "49=B")
extract_header-complete_example =
    extract_header_complete 1024 (codes "FIX.4.2") (codes "65") (codes "A") (codes "49=B")
      (omega arith) (omega arith) (omega arith)
      (
        omega arith,
        (
          omega arith,
          (omega arith, (omega arith, (omega arith, (omega arith, (omega arith, tt))))),
        ),
      )
      (omega arith, (omega arith, tt)) (omega arith, tt)

fast_atoi-itoa_example :
    (text : Bytes) × (itoa 1234 10 ≡ some text)
    × All IsDigit text
    × (fast_atoi u16 0 (text ++ 0 ∷ codes "x") ≡ some 1234)
fast_atoi-itoa_example =
    fast_atoi-itoa u16 1234 (codes "x") (omega arith) (omega arith) (omega arith)

-- From 08:00 to 16:00, in a zone an hour ahead.
abbrev daily : Schedule
daily = record {
  start = 480 * minute;
  end = 960 * minute;
  utc_offset = 60;
  start_day = 2 ^ 32 - 1;
  end_day = 2 ^ 32 - 1;
}

test-daily_example :
    let now = (1000 * day + 450 * minute + toffset daily) % ticks in
    let today = now - now % day in
    test daily (1000 * day + 450 * minute) false
    ≡ in_range ((today + 480 * minute) % ticks) ((today + 960 * minute) % ticks) now
test-daily_example = test-daily daily (1000 * day + 450 * minute) false refl

create_schedule-test_example :
    (create_schedule (450 * minute) (900 * minute) 0 0 (some (codes "Mon")) none ≡ none)
    ⊎ ((s : Schedule) × (create_schedule (450 * minute) (900 * minute) 0 0 (some (codes "Mon")) none
          ≡ some s)
        × ((clock : ℕ) (prev : Bool) → test s clock prev ≡ prev))
unfolding decode_dow
create_schedule-test_example =
    create_schedule-test (450 * minute) (900 * minute) 0 0 (codes "Mon") refl refl

abbrev traits : List FieldTrait
traits =
    record { fnum = 8; ftype = 0; pos = 0; bits = 1 }
    ∷ record { fnum = 34; ftype = 0; pos = 0; bits = 1 }
    ∷ record { fnum = 49; ftype = 0; pos = 0; bits = 0 }
    ∷ []

traits-Rising : Rising 0 traits
traits-Rising = (omega arith, (omega arith, (omega arith, tt)))

find_hashed-index_of_example : find_hashed 34 traits ≡ some 1
find_hashed-index_of_example = find_hashed-index_of 34 traits traits-Rising

find_missing_iff_example :
    ((find_missing 0 traits ≡ 0) ↔ All (Meets 0) traits)
    × (find_missing 0 traits ≢ 0
        → (get (find_missing 0 traits) 0 traits ≡ true)
          × (get (find_missing 0 traits) trait_present traits ≡ false))
find_missing_iff_example = find_missing_iff 0 traits (omega arith, (omega arith, (omega arith, tt)))
