-- ===== src/Schedule/Configured.antt =====
-- `create_schedule` of runtime/configuration.cpp and `decode_dow` of runtime/f8utils.cpp: the schedule
-- that the attributes of an XML element describe. Text is its bytes, an `int` its 32 bits.
use fix.Base.{
  ℕ, ◌+◌, ◌-◌, ◌*◌, ◌^◌, ◌%◌, ◌≡◌, refl, ◌⊎◌, inl, inr, Bool, false, leb, ◌==◌, ◌&&◌, if◌then◌else◌,
  List, [], ◌∷◌, map, Option, none, some, Option-cases,
}
use fix.Schedule.{Schedule, ticks, minute, errorticks, tick_leb, int_ltb, test}
use fix.Schedule.Laws.{test_one_day}

abbrev minus_one : ℕ
minus_one = 2 ^ 32 - 1

abbrev pub lower : ℕ → ℕ
lower c = if leb 65 c && leb c 90 then c + 32 else c

-- `daymap`: the first letters of the days, with those of one letter in the order of the table.
abbrev days : List (ℕ × ℕ)
days = (115, 0) ∷ (109, 1) ∷ (116, 2) ∷ (119, 3) ∷ (116, 4) ∷ (102, 5) ∷ (115, 6) ∷ []

unfoldable equal_range : ℕ → List (ℕ × ℕ) → List ℕ
equal_range c [] = []
equal_range c ((letter, day) ∷ ds) =
    let rest = equal_range c ds in if letter == c then day ∷ rest else rest

-- The second letter of `day_names`.
abbrev second_letter : ℕ → ℕ
second_letter day =
    if day == 0
    then 117
    else if day == 1
    then 111
    else if day == 2
    then 117
    else if day == 3
    then 101
    else if day == 4
    then 104
    else if day == 5
    then 114
    else 97

-- The switch over the days that share the first letter, with the text behind that.
unfoldable choose : List ℕ → List ℕ → ℕ
choose [] rest = minus_one
choose (day ∷ []) rest = day
choose (day ∷ other ∷ more) [] = minus_one
choose (day ∷ other ∷ more) (c ∷ rest) =
    if second_letter day == c then day else if second_letter other == c then other else minus_one

unfoldable one_digit : ℕ → List ℕ → Bool
one_digit c [] = leb 48 c && leb c 54
one_digit c (d ∷ rest) = false

unfoldable pub decode_dow : List ℕ → ℕ
unfolding choose equal_range one_digit
decode_dow [] = minus_one
decode_dow (c ∷ cs) =
    if one_digit (lower c) (map lower cs)
    then lower c - 48
    else choose (equal_range (lower c) days) (map lower cs)

-- The end of the range; none is the exception. The time is `errorticks` where it is not given.
unfoldable ending : ℕ → ℕ → ℕ → Option ℕ
ending start end duration =
    if end == errorticks
    then some (if duration == 0 then end else (start + duration * minute) % ticks)
    else if tick_leb end start
    then none
    else some end

unfoldable day_from : Option (List ℕ) → ℕ → ℕ
unfolding decode_dow
day_from none otherwise = otherwise
day_from (some text) otherwise = decode_dow text

-- The times, the offset and the duration are those that the element's attributes give.
unfoldable pub create_schedule : ℕ → ℕ → ℕ → ℕ → Option (List ℕ) → Option (List ℕ) → Option Schedule
unfolding ending day_from
create_schedule start end utc_offset duration start_text end_text =
    if start == errorticks
    then some record {
      start = errorticks;
      end = errorticks;
      utc_offset = 0;
      start_day = minus_one;
      end_day = minus_one;
    }
    else let start_day = day_from start_text minus_one in
      elim (ending start end duration) [
        | none ↦ none
        | some finish ↦ some record {
          start = start;
          end = finish;
          utc_offset = utc_offset;
          start_day = start_day;
          end_day = day_from end_text (if int_ltb start_day 0 then minus_one else start_day);
        }
      ]

-- A day's name of two letters decides, in lower case and with any text behind it; of the days whose
-- first letter no other has, that letter alone does.
decode_dow-names :
    (rest : List ℕ)
    → (decode_dow (115 ∷ 117 ∷ rest) ≡ 0)
      × (decode_dow (109 ∷ rest) ≡ 1)
      × (decode_dow (116 ∷ 117 ∷ rest) ≡ 2)
      × (decode_dow (119 ∷ rest) ≡ 3)
      × (decode_dow (116 ∷ 104 ∷ rest) ≡ 4)
      × (decode_dow (102 ∷ rest) ≡ 5)
      × (decode_dow (115 ∷ 97 ∷ rest) ≡ 6)
unfolding decode_dow
decode_dow-names [] = (refl, refl, refl, refl, refl, refl, refl)
decode_dow-names (c ∷ rest) = (refl, refl, refl, refl, refl, refl, refl)

-- A schedule whose start is given with a day of the week, but no day for its end, is refused or is one
-- that never becomes active and never becomes inactive.
pub create_schedule-test :
    (start end utc_offset duration : ℕ) (text : List ℕ)
    → (start == errorticks) ≡ false
    → int_ltb (decode_dow text) 0 ≡ false
    → (create_schedule start end utc_offset duration (some text) none ≡ none)
      ⊎ ((s : Schedule) × (create_schedule start end utc_offset duration (some text) none ≡ some s)
          × ((clock : ℕ) (prev : Bool) → test s clock prev ≡ prev))
unfolding create_schedule
create_schedule-test start end utc_offset duration text given day =
    elim (Option-cases (ending start end duration)) [
      | inl e ↦ inl (rw (given, e) refl)
      | inr (finish, e) ↦ inr (
        record {
          start = start;
          end = finish;
          utc_offset = utc_offset;
          start_day = decode_dow text;
          end_day = decode_dow text;
        },
        rw (given, e, day) refl,
        λ clock prev. test_one_day _ clock prev day refl,
      )
    ]
