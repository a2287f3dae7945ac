-- ===== src/Tests/Time.antt =====
-- The theorems of the time formats at concrete inputs.
use fix.Base.{ℕ, ◌+◌, ◌-◌, ◌^◌, ◌≡◌, refl, true, some, ◌++◌, codes, length, arith}
use fix.Time.Tm.{Tm, broken_down, time_to_epoch}
use fix.Time.Epoch.{is_leap, IsDate, epoch_seconds, time_to_epoch_lem}
use fix.Time.Text.{
  format0, parse_decimal, date_time_format, date_time_parse, time_parse, with_ms, sec_only,
  time_with_ms, time_only,
}
use fix.Time.Digits.{parse_decimal-format0}
use fix.Time.RoundTrip.{date_time_parse-date_time_format, time_parse-date_time_format}

abbrev leap_day : Tm
leap_day = broken_down 116 1 29 23 59 59

abbrev leap_ticks : ℕ
leap_ticks = 1456790399123456789

abbrev in_2040 : Tm
in_2040 = broken_down 140 0 1 0 0 0

leap_day-IsDate : IsDate leap_day
unfolding is_leap
leap_day-IsDate = record {
  year_from = omega arith;
  year_to = omega arith;
  month_to = omega arith;
  day_from = omega arith;
  day_to = omega arith;
  hour_to = omega arith;
  min_to = omega arith;
  sec_to = omega arith;
}

in_2040-IsDate : IsDate in_2040
unfolding is_leap
in_2040-IsDate = record {
  year_from = omega arith;
  year_to = omega arith;
  month_to = omega arith;
  day_from = omega arith;
  day_to = omega arith;
  hour_to = omega arith;
  min_to = omega arith;
  sec_to = omega arith;
}

leap_day-seconds : epoch_seconds leap_day ≡ 1456790399
unfolding epoch_seconds
leap_day-seconds = refl

leap_text : date_time_format (λ _. leap_day) leap_ticks with_ms ≡ codes "20160229-23:59:59.123"
unfolding date_time_format
leap_text = refl

time_to_epoch_lem_example : time_to_epoch in_2040 0 ≡ some (2208988800 + 2 ^ 64 - 2 ^ 32)
unfolding epoch_seconds
time_to_epoch_lem_example = time_to_epoch_lem in_2040 in_2040-IsDate

parse_decimal-format0_example : parse_decimal 3 (format0 7 3 ++ codes "|") 0 ≡ some (7, codes "|")
parse_decimal-format0_example = parse_decimal-format0 3 7 (codes "|") (omega arith) (omega arith)

date_time_parse-date_time_format_example :
    (let text = date_time_format (λ _. leap_day) leap_ticks with_ms in
      date_time_parse 0 (text ++ codes "|") (length text) ≡ some 1456790399123000000)
    × (let text = date_time_format (λ _. leap_day) leap_ticks sec_only in
        date_time_parse 0 (text ++ codes "|") (length text) ≡ some 1456790399000000000)
date_time_parse-date_time_format_example =
    date_time_parse-date_time_format (λ _. leap_day) 0 leap_ticks (codes "|") leap_day-IsDate
      leap_day-seconds (omega arith)

time_parse-date_time_format_example :
    (let text = date_time_format (λ _. leap_day) leap_ticks time_with_ms in
      time_parse 0 (text ++ codes "|") (length text) true ≡ some 86399123000000)
    × (let text = date_time_format (λ _. leap_day) leap_ticks time_only in
        time_parse 0 (text ++ codes "|") (length text) true ≡ some 86399000000000)
time_parse-date_time_format_example =
    time_parse-date_time_format (λ _. leap_day) 0 leap_ticks (codes "|") leap_day-IsDate
      leap_day-seconds
