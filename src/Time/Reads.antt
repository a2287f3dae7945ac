-- ===== src/Time/Reads.antt =====
-- What `date_time_parse`, `time_parse` and `date_parse` make of the texts of a broken-down time.
use fix.Base.{
  ℕ, ◌+◌, ◌*◌, ◌/◌, ◌%◌, ◌^◌, ◌<◌, ◌≤◌, ◌≡◌, refl, ap, true, false, Bytes, some, ◌∷◌, ◌++◌, arith,
  append_assoc,
}
use native.Mathlib.Nat.{le_trans}
use fix.Schedule.{day}
use fix.Time.Int.{sub, widen}
use fix.Time.Tm.{Tm, broken_down, zero_tm}
use fix.Time.Epoch.{IsDate, mday_bound, epoch_seconds, time_to_epoch_lem}
use fix.Time.Digits.{parse_decimal-format0}
use fix.Time.Text.{
  million, billion, format0, parse_decimal, format_time, format_ms, format_month, format_date,
  is_now, parse_clock, parse_month, parse_ms, read_date_time, date_time_parse, time_parse,
  date_parse, to_ticks, by_length,
}

is_now-long : (ptr : Bytes) (len : ℕ) → 3 < len → is_now ptr len ≡ false
is_now-long ptr len h = ground arith

module _ (tm : Tm) (v : IsDate tm) where
  parse_month-format :
      (rest : Bytes)
      → parse_month (format_month tm ++ rest) zero_tm
        ≡ some (broken_down tm.tm_year tm.tm_mon 0 0 0 0, rest)
  parse_month-format rest =
      let year =
        parse_decimal-format0 4 (tm.tm_year + 1900) (format0 (tm.tm_mon + 1) 2 ++ rest)
          (omega (arith, v.year_to)) (omega (arith, v.year_to)) in
      let mon =
        parse_decimal-format0 2 (tm.tm_mon + 1) rest (omega (arith, v.month_to))
          (omega (arith, v.month_to)) in
      let year_is : sub (tm.tm_year + 1900) 1900 ≡ tm.tm_year = omega (arith, v.year_to) in
      let mon_is : sub (tm.tm_mon + 1) 1 ≡ tm.tm_mon = omega (arith, v.month_to) in
      rw
        (
          append_assoc (format0 (tm.tm_year + 1900) 4) (format0 (tm.tm_mon + 1) 2) rest,
          year,
          mon,
          year_is,
          mon_is,
        )
        refl

  parse_clock-format :
      (year mon day : ℕ) (rest : Bytes)
      → parse_clock (format_time tm ++ rest) (broken_down year mon day 0 0 0)
        ≡ some (broken_down year mon day tm.tm_hour tm.tm_min tm.tm_sec, rest)
  parse_clock-format year mon day rest =
      let two : (n : ℕ) (more : Bytes)
          → n < 60
          → parse_decimal 2 (format0 n 2 ++ more) 0 ≡ some (n, more) =
        λ n more h. parse_decimal-format0 2 n more (omega (arith, h)) (omega (arith, h)) in
      rw
        (
          append_assoc (format0 tm.tm_hour 2)
              (b':' ∷ (format0 tm.tm_min 2 ++ b':' ∷ format0 tm.tm_sec 2)) rest,
          two tm.tm_hour (b':' ∷ (format0 tm.tm_min 2 ++ b':' ∷ format0 tm.tm_sec 2) ++ rest)
              (omega (arith, v.hour_to)),
          append_assoc (format0 tm.tm_min 2) (b':' ∷ format0 tm.tm_sec 2) rest,
          two tm.tm_min (b':' ∷ format0 tm.tm_sec 2 ++ rest) v.min_to,
          two tm.tm_sec rest v.sec_to,
        )
        refl

parse_ms-format :
    (ms : ℕ) (rest : Bytes) → ms < 1000 → parse_ms (format_ms ms ++ rest) ≡ some (ms * million)
parse_ms-format ms rest h =
    let exact : widen ms * million % 2 ^ 64 ≡ ms * million = ground arith in
    rw (parse_decimal-format0 3 ms rest h (omega (arith, h)), exact) refl

abbrev pub epoch_ticks : Tm → ℕ
epoch_ticks tm = to_ticks (widen (epoch_seconds tm))

read_date_time-format :
    (tm : Tm) (more : Bytes) (len : ℕ)
    → IsDate tm
    → read_date_time (format_date tm ++ b'-' ∷ (format_time tm ++ more)) len
      ≡ by_length len 21 17 more (some (epoch_ticks tm))
read_date_time-format tm more len v =
    let day : parse_decimal 2 (format0 tm.tm_mday 2 ++ b'-' ∷ (format_time tm ++ more)) 0
        ≡ some (tm.tm_mday, b'-' ∷ (format_time tm ++ more)) =
      parse_decimal-format0 2 tm.tm_mday (b'-' ∷ (format_time tm ++ more))
        (omega (arith, mday_bound tm v)) (omega (arith, mday_bound tm v)) in
    rw
      (
        append_assoc (format_month tm) (format0 tm.tm_mday 2) (b'-' ∷ (format_time tm ++ more)),
        parse_month-format tm v (format0 tm.tm_mday 2 ++ b'-' ∷ (format_time tm ++ more)),
        day,
        parse_clock-format tm v tm.tm_year tm.tm_mon tm.tm_mday more,
        time_to_epoch_lem tm v,
      )
      refl

pub date_time_parse-long :
    (tm : Tm) (now ms : ℕ) (rest : Bytes)
    → IsDate tm
    → ms < 1000
    → date_time_parse now (format_date tm ++ b'-' ∷ (format_time tm ++ (format_ms ms ++ rest))) 21
      ≡ some ((ms * million + epoch_ticks tm) % 2 ^ 64)
unfolding date_time_parse epoch_seconds
date_time_parse-long tm now ms rest v h =
    let text = format_date tm ++ b'-' ∷ (format_time tm ++ (format_ms ms ++ rest)) in
    rw
      (
        is_now-long text 21 (omega arith),
        read_date_time-format tm (format_ms ms ++ rest) 21 v,
        parse_ms-format ms rest h,
      )
      refl

pub date_time_parse-short :
    (tm : Tm) (now : ℕ) (rest : Bytes)
    → IsDate tm
    → date_time_parse now (format_date tm ++ b'-' ∷ (format_time tm ++ rest)) 17
      ≡ some (epoch_ticks tm)
unfolding date_time_parse epoch_seconds
date_time_parse-short tm now rest v =
    let text = format_date tm ++ b'-' ∷ (format_time tm ++ rest) in
    rw (is_now-long text 17 (omega arith), read_date_time-format tm rest 17 v) refl

pub epoch_ticks-small :
    (tm : Tm) → epoch_seconds tm < 2 ^ 31 → epoch_ticks tm ≡ epoch_seconds tm * billion
epoch_ticks-small tm h = ground arith

pub time_of_day : Tm → ℕ
time_of_day tm = tm.tm_hour * 3600 + tm.tm_min * 60 + tm.tm_sec

pub clock-ticks :
    (tm : Tm)
    → IsDate tm
    → to_ticks (widen tm.tm_hour * 3600 + widen tm.tm_min * 60 + widen tm.tm_sec)
      ≡ time_of_day tm * billion
unfolding time_of_day
clock-ticks tm v =
    let hour : widen tm.tm_hour ≡ tm.tm_hour = ground arith in
    let min : widen tm.tm_min ≡ tm.tm_min = ground arith in
    let sec : widen tm.tm_sec ≡ tm.tm_sec = ground arith in
    rw (hour, min, sec) (omega (arith, v.hour_to, v.min_to, v.sec_to))

pub time_parse-long :
    (tm : Tm) (now ms : ℕ) (rest : Bytes)
    → IsDate tm
    → ms < 1000
    → time_parse now (format_time tm ++ (format_ms ms ++ rest)) 12 true
      ≡ some (ms * million + time_of_day tm * billion)
unfolding time_parse
time_parse-long tm now ms rest v h =
    let text = format_time tm ++ (format_ms ms ++ rest) in
    rw
      (
        is_now-long text 12 (omega arith),
        parse_clock-format tm v 0 0 0 (format_ms ms ++ rest),
        parse_ms-format ms rest h,
        clock-ticks tm v,
      )
      (unfold time_of_day in ap some (omega (arith, v.hour_to, v.min_to, v.sec_to, h)))

pub time_parse-short :
    (tm : Tm) (now : ℕ) (rest : Bytes)
    → IsDate tm
    → time_parse now (format_time tm ++ rest) 8 true ≡ some (time_of_day tm * billion)
unfolding time_parse
time_parse-short tm now rest v =
    let text = format_time tm ++ rest in
    rw (is_now-long text 8 (omega arith), parse_clock-format tm v 0 0 0 rest, clock-ticks tm v) refl

-- The first second of the day, and of the month.
abbrev pub day_of : Tm → Tm
day_of tm = broken_down tm.tm_year tm.tm_mon tm.tm_mday 0 0 0

abbrev pub month_of : Tm → Tm
month_of tm = broken_down tm.tm_year tm.tm_mon 1 0 0 0

day_of-IsDate : (tm : Tm) → IsDate tm → IsDate (day_of tm)
day_of-IsDate tm v = record {
  year_from = v.year_from;
  year_to = v.year_to;
  month_to = v.month_to;
  day_from = v.day_from;
  day_to = v.day_to;
  hour_to = omega arith;
  min_to = omega arith;
  sec_to = omega arith;
}

pub date_parse-day :
    (tm : Tm) (now : ℕ) (rest : Bytes)
    → IsDate tm
    → date_parse now (format_date tm ++ rest) 8 ≡ some (epoch_ticks (day_of tm))
unfolding date_parse epoch_seconds
date_parse-day tm now rest v =
    let text = format_date tm ++ rest in
    rw
      (
        is_now-long text 8 (omega arith),
        append_assoc (format_month tm) (format0 tm.tm_mday 2) rest,
        parse_month-format tm v (format0 tm.tm_mday 2 ++ rest),
        parse_decimal-format0 2 tm.tm_mday rest (omega (arith, mday_bound tm v))
            (omega (arith, mday_bound tm v)),
        time_to_epoch_lem (day_of tm) (day_of-IsDate tm v),
      )
      refl

pub date_parse-month :
    (tm : Tm) (now : ℕ) (rest : Bytes)
    → IsDate tm
    → date_parse now (format_month tm ++ rest) 6 ≡ some (epoch_ticks (month_of tm))
unfolding date_parse epoch_seconds
date_parse-month tm now rest v =
    let text = format_month tm ++ rest in
    let first : IsDate (month_of tm) = record {
      year_from = v.year_from;
      year_to = v.year_to;
      month_to = v.month_to;
      day_from = omega arith;
      day_to = le_trans v.day_from v.day_to;
      hour_to = omega arith;
      min_to = omega arith;
      sec_to = omega arith;
    } in
    rw
      (
        is_now-long text 6 (omega arith),
        parse_month-format tm v rest,
        time_to_epoch_lem (month_of tm) first,
      )
      refl

pub day_of-seconds :
    (tm : Tm) → IsDate tm → epoch_seconds (day_of tm) ≡ epoch_seconds tm / 86400 * 86400
unfolding epoch_seconds
day_of-seconds tm v = omega (arith, v.hour_to, v.min_to, v.sec_to)

pub time_of_day_lem : (tm : Tm) → IsDate tm → time_of_day tm ≡ epoch_seconds tm % 86400
unfolding epoch_seconds time_of_day
time_of_day_lem tm v = omega (arith, v.hour_to, v.min_to, v.sec_to)

pub month_of-earlier : (tm : Tm) → epoch_seconds (month_of tm) ≤ epoch_seconds tm
unfolding epoch_seconds
month_of-earlier tm = omega arith
