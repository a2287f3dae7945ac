-- ===== src/Time/RoundTrip.antt =====
-- What `date_time_format` writes, `date_time_parse`, `time_parse` and `date_parse` read.
use fix.Base.{ℕ, ◌*◌, ◌/◌, ◌%◌, ◌^◌, ◌<◌, ◌≡◌, ap, ◌∙◌, true, Bytes, some, ◌++◌, arith, length}
use fix.Schedule.{day}
use fix.Time.Tm.{Tm}
use fix.Time.Epoch.{IsDate, epoch_seconds}
use fix.Time.Text.{
  million, billion, date_time_format, secs, msecs, date_time_parse, time_parse, date_parse, with_ms,
  sec_only, time_with_ms, time_only, date_only, short_date_only,
}
use fix.Time.Reads.{
  date_time_parse-long, date_time_parse-short, epoch_ticks-small, time_parse-long, time_parse-short,
  day_of, month_of, date_parse-day, date_parse-month, day_of-seconds, time_of_day_lem,
  month_of-earlier,
}

module _ (gmtime : ℕ → Tm) (now t : ℕ) (rest : Bytes) where
  -- Where the C library breaks the seconds of a tick count down to the date and the time of day that
  -- they are on the calendar, and they are below 2 ^ 31, the text of a UTC timestamp is read back: with
  -- milliseconds to the tick count less its part below a millisecond, without to the whole second.
  pub date_time_parse-date_time_format :
      IsDate (gmtime (secs t))
      → epoch_seconds (gmtime (secs t)) ≡ secs t
      → secs t < 2 ^ 31
      → (let text = date_time_format gmtime t with_ms in
          date_time_parse now (text ++ rest) (length text) ≡ some (t / million * million))
        × (let text = date_time_format gmtime t sec_only in
            date_time_parse now (text ++ rest) (length text) ≡ some (t / billion * billion))
  unfolding date_time_format date_time_parse
  date_time_parse-date_time_format v e h =
      let tm = gmtime (secs t) in
      let whole = epoch_ticks-small tm (rw e h) in
      (
        date_time_parse-long tm now (msecs t) rest v (omega arith)
            ∙ ap some (omega (arith, whole, e, h)),
        date_time_parse-short tm now rest v ∙ ap some (omega (arith, whole, e)),
      )

  -- The text of a UTC time of day is read back in the form that computes today's ticks: with
  -- milliseconds to the part of the tick count within its day less what is below a millisecond, without
  -- to the whole seconds of the day; the date may be any from 1970 to 2099.
  pub time_parse-date_time_format :
      IsDate (gmtime (secs t))
      → epoch_seconds (gmtime (secs t)) ≡ secs t
      → (let text = date_time_format gmtime t time_with_ms in
          time_parse now (text ++ rest) (length text) true ≡ some (t % day / million * million))
        × (let text = date_time_format gmtime t time_only in
            time_parse now (text ++ rest) (length text) true ≡ some (t % day / billion * billion))
  unfolding date_time_format
  time_parse-date_time_format v e =
      let tm = gmtime (secs t) in
      let within = time_of_day_lem tm v in
      (
        time_parse-long tm now (msecs t) rest v (omega arith) ∙ ap some (omega (arith, within, e)),
        time_parse-short tm now rest v ∙ ap some (omega (arith, within, e)),
      )

  -- The text of a date is read back to the tick count of the start of its day, and the text of a month
  -- to that of the start of its first day, before 2 ^ 31 seconds.
  pub date_parse-date_time_format :
      IsDate (gmtime (secs t))
      → epoch_seconds (gmtime (secs t)) ≡ secs t
      → secs t < 2 ^ 31
      → (let text = date_time_format gmtime t date_only in
          date_parse now (text ++ rest) (length text) ≡ some (t / day * day))
        × (let text = date_time_format gmtime t short_date_only in
            date_parse now (text ++ rest) (length text)
            ≡ some (epoch_seconds (month_of (gmtime (secs t))) * billion))
  unfolding date_time_format
  date_parse-date_time_format v e h =
      let tm = gmtime (secs t) in
      let start = day_of-seconds tm v in
      let whole = epoch_ticks-small (day_of tm) (omega (arith, start, e)) in
      let earlier = month_of-earlier tm in
      (
        date_parse-day tm now rest v ∙ ap some (omega (arith, whole, start, e)),
        date_parse-month tm now rest v
            ∙ ap some (epoch_ticks-small (month_of tm) (omega (arith, earlier, e, h))),
      )
