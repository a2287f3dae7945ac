-- ===== src/Time/Text.antt =====
-- `format0`, `parse_decimal`, `date_time_format`, `date_time_parse`, `time_parse` and `date_parse` of
-- include/fix8/field.hpp. `gmtime` is the C library's. What is formatted is not negative.
use mathlib.Core.Option
use fix.Base.{
  ℕ, zero, suc, ◌+◌, ◌-◌, ◌*◌, ◌/◌, ◌%◌, ◌^◌, Bool, not, Bytes, Option, some, none, [], ◌∷◌, ◌++◌,
  ◌==◌, ◌&&◌, ◌||◌, ◌>>=◌, if◌then◌else◌, get_or,
}
use fix.Codec.Decimal.{char_value}
use fix.Schedule.{ticks}
use fix.Time.Int.{ints, add, sub, mul, widen}
use fix.Time.Tm.{Tm, broken_down, with_day, zero_tm, time_to_epoch}

abbrev pub million : ℕ
million = 10 ^ 6

abbrev pub billion : ℕ
billion = 10 ^ 9

-- The digits fill the `width` bytes from the last one.
unfoldable pub format0 : ℕ → ℕ → Bytes
format0 n zero = []
format0 n (suc width) = format0 (n / 10) width ++ (n % 10 + b'0') ∷ []

-- The value read into `to`, and the rest of the buffer: the call returns `len`.
unfoldable pub parse_decimal : ℕ → Bytes → ℕ → Option (ℕ × Bytes)
parse_decimal zero from to = some (to, from)
parse_decimal (suc len) [] to = none
parse_decimal (suc len) (c ∷ from) to =
    parse_decimal len from
      (add (add (mul to 8) (mul to 2)) ((char_value ints c + ints - b'0') % ints))

-- The rest behind a byte that is not looked at.
abbrev pub skip : Bytes → Option Bytes
skip [] = none
skip (c ∷ from) = some from

pub data TimeIndicator : Type 0 where
  time_only : TimeIndicator
  time_with_ms : TimeIndicator
  short_date_only : TimeIndicator
  date_only : TimeIndicator
  sec_only : TimeIndicator
  with_ms : TimeIndicator

-- `Tickval::secs`, whole seconds, and `msecs`, the milliseconds without them.
abbrev pub secs : ℕ → ℕ
secs t = t / billion

abbrev pub msecs : ℕ → ℕ
msecs t = t / million % 1000

-- `HH:MM:SS`, and with milliseconds.
abbrev pub format_time : Tm → Bytes
format_time tm = format0 tm.tm_hour 2 ++ b':' ∷ (format0 tm.tm_min 2 ++ b':' ∷ format0 tm.tm_sec 2)

abbrev pub format_ms : ℕ → Bytes
format_ms ms = b'.' ∷ format0 ms 3

abbrev pub format_month : Tm → Bytes
format_month tm = format0 (tm.tm_year + 1900) 4 ++ format0 (tm.tm_mon + 1) 2

abbrev pub format_date : Tm → Bytes
format_date tm = format_month tm ++ format0 tm.tm_mday 2

unfoldable pub date_time_format : (ℕ → Tm) → ℕ → TimeIndicator → Bytes
unfolding format0
date_time_format gmtime tickval ind =
    let tm = gmtime (secs tickval) in
    elim ind [
      | time_only ↦ format_time tm
      | time_with_ms ↦ format_time tm ++ format_ms (msecs tickval)
      | short_date_only ↦ format_month tm
      | date_only ↦ format_date tm
      | sec_only ↦ format_date tm ++ b'-' ∷ format_time tm
      | with_ms ↦ format_date tm ++ b'-' ∷ (format_time tm ++ format_ms (msecs tickval))
    ]

-- The empty text and `now`; `*ptr` is read where `len` is not 0.
abbrev pub is_now : Bytes → ℕ → Bool
is_now ptr len =
    len == 0
    || get_or ptr 0 0 == b'n' && len == 3 && get_or ptr 1 0 == b'o' && get_or ptr 2 0 == b'w'

abbrev pub to_ticks : ℕ → ℕ
to_ticks seconds = seconds * billion % ticks

abbrev pub parse_clock : Bytes → Tm → Option (Tm × Bytes)
parse_clock ptr tms = do
  (hour, at_min) ← parse_decimal 2 ptr tms.tm_hour
  past_hour ← skip at_min
  (min, at_sec) ← parse_decimal 2 past_hour tms.tm_min
  past_min ← skip at_sec
  (sec, rest) ← parse_decimal 2 past_min tms.tm_sec
  some (broken_down tms.tm_year tms.tm_mon tms.tm_mday hour min sec, rest)

-- The year and the month.
abbrev pub parse_month : Bytes → Tm → Option (Tm × Bytes)
parse_month ptr tms = do
  (year, at_mon) ← parse_decimal 4 ptr tms.tm_year
  (mon, rest) ← parse_decimal 2 at_mon tms.tm_mon
  some (broken_down (sub year 1900) (sub mon 1) tms.tm_mday tms.tm_hour tms.tm_min tms.tm_sec, rest)

-- The milliseconds behind a byte that is not looked at, in ticks.
abbrev pub parse_ms : Bytes → Option ℕ
parse_ms ptr = do
  past_sec ← skip ptr
  (millisecond, rest) ← parse_decimal 3 past_sec 0
  some (widen millisecond * million % ticks)

-- The `switch` on the length: `long` has milliseconds and drops through to `short`.
abbrev pub by_length : ℕ → ℕ → ℕ → Bytes → Option ℕ → Option ℕ
by_length len long short ptr total =
    if len == long
    then (parse_ms ptr >>= λ ms. total >>= λ t. some ((ms + t) % ticks))
    else if len == short
    then total
    else some 0

abbrev pub read_date_time : Bytes → ℕ → Option ℕ
read_date_time ptr len = do
  (month, at_day) ← parse_month ptr zero_tm
  (day, at_dash) ← parse_decimal 2 at_day month.tm_mday
  at_time ← skip at_dash
  (tms, rest) ← parse_clock at_time (with_day month day)
  by_length len 21 17 rest (Option.map to_ticks (time_to_epoch tms 0))

unfoldable pub date_time_parse : ℕ → Bytes → ℕ → Option ℕ
unfolding parse_decimal
date_time_parse now ptr len =
    let parsed = read_date_time ptr len in if is_now ptr len then some now else parsed

abbrev pub read_time : Bytes → ℕ → Bool → Option ℕ
read_time ptr len timeonly = do
  (tms, rest) ← parse_clock ptr zero_tm
  by_length len 12 8 rest (
      if not timeonly
      then Option.map to_ticks (time_to_epoch tms 0)
      else some (to_ticks (widen tms.tm_hour * 3600 + widen tms.tm_min * 60 + widen tms.tm_sec)))

unfoldable pub time_parse : ℕ → Bytes → ℕ → Bool → Option ℕ
unfolding parse_decimal
time_parse now ptr len timeonly =
    let parsed = read_time ptr len timeonly in if is_now ptr len then some now else parsed

abbrev pub read_date : Bytes → ℕ → Option ℕ
read_date ptr len = do
  (month, at_day) ← parse_month ptr zero_tm
  day ←
      (if len == 8 then (parse_decimal 2 at_day month.tm_mday >>= λ read. some read.0) else some 1)
  Option.map to_ticks (time_to_epoch (with_day month day) 0)

unfoldable pub date_parse : ℕ → Bytes → ℕ → Option ℕ
unfolding parse_decimal
date_parse now ptr len =
    let parsed = read_date ptr len in if is_now ptr len then some now else parsed
