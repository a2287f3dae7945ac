-- ===== src/Schedule.antt =====
-- `Schedule` of include/fix8/session.hpp over the ticks of include/fix8/tickval.hpp. A tick count and
-- an `int` are their bits; the order is that of two's complement.
pub mod Laws
pub mod Configured
use fix.Base.{
  ℕ, ◌+◌, ◌-◌, ◌*◌, ◌/◌, ◌^◌, ◌%◌, Bool, true, false, not, ltb, leb, ◌==◌, ◌&&◌, ◌||◌,
  if◌then◌else◌,
}

abbrev pub ticks : ℕ
ticks = 2 ^ 64

abbrev pub day : ℕ
day = 24 * 60 * 60 * 10 ^ 9

abbrev pub minute : ℕ
minute = 60 * 10 ^ 9

abbrev pub errorticks : ℕ
errorticks = 2 ^ 63 - 1

abbrev pub rank : ℕ → ℕ → ℕ
rank w a = (a + 2 ^ (w - 1)) % 2 ^ w

-- `a <= b` and `a < b` on ticks, and `a < b` on `int`.
abbrev pub tick_leb : ℕ → ℕ → Bool
tick_leb a b = leb (rank 64 a) (rank 64 b)

abbrev pub tick_ltb : ℕ → ℕ → Bool
tick_ltb a b = ltb (rank 64 a) (rank 64 b)

abbrev pub int_ltb : ℕ → ℕ → Bool
int_ltb a b = ltb (rank 32 a) (rank 32 b)

unfoldable pub in_range : ℕ → ℕ → ℕ → Bool
in_range a b t = if not (b == errorticks) then tick_leb a t && tick_leb t b else tick_leb a t

pub record Schedule : Type 0 where
  pub start : ℕ
  pub end : ℕ
  pub utc_offset : ℕ
  pub start_day : ℕ
  pub end_day : ℕ

-- The constructor with the times given; `_toffset` is the offset in ticks.
abbrev pub toffset : Schedule → ℕ
toffset s =
    (if int_ltb s.utc_offset 0 then s.utc_offset + (ticks - 2 ^ 32) else s.utc_offset)
    * minute
    % ticks

unfoldable pub is_valid : Schedule → Bool
is_valid s = not (s.start == errorticks)

-- The day of the week of `gmtime`: the epoch was a Thursday.
abbrev pub weekday : ℕ → ℕ
weekday now = (now / day + 4) % 7

-- `now` is the clock; the local time is not negative, so that `%` is that of the naturals.
unfoldable pub test : Schedule → ℕ → Bool → Bool
unfolding in_range
test s clock prev =
    let now = (clock + toffset s) % ticks in
    let today = now - now % day in
    let from = (today + s.start) % ticks in
    let to = (today + s.end) % ticks in
    let wday = weekday now in
    let within = in_range from to now in
    if int_ltb s.start_day 0
    then (if within then (if not prev then true else prev) else if prev then false else prev)
    else if not prev
    then (if ((int_ltb s.end_day s.start_day
              && (not (int_ltb wday s.start_day) || not (int_ltb s.end_day wday)))
            || (int_ltb s.start_day s.end_day
                && (not (int_ltb wday s.start_day) && not (int_ltb s.end_day wday))))
          && within
        then true
        else prev)
    else if ((int_ltb s.end_day s.start_day && (int_ltb wday s.start_day && int_ltb s.end_day wday))
          || (int_ltb s.start_day s.end_day && not (int_ltb wday s.end_day)))
        && tick_ltb to now
    then false
    else prev
