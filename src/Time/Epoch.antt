-- ===== src/Time/Epoch.antt =====
-- The calendar that `time_to_epoch` is measured against, and the measure.
use fix.Base.{
  ℕ, zero, suc, ◌+◌, ◌-◌, ◌*◌, ◌/◌, ◌%◌, ◌≤◌, ◌<◌, ◌≡◌, refl, Bool, not, some, ◌==◌, ◌&&◌, ◌||◌,
  leb, if◌then◌else◌, arith, get_elem?,
}
use native.Mathlib.Nat.{le_trans}
use fix.Time.Int.{ints, add, mul, widen}
use fix.Time.Tm.{Tm, mon_days, tdays, time_to_epoch}

-- The rule of the Gregorian calendar.
unfoldable pub is_leap : ℕ → Bool
is_leap y = (y % 4 == 0) && (not (y % 100 == 0) || (y % 400 == 0))

abbrev pub days_in_month : Bool → ℕ → ℕ
days_in_month leap m =
    if m == 1
    then (if leap then 29 else 28)
    else if (m == 3) || (m == 5) || (m == 8) || (m == 10)
    then 30
    else 31

-- The days of the year before month `m`, from 0.
unfoldable pub days_before_month : Bool → ℕ → ℕ
days_before_month leap zero = 0
days_before_month leap (suc m) = days_before_month leap m + days_in_month leap m

-- The days from the start of 1970 to the start of `1970 + k`.
unfoldable pub days_to_year : ℕ → ℕ
unfolding is_leap
days_to_year zero = 0
days_to_year (suc k) = days_to_year k + (if is_leap (1970 + k) then 366 else 365)

days_to_year_lem : (k : ℕ) → k ≤ 130 → days_to_year k ≡ 365 * k + (k + 1) / 4
unfolding days_to_year is_leap
days_to_year_lem zero h = refl
days_to_year_lem (suc k) h = ground (arith, days_to_year_lem k)

-- `t` is a time of day of a date of the Gregorian calendar, in a year from 1970 to 2099.
pub record IsDate (t : Tm) : Type 0 where
  pub year_from : 70 ≤ t.tm_year
  pub year_to : t.tm_year < 200
  pub month_to : t.tm_mon < 12
  pub day_from : 1 ≤ t.tm_mday
  pub day_to : t.tm_mday ≤ days_in_month (is_leap (t.tm_year + 1900)) t.tm_mon
  pub hour_to : t.tm_hour < 24
  pub min_to : t.tm_min < 60
  pub sec_to : t.tm_sec < 60

-- The seconds from the start of 1970 to `t`.
unfoldable pub epoch_seconds : Tm → ℕ
unfolding days_to_year days_before_month
epoch_seconds t =
    (days_to_year (t.tm_year - 70)
        + days_before_month (is_leap (t.tm_year + 1900)) t.tm_mon
        + (t.tm_mday - 1))
      * 86400
    + t.tm_hour * 3600
    + t.tm_min * 60
    + t.tm_sec

-- The table has the days before a month in a year of 365 days.
abbrev Found : Bool → ℕ → Type 0
Found leap m =
    (before : ℕ) × (get_elem? mon_days m ≡ some before)
    × (before ≤ 334)
    × (days_before_month leap m ≡ before + (if leap && leb 2 m then 1 else 0))

mon_days-Found : (leap : Bool) (m : ℕ) → m < 12 → Found leap m
unfolding days_before_month
mon_days-Found leap zero h = (0, refl, omega arith, ground arith)
mon_days-Found leap (suc zero) h = (31, refl, omega arith, ground arith)
mon_days-Found leap (suc (suc zero)) h = (59, refl, omega arith, ground arith)
mon_days-Found leap (suc (suc (suc zero))) h = (90, refl, omega arith, ground arith)
mon_days-Found leap (suc (suc (suc (suc zero)))) h = (120, refl, omega arith, ground arith)
mon_days-Found leap (suc (suc (suc (suc (suc zero))))) h = (151, refl, omega arith, ground arith)
mon_days-Found leap (suc (suc (suc (suc (suc (suc zero)))))) h =
    (181, refl, omega arith, ground arith)
mon_days-Found leap (suc (suc (suc (suc (suc (suc (suc zero))))))) h =
    (212, refl, omega arith, ground arith)
mon_days-Found leap (suc (suc (suc (suc (suc (suc (suc (suc zero)))))))) h =
    (243, refl, omega arith, ground arith)
mon_days-Found leap (suc (suc (suc (suc (suc (suc (suc (suc (suc zero))))))))) h =
    (273, refl, omega arith, ground arith)
mon_days-Found leap (suc (suc (suc (suc (suc (suc (suc (suc (suc (suc zero)))))))))) h =
    (304, refl, omega arith, ground arith)
mon_days-Found leap (suc (suc (suc (suc (suc (suc (suc (suc (suc (suc (suc zero))))))))))) h =
    (334, refl, omega arith, ground arith)
mon_days-Found leap (suc (suc (suc (suc (suc (suc (suc (suc (suc (suc (suc (suc m)))))))))))) h =
    absurd (omega arith)

-- The day of `t`, counted from the start of 1970.
abbrev epoch_day : Tm → ℕ
epoch_day t =
    days_to_year (t.tm_year - 70)
    + days_before_month (is_leap (t.tm_year + 1900)) t.tm_mon
    + (t.tm_mday - 1)

days_in_month_bound : (leap : Bool) (m : ℕ) → days_in_month leap m ≤ 31
days_in_month_bound leap m = ground arith

pub mday_bound : (t : Tm) → IsDate t → t.tm_mday ≤ 31
mday_bound t v = le_trans v.day_to (days_in_month_bound (is_leap (t.tm_year + 1900)) t.tm_mon)

leap-quarter : (y : ℕ) → 70 ≤ y → y < 200 → is_leap (y + 1900) ≡ (y % 4 == 0)
unfolding is_leap
leap-quarter y lo hi = ground arith

tdays-epoch_day :
    (t : Tm) (before : ℕ)
    → IsDate t
    → before ≤ 334
    → days_before_month (is_leap (t.tm_year + 1900)) t.tm_mon
      ≡ before + (if is_leap (t.tm_year + 1900) && leb 2 t.tm_mon then 1 else 0)
    → (tdays t before ≡ epoch_day t) × (epoch_day t < 47483)
tdays-epoch_day t before v bound days =
    let leap = leap-quarter t.tm_year v.year_from v.year_to in
    let years = days_to_year_lem (t.tm_year - 70) (omega (arith, v.year_to)) in
    ground (arith, years, mday_bound t v, v.year_from, v.year_to, v.day_from, v.month_to)

-- What is computed in an `int` is the number of seconds since 1970 modulo 2 ^ 32: on every date and
-- time that the calendar has from 1970 to 2099, the result is the seconds since 1970 where they are
-- below 2 ^ 31, and the negative number 2 ^ 32 less from there on, which is on 2038-01-19.
pub time_to_epoch_lem : (t : Tm) → IsDate t → time_to_epoch t 0 ≡ some (widen (epoch_seconds t))
unfolding time_to_epoch epoch_seconds
time_to_epoch_lem t v =
    let (before, found, bound, days) =
      mon_days-Found (is_leap (t.tm_year + 1900)) t.tm_mon v.month_to in
    let (same, small) = tdays-epoch_day t before v bound days in
    let seconds : epoch_day t * 86400 + t.tm_hour * 3600 + t.tm_min * 60 + t.tm_sec < ints =
      omega (arith, small, v.hour_to, v.min_to, v.sec_to) in
    let exact : add
          (add (add (mul (epoch_day t) 86400) (mul (add t.tm_hour 0) 3600)) (mul t.tm_min 60))
          t.tm_sec
        ≡ epoch_day t * 86400 + t.tm_hour * 3600 + t.tm_min * 60 + t.tm_sec =
      omega (arith, seconds) in
    rw (found, same, exact) refl
