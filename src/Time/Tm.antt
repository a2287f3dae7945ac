-- ===== src/Time/Tm.antt =====
-- `struct tm` and `time_to_epoch` of include/fix8/field.hpp.
use fix.Base.{ℕ, ◌%◌, not, Option, some, List, [], ◌∷◌, ◌==◌, ◌&&◌, ◌>>=◌, if◌then◌else◌, get_elem?}
use fix.Time.Int.{add, sub, mul, quarter, less, widen}

-- The fields that the conversions use.
pub record Tm : Type 0 where
  pub tm_year : ℕ
  pub tm_mon : ℕ
  pub tm_mday : ℕ
  pub tm_hour : ℕ
  pub tm_min : ℕ
  pub tm_sec : ℕ

abbrev pub broken_down : (year mon mday hour min sec : ℕ) → Tm
broken_down year mon mday hour min sec = record {
  tm_year = year;
  tm_mon = mon;
  tm_mday = mday;
  tm_hour = hour;
  tm_min = min;
  tm_sec = sec;
}

abbrev pub with_day : Tm → ℕ → Tm
with_day t day = broken_down t.tm_year t.tm_mon day t.tm_hour t.tm_min t.tm_sec

abbrev pub zero_tm : Tm
zero_tm = broken_down 0 0 0 0 0 0

abbrev pub mon_days : List ℕ
mon_days = 0 ∷ 31 ∷ 59 ∷ 90 ∷ 120 ∷ 151 ∷ 181 ∷ 212 ∷ 243 ∷ 273 ∷ 304 ∷ 334 ∷ 365 ∷ []

-- `tdays`, with `before` read from the table.
abbrev pub tdays : Tm → ℕ → ℕ
tdays ltm before =
    let tyears = if not (ltm.tm_year == 0) then sub ltm.tm_year 70 else 0 in
    let mday = if not (ltm.tm_mday == 0) then sub ltm.tm_mday 1 else 0 in
    let days = add (add (add before mday) (mul tyears 365)) (quarter (add tyears 2)) in
    if not (ltm.tm_year == 0) && (ltm.tm_year % 4 == 0) && less ltm.tm_mon 2
    then sub days 1
    else days

-- `time_to_epoch`; the sum is an `int` until it is returned.
unfoldable pub time_to_epoch : Tm → ℕ → Option ℕ
time_to_epoch ltm utcdiff = do
  before ← get_elem? mon_days ltm.tm_mon
  some (
      widen (
        add
          (add (add (mul (tdays ltm before) 86400) (mul (add ltm.tm_hour utcdiff) 3600))
            (mul ltm.tm_min 60))
          ltm.tm_sec))
