-- ===== src/Schedule/Laws.antt =====
-- When a schedule is active.
use fix.Base.{ℕ, ◌+◌, ◌-◌, ◌≡◌, refl, Bool, true, false, ◌%◌, not, if◌then◌else◌, arith}
use fix.Schedule.{Schedule, test, in_range, toffset, int_ltb, day, ticks}

latched :
    (a prev : Bool)
    → (if a then (if not prev then true else prev) else if prev then false else prev) ≡ a
latched true true = refl
latched true false = refl
latched false true = refl
latched false false = refl

-- Without days, a schedule is active exactly when the local time lies within its range of the day,
-- whether it was active before or not.
pub test-daily :
    (s : Schedule) (clock : ℕ) (prev : Bool)
    → int_ltb s.start_day 0 ≡ true
    → let now = (clock + toffset s) % ticks in
      let today = now - now % day in
      test s clock prev ≡ in_range ((today + s.start) % ticks) ((today + s.end) % ticks) now
unfolding test
test-daily s clock prev h =
    let now = (clock + toffset s) % ticks in
    let today = now - now % day in
    rw h (latched (in_range ((today + s.start) % ticks) ((today + s.end) % ticks) now) prev)

irreflexive : (a : ℕ) → int_ltb a a ≡ false
irreflexive a = ground arith

-- A schedule that starts and ends on the same day of the week never becomes active, and never
-- becomes inactive.
pub test_one_day :
    (s : Schedule) (clock : ℕ) (prev : Bool)
    → int_ltb s.start_day 0 ≡ false
    → s.end_day ≡ s.start_day
    → test s clock prev ≡ prev
unfolding test
test_one_day s clock true h e = rw (h, e, irreflexive s.start_day) refl
test_one_day s clock false h e = rw (h, e, irreflexive s.start_day) refl
