-- ===== src/Time/Int.antt =====
-- The `int` arithmetic of the conversions, on the bits of a two's complement number.
use fix.Base.{ℕ, ◌+◌, ◌-◌, ◌*◌, ◌/◌, ◌%◌, ◌^◌, Bool, not, ltb, if◌then◌else◌}

abbrev pub ints : ℕ
ints = 2 ^ 32

abbrev pub is_negative : ℕ → Bool
is_negative a = not (ltb a (2 ^ 31))

abbrev pub add : ℕ → ℕ → ℕ
add a b = (a + b) % ints

abbrev pub sub : ℕ → ℕ → ℕ
sub a b = (a + (ints - b)) % ints

abbrev pub mul : ℕ → ℕ → ℕ
mul a b = a * b % ints

-- `a / 4`, which is rounded towards zero.
abbrev pub quarter : ℕ → ℕ
quarter a = if is_negative a then (ints - (ints - a) / 4) % ints else a / 4

-- `a < b`.
abbrev pub less : ℕ → ℕ → Bool
less a b = ltb ((a + 2 ^ 31) % ints) ((b + 2 ^ 31) % ints)

-- The 64-bit number with the same value.
abbrev pub widen : ℕ → ℕ
widen a = if is_negative a then a + (2 ^ 64 - ints) else a
