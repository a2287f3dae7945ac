-- ===== src/Codec/Decimal.antt =====
-- `fast_atoi` and `itoa` of include/fix8/f8utils.hpp. A buffer is the bytes that can be read; a
-- loop that runs past them is `none`, as is a loop of the model that runs out of fuel.
pub mod RoundTrip
use mathlib.Core.List.{reverse}
use mathlib.Core.Option
use fix.Base.{
  ℕ, zero, suc, ◌+◌, ◌-◌, ◌*◌, ◌/◌, ◌^◌, ◌%◌, Bytes, Option, none, some, [], ◌∷◌, ltb, ◌==◌, ◌||◌,
  if◌then◌else◌,
}

abbrev pub u32 : ℕ
u32 = 2 ^ 32

abbrev pub u16 : ℕ
u16 = 2 ^ 16

-- A `char` is signed: its value in arithmetic modulo `m`.
abbrev pub char_value : ℕ → ℕ → ℕ
char_value m c = if ltb c 128 then c else c + m - 256

-- One round, in an unsigned type with `m` values.
abbrev pub atoi_step : ℕ → ℕ → ℕ → ℕ
atoi_step m acc c = (acc * 10 + char_value m c + m - b'0') % m

unfoldable pub atoi_loop : ℕ → ℕ → Bytes → ℕ → Option ℕ
atoi_loop m term [] acc = none
atoi_loop m term (c ∷ s) acc =
    let rest = atoi_loop m term s (atoi_step m acc c) in if c == term then some acc else rest

unfoldable pub fast_atoi : ℕ → ℕ → Bytes → Option ℕ
unfolding atoi_loop
fast_atoi m term s = atoi_loop m term s 0

-- The character that the table holds at 35 + d.
abbrev digit_char : ℕ → ℕ
digit_char d = if ltb d 10 then b'0' + d else b'a' + (d - 10)

-- The first loop of `itoa`: the digits, the last one first.
unfoldable pub itoa_loop : ℕ → ℕ → ℕ → Option Bytes
itoa_loop zero value base = none
itoa_loop (suc fuel) value base =
    let more = itoa_loop fuel (value / base) base in
    let c = digit_char (value - value / base * base) in
    if value / base == 0 then some (c ∷ []) else Option.map (λ cs. c ∷ cs) more

-- The second loop reverses the digits in place. 32 rounds are enough for an `unsigned`.
unfoldable pub itoa : ℕ → ℕ → Option Bytes
unfolding itoa_loop
itoa value base =
    if ltb base 2 || ltb 36 base then some [] else Option.map reverse (itoa_loop 32 value base)
