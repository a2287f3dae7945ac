-- ===== src/Codec/Decimal/RoundTrip.antt =====
-- What `itoa` writes, `fast_atoi` reads.
use mathlib.Core.List.{reverse, reverse-cons}
use native.Mathlib.Nat.{pow-suc}
use fix.Base.{
  ℕ, zero, suc, ◌+◌, ◌-◌, ◌*◌, ◌/◌, ◌%◌, ◌^◌, ◌≤◌, ◌<◌, ◌≡◌, refl, ap, ◌∙◌, Bytes, Option, some, [],
  ◌∷◌, ◌++◌, All, All-append, append_assoc, arith, ◌≢◌, ℕ_discrete,
}
use fix.Codec.Decimal.{digit_char, u32, atoi_step, atoi_loop, fast_atoi, itoa_loop, itoa}

abbrev pub IsDigit : ℕ → Type 0
IsDigit c = (b'0' ≤ c) × (c ≤ b'9')

-- The number that digits stand for, the last one first.
value : Bytes → ℕ
value [] = 0
value (c ∷ cs) = value cs * 10 + (c - b'0')

atoi_step-digit :
    (m acc c : ℕ)
    → 256 ≤ m
    → IsDigit c
    → acc * 10 + (c - b'0') < m
    → atoi_step m acc c ≡ acc * 10 + (c - b'0')
atoi_step-digit m acc c h d b =
    let shift : atoi_step m acc c ≡ (acc * 10 + (c - b'0') + m) % m = ground arith in
    shift ∙ grind arith

atoi-reverse :
    (m : ℕ) (cs ys : Bytes)
    → 256 ≤ m
    → All IsDigit cs
    → value cs < m
    → atoi_loop m 0 (reverse cs ++ ys) 0 ≡ atoi_loop m 0 ys (value cs)
unfolding value
atoi-reverse m [] ys h d b = refl
atoi-reverse m (c ∷ cs) ys h d b =
    ap (λ l. atoi_loop m 0 (l ++ ys) 0) (reverse-cons c cs)
    ∙ ap (λ l. atoi_loop m 0 l 0) (append_assoc (reverse cs) (c ∷ []) ys)
    ∙ atoi-reverse m cs (c ∷ ys) h d.1 (omega arith)
    ∙ unfold atoi_loop in ground (arith, atoi_step-digit m (value cs) c)

-- `r` is the digits of `n`.
record Prints (n : ℕ) (r : Option Bytes) : Type 0 where
  text : Bytes
  printed : r ≡ some text
  all_digits : All IsDigit text
  value_is : value text ≡ n

last-IsDigit :
    (n : ℕ)
    → IsDigit (digit_char (n - n / 10 * 10))
      × (n / 10 * 10 + (digit_char (n - n / 10 * 10) - b'0') ≡ n)
last-IsDigit n = ground arith

Prints-last : (fuel n : ℕ) → n / 10 ≡ 0 → Prints n (itoa_loop (suc fuel) n 10)
unfolding itoa_loop value
Prints-last fuel n e = record {
  text = digit_char (n - n / 10 * 10) ∷ [];
  printed = ground arith;
  all_digits = ((last-IsDigit n).0, tt);
  value_is = omega (arith, (last-IsDigit n).1);
}

Prints-more :
    (fuel n : ℕ)
    → n / 10 ≢ 0
    → Prints (n / 10) (itoa_loop fuel (n / 10) 10)
    → Prints n (itoa_loop (suc fuel) n 10)
unfolding itoa_loop value
Prints-more fuel n ne p = record {
  text = digit_char (n - n / 10 * 10) ∷ p.text;
  printed = ground (arith, p.printed);
  all_digits = ((last-IsDigit n).0, p.all_digits);
  value_is = omega (arith, (last-IsDigit n).1, p.value_is);
}

itoa_loop-Prints : (fuel n : ℕ) → n < 10 ^ fuel → Prints n (itoa_loop (suc fuel) n 10)
itoa_loop-Prints zero n h = Prints-last 0 n (omega arith)
itoa_loop-Prints (suc fuel) n h = elim (ℕ_discrete (n / 10) 0) [
  | yes e ↦ Prints-last (suc fuel) n e
  | no ne ↦
      let half : 10 ^ suc fuel ≡ 10 ^ fuel * 10 = pow-suc 10 fuel in
      Prints-more (suc fuel) n ne (itoa_loop-Prints fuel (n / 10) (omega (arith, half)))
]

reverse-All : (cs : Bytes) → All IsDigit cs → All IsDigit (reverse cs)
reverse-All [] d = tt
reverse-All (c ∷ cs) d =
    rw (reverse-cons c cs) (All-append IsDigit (reverse cs) (c ∷ []) (reverse-All cs d.1) (d.0, tt))

-- Printed in base 10, an `unsigned` is one text of digits, and `fast_atoi` at any unsigned type
-- that holds the value (`m` values, 8 bits or more) reads it back, whatever follows the terminator.
pub fast_atoi-itoa :
    (m n : ℕ) (rest : Bytes)
    → 256 ≤ m
    → m ≤ u32
    → n < m
    → (text : Bytes) × (itoa n 10 ≡ some text)
      × All IsDigit text
      × (fast_atoi m 0 (text ++ 0 ∷ rest) ≡ some n)
unfolding itoa fast_atoi
fast_atoi-itoa m n rest lo hi h =
    let p = itoa_loop-Prints 31 n (omega arith) in
    (
      reverse p.text,
      rw p.printed,
      reverse-All p.text p.all_digits,
      atoi-reverse m p.text (0 ∷ rest) lo p.all_digits (omega (arith, p.value_is))
          ∙ unfold atoi_loop in ap some p.value_is,
    )
