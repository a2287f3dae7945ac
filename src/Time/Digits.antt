-- ===== src/Time/Digits.antt =====
-- `parse_decimal` reads what `format0` writes.
use native.Mathlib.Nat.{pow-suc}
use fix.Base.{
  ℕ, zero, suc, ◌+◌, ◌-◌, ◌*◌, ◌/◌, ◌%◌, ◌^◌, ◌<◌, ◌≡◌, refl, ap, ◌∙◌, Bytes, some, [], ◌∷◌, ◌++◌,
  ◌>>=◌, arith, append_assoc, length, length-append,
}
use fix.Codec.Decimal.{char_value}
use fix.Time.Int.{ints, add, mul}
use fix.Time.Text.{format0, parse_decimal}

pub length-format0 : (n width : ℕ) → length (format0 n width) ≡ width
unfolding format0
length-format0 n zero = refl
length-format0 n (suc width) = omega (
  arith,
  length-append (format0 (n / 10) width) ((n % 10 + b'0') ∷ []),
  length-format0 (n / 10) width,
)

-- One round, on a digit.
parse_decimal-digit :
    (d to : ℕ) (rest : Bytes)
    → d < 10
    → to < 10 ^ 8
    → parse_decimal 1 ((d + b'0') ∷ rest) to ≡ some (to * 10 + d, rest)
unfolding parse_decimal
parse_decimal-digit d to rest h k = ground arith

parse_decimal-last :
    (width : ℕ) (from : Bytes) (to : ℕ)
    → parse_decimal (suc width) from to
      ≡ (parse_decimal width from to >>= λ read. parse_decimal 1 read.1 read.0)
unfolding parse_decimal
parse_decimal-last zero from to = refl
parse_decimal-last (suc width) [] to = refl
parse_decimal-last (suc width) (c ∷ from) to =
    parse_decimal-last width from
      (add (add (mul to 8) (mul to 2)) ((char_value ints c + ints - b'0') % ints))

-- A number below 10 ^ 9 that is printed with leading zeros, in a width that holds it, is read back,
-- and exactly its digits are taken from the buffer.
pub parse_decimal-format0 :
    (width n : ℕ) (rest : Bytes)
    → n < 10 ^ width
    → n < 10 ^ 9
    → parse_decimal width (format0 n width ++ rest) 0 ≡ some (n, rest)
unfolding format0
parse_decimal-format0 zero n rest h k = unfold parse_decimal in ground arith
parse_decimal-format0 (suc width) n rest h k =
    let tens : 10 ^ suc width ≡ 10 ^ width * 10 = pow-suc 10 width in
    let shorter =
      parse_decimal-format0 width (n / 10) ((n % 10 + b'0') ∷ rest) (omega (arith, tens, h))
        (omega (arith, k)) in
    rw
      (
        append_assoc (format0 (n / 10) width) ((n % 10 + b'0') ∷ []) rest,
        parse_decimal-last width,
        shorter,
      )
      (parse_decimal-digit (n % 10) (n / 10) rest (omega arith) (omega (arith, k))
        ∙ ap (λ v. some (v, rest)) (omega arith))
