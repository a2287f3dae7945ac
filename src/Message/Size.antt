-- ===== src/Message/Size.antt =====
-- The number of digits that the encoding expects of a length is the number that `itoa` writes.
use mathlib.Core.List.{reverse, reverse-cons}
use native.Mathlib.Nat.{pow-suc}
use fix.Base.{
  ℕ, zero, suc, ◌*◌, ◌/◌, ◌^◌, ◌<◌, ◌≤◌, ◌≡◌, refl, ap, ◌∙◌, sym, Bytes, some, [], ◌∷◌, length,
  length-append, arith, Option-cases, inl, inr, dec_lt,
}
use fix.Codec.Decimal.{itoa, itoa_loop}
use fix.Message.Encode.{digits}

-- `n` has `k + 1` digits.
abbrev Has : ℕ → ℕ → Type 0
Has k n = (10 ^ k ≤ n) × (n < 10 ^ suc k)

pow_positive : (k : ℕ) → 1 ≤ 10 ^ k
pow_positive zero = omega arith
pow_positive (suc k) = omega (arith, pow-suc 10 k, pow_positive k)

length-itoa_loop :
    (fuel k n : ℕ) (text : Bytes)
    → Has k n
    → itoa_loop (suc fuel) n 10 ≡ some text
    → length text ≡ suc k
unfolding itoa_loop
length-itoa_loop fuel zero n text h e = ground arith
length-itoa_loop zero (suc k) n text h e =
    let big : 10 ^ suc k ≡ 10 ^ k * 10 = pow-suc 10 k in
    absurd (ground (arith, h, big, pow_positive k))
length-itoa_loop (suc fuel) (suc k) n text h e =
    let big : 10 ^ suc k ≡ 10 ^ k * 10 = pow-suc 10 k in
    let bigger : 10 ^ suc (suc k) ≡ 10 ^ suc k * 10 = pow-suc 10 (suc k) in
    elim (Option-cases (itoa_loop (suc fuel) (n / 10) 10)) [
      | inl gone ↦ absurd (ground (arith, h, big, pow_positive k, gone))
      | inr (more, is) ↦
          let shorter =
            length-itoa_loop fuel k (n / 10) more
              (omega (arith, h, big), omega (arith, h, big, bigger)) is in
          ground (arith, h, big, pow_positive k, is, shorter)
    ]

length-reverse : (s : Bytes) → length (reverse s) ≡ length s
length-reverse [] = refl
length-reverse (c ∷ s) =
    ap length (reverse-cons c s)
    ∙ length-append (reverse s) (c ∷ [])
    ∙ omega (arith, length-reverse s)

digits-Has : (n : ℕ) → 1 ≤ n → n < 10 ^ 7 → (k : ℕ) × (digits n ≡ suc k) × Has k n
digits-Has n lo hi = elim (dec_lt n 10) [
  | yes h ↦ (0, ground arith, (lo, h))
  | no h1 ↦ elim (dec_lt n 100) [
    | yes h ↦ (1, ground arith, (omega arith, h))
    | no h2 ↦ elim (dec_lt n 1000) [
      | yes h ↦ (2, ground arith, (omega arith, h))
      | no h3 ↦ elim (dec_lt n 10000) [
        | yes h ↦ (3, ground arith, (omega arith, h))
        | no h4 ↦ elim (dec_lt n 100000) [
          | yes h ↦ (4, ground arith, (omega arith, h))
          | no h5 ↦ elim (dec_lt n 1000000) [
            | yes h ↦ (5, ground arith, (omega arith, h))
            | no h6 ↦ (6, ground arith, (omega arith, hi))
          ]
        ]
      ]
    ]
  ]
]

-- The text that `itoa` writes for a number from 1 to 9,999,999 has `digits` characters.
pub length-itoa :
    (n : ℕ) (text : Bytes) → 1 ≤ n → n < 10 ^ 7 → itoa n 10 ≡ some text → length text ≡ digits n
unfolding itoa
length-itoa n text lo hi e =
    let (k, size, has) = digits-Has n lo hi in
    elim (Option-cases (itoa_loop 32 n 10)) [
      | inl gone ↦ absurd (ground (arith, gone))
      | inr (back, is) ↦
          let turned : text ≡ reverse back = ground (arith, is) in
          ap length turned ∙ length-reverse back ∙ length-itoa_loop 31 k n back has is ∙ sym size
    ]
