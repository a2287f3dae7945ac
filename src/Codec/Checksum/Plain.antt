-- ===== src/Codec/Checksum/Plain.antt =====
-- The plain checksum and its print.
use fix.Base.{ℕ, ◌+◌, ◌-◌, ◌/◌, ◌%◌, ◌≡◌, Bytes, none, some, [], ◌∷◌, All, take, drop, arith, ◌<◌}
use fix.Codec.Decimal.{u32}
use fix.Codec.Checksum.{u64, add_char, calc_chksum, sum_loop, fmt_chksum}

-- The sum of bytes.
abbrev pub sum : Bytes → ℕ
sum [] = 0
sum (c ∷ s) = c + sum s

add_char-mod :
    (val c : ℕ)
    → c < 256
    → (add_char u32 val c % 256 ≡ (val + c) % 256) × (add_char u64 val c % 256 ≡ (val + c) % 256)
add_char-mod val c h = ground arith

abbrev pub AreBytes : Bytes → Type 0
AreBytes = All (λ c. c < 256)

sum_loop-sum : (s : Bytes) (val : ℕ) → AreBytes s → sum_loop u32 s val % 256 ≡ (val + sum s) % 256
unfolding sum_loop
sum_loop-sum [] val h = omega arith
sum_loop-sum (c ∷ s) val h =
    omega (arith, (add_char-mod val c h.0).0, sum_loop-sum s (add_char u32 val c) h.1)

pub sum_loop64-sum :
    (s : Bytes) (val : ℕ) → AreBytes s → sum_loop u64 s val % 256 ≡ (val + sum s) % 256
unfolding sum_loop
sum_loop64-sum [] val h = omega arith
sum_loop64-sum (c ∷ s) val h =
    omega (arith, (add_char-mod val c h.0).1, sum_loop64-sum s (add_char u64 val c) h.1)

AreBytes-drop : (n : ℕ) (s : Bytes) → AreBytes s → AreBytes (drop n s)
AreBytes-drop ℕ.zero s h = h
AreBytes-drop (ℕ.suc n) [] h = tt
AreBytes-drop (ℕ.suc n) (c ∷ s) h = AreBytes-drop n s h.1

AreBytes-take : (n : ℕ) (s : Bytes) → AreBytes s → AreBytes (take n s)
AreBytes-take ℕ.zero s h = tt
AreBytes-take (ℕ.suc n) [] h = tt
AreBytes-take (ℕ.suc n) (c ∷ s) h = (h.0, AreBytes-take n s h.1)

part :
    (n offset : ℕ) (s : Bytes)
    → AreBytes s
    → sum_loop u32 (take n (drop offset s)) 0 % 256 ≡ sum (take n (drop offset s)) % 256
part n offset s h =
    omega (
      arith,
      sum_loop-sum (take n (drop offset s)) 0 (AreBytes-take n _ (AreBytes-drop offset s h)),
    )

-- The plain body returns the sum of the bytes modulo 256: of the `len` bytes from `offset` on, or,
-- with no length, of those from `offset` to `sz`.
pub calc_chksum-sum :
    (s : Bytes) (sz offset len : ℕ)
    → AreBytes s
    → (calc_chksum s sz offset (some len) ≡ sum (take len (drop offset s)) % 256)
      × (calc_chksum s sz offset none ≡ sum (take (sz - offset) (drop offset s)) % 256)
unfolding calc_chksum
calc_chksum-sum s sz offset len h = (part len offset s h, part (sz - offset) offset s h)

-- The print of a checksum is its three decimal digits, zeros in front included.
pub fmt_chksum-digits :
    (val : ℕ)
    → val < 256
    → fmt_chksum val ≡ some ((b'0' + val / 100) ∷ (b'0' + val / 10 % 10) ∷ (b'0' + val % 10) ∷ [])
unfolding fmt_chksum
fmt_chksum-digits val h = ground arith
