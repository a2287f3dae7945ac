-- ===== src/Traits/Bits.antt =====
-- The bits of an `ebitset`, of include/fix8/f8utils.hpp: what `has` reads after `set` and `clear`.
use native.Mathlib.Nat.{pow-suc, div-div-eq-div-mul}
use fix.Base.{
  ℕ, zero, suc, ◌+◌, ◌-◌, ◌*◌, ◌/◌, ◌%◌, ◌^◌, ◌≤◌, ◌≡◌, ap, sym, ◌∙◌, true, false, ◌==◌,
  if◌then◌else◌, arith, Bool-cases, inl, inr,
}
use fix.Traits.Fields.{has_bit, set_bit, clear_bit}

has_bit-suc : (s a : ℕ) → has_bit (suc s) a ≡ has_bit s (a / 2)
unfolding has_bit
has_bit-suc s a =
    let half : a / 2 / 2 ^ s ≡ a / (2 * 2 ^ s) = div-div-eq-div-mul a 2 (2 ^ s) in
    let power : 2 ^ suc s ≡ 2 * 2 ^ s = omega (arith, pow-suc 2 s) in
    ap (λ n. a / n % 2 == 1) power ∙ ap (λ n. n % 2 == 1) (sym half)

has_bit-zero : (a : ℕ) → has_bit 0 a ≡ (a % 2 == 1)
unfolding has_bit
has_bit-zero a = ground arith

-- Adding a power of two that is not there.
has_bit-add :
    (t u a : ℕ)
    → has_bit u a ≡ false
    → has_bit t (a + 2 ^ u) ≡ (if t == u then true else has_bit t a)
has_bit-add zero zero a h = ground (arith, has_bit-zero a, has_bit-zero (a + 1))
has_bit-add zero (suc u) a h =
    ground (arith, pow-suc 2 u, has_bit-zero a, has_bit-zero (a + 2 ^ suc u))
has_bit-add (suc t) zero a h =
    let same : (a + 1) / 2 ≡ a / 2 = ground (arith, has_bit-zero a, h) in
    has_bit-suc t (a + 1) ∙ ap (has_bit t) same ∙ sym (has_bit-suc t a) ∙ ground arith
has_bit-add (suc t) (suc u) a h =
    let half : (a + 2 ^ suc u) / 2 ≡ a / 2 + 2 ^ u = omega (arith, pow-suc 2 u) in
    has_bit-suc t (a + 2 ^ suc u)
    ∙ ap (has_bit t) half
    ∙ has_bit-add t u (a / 2) (sym (has_bit-suc u a) ∙ h)
    ∙ ground (arith, has_bit-suc t a)

pub has_bit-set_bit : (t u a : ℕ) → has_bit t (set_bit u a) ≡ (if t == u then true else has_bit t a)
unfolding set_bit
has_bit-set_bit t u a = elim (Bool-cases (has_bit u a)) [
  | inl c ↦ ground (arith, c)
  | inr c ↦ ground (arith, c, has_bit-add t u a c)
]

-- Taking off one that is there.
has_bit-sub : (u a : ℕ) → has_bit u a ≡ true → (2 ^ u ≤ a) × (has_bit u (a - 2 ^ u) ≡ false)
has_bit-sub zero a h = ground (arith, has_bit-zero a, has_bit-zero (a - 1))
has_bit-sub (suc u) a h =
    let (le, gone) = has_bit-sub u (a / 2) (sym (has_bit-suc u a) ∙ h) in
    let half : (a - 2 ^ suc u) / 2 ≡ a / 2 - 2 ^ u = omega (arith, pow-suc 2 u, le) in
    (omega (arith, pow-suc 2 u, le), has_bit-suc u (a - 2 ^ suc u) ∙ ap (has_bit u) half ∙ gone)

pub has_bit-clear_bit :
    (t u a : ℕ) → has_bit t (clear_bit u a) ≡ (if t == u then false else has_bit t a)
unfolding clear_bit
has_bit-clear_bit t u a = elim (Bool-cases (has_bit u a)) [
  | inl c ↦
      let (le, gone) = has_bit-sub u a c in
      let whole : a - 2 ^ u + 2 ^ u ≡ a = omega (arith, le) in
      let back : has_bit t a ≡ (if t == u then true else has_bit t (a - 2 ^ u)) =
        ap (has_bit t) (sym whole) ∙ has_bit-add t u (a - 2 ^ u) gone in
      ground (arith, c, back, gone)
  | inr c ↦ ground (arith, c)
]
