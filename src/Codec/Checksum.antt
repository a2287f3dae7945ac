-- ===== src/Codec/Checksum.antt =====
-- `Message::calc_chksum` and `fmt_chksum` of include/fix8/message.hpp. `calc_chksum` has two
-- bodies: the plain loop, and one that adds eight bytes at a time where `unsigned long` has 64 bits.
-- `from` is the text from `offset` on, `sz` and `len` the arguments (`none` for a length of -1).
pub mod Plain
use Prim.Native.Nat.{bit_and, bit_xor}
use mathlib.Core.Option
use fix.Base.{
  ℕ, zero, suc, ◌+◌, ◌-◌, ◌*◌, ◌/◌, ◌%◌, ◌^◌, Bool, Bytes, Option, none, some, [], ◌∷◌, ◌++◌, ltb,
  if◌then◌else◌, length, take, drop,
}
use fix.Codec.Decimal.{u32, itoa}

abbrev pub u64 : ℕ
u64 = 2 ^ 64

-- `val += *ptr++` of an `unsigned`; a `char` is signed.
abbrev pub add_char : ℕ → ℕ → ℕ → ℕ
add_char m val c = (val + (if ltb c 128 then c else c + m - 256)) % m

unfoldable pub sum_loop : ℕ → Bytes → ℕ → ℕ
sum_loop m [] val = val
sum_loop m (c ∷ s) val = sum_loop m s (add_char m val c)

-- The plain body: from `offset` to `offset + len`, or to `sz`.
unfoldable pub calc_chksum : Bytes → ℕ → ℕ → Option ℕ → ℕ
unfolding sum_loop
calc_chksum from sz offset none = sum_loop u32 (take (sz - offset) (drop offset from)) 0 % 256
calc_chksum from sz offset (some len) = sum_loop u32 (take len (drop offset from)) 0 % 256

-- `unsigned long`, read from eight bytes, the lowest first.
abbrev pub word : ℕ → ℕ → ℕ → ℕ → ℕ → ℕ → ℕ → ℕ → ℕ
word a b c d e f g h =
    a + 256 * (b + 256 * (c + 256 * (d + 256 * (e + 256 * (f + 256 * (g + 256 * h))))))

-- 1UL << 8 | 1UL << 16 | … | 1UL << 56
abbrev pub overflow_mask : ℕ
overflow_mask = 2 ^ 8 + 2 ^ 16 + 2 ^ 24 + 2 ^ 32 + 2 ^ 40 + 2 ^ 48 + 2 ^ 56

pub record Sums : Type 0 where
  pub ret : ℕ
  pub overflow : ℕ

-- One round of the loop over the words.
unfoldable pub add_word : ℕ → Sums → Sums
add_word w s =
    let expected = bit_xor (bit_and s.ret overflow_mask) (bit_and overflow_mask w) in
    let ret = (s.ret + w) % u64 in
    record {
      ret = ret;
      overflow = (s.overflow + bit_and (bit_xor expected ret) overflow_mask) % u64;
    }

abbrev pub collapse : ℕ → ℕ
collapse x =
    (x + x / 2 ^ 8 + x / 2 ^ 16 + x / 2 ^ 24 + x / 2 ^ 32 + x / 2 ^ 40 + x / 2 ^ 48 + x / 2 ^ 56)
    % u64

-- The return, after the bytes that are left over.
abbrev finish : Bytes → Sums → ℕ
finish rest s = (sum_loop u64 rest (collapse s.ret) + u64 - collapse s.overflow) % u64 % 256

-- The words of the text, eight bytes each, as long as there are eight.
unfoldable pub word_loop : Bytes → Sums → ℕ
unfolding add_word sum_loop
word_loop (a ∷ b ∷ c ∷ d ∷ e ∷ f ∷ g ∷ h ∷ s) sums =
    word_loop s (add_word (word a b c d e f g h) sums)
word_loop s sums = finish s sums

-- The wide body. With no length it runs over `sz` bytes from `offset` on.
unfoldable pub calc_chksum_wide : Bytes → ℕ → ℕ → Option ℕ → ℕ
unfolding word_loop
calc_chksum_wide from sz offset none =
    word_loop (take sz (drop offset from)) (record { ret = 0; overflow = 0 })
calc_chksum_wide from sz offset (some len) =
    word_loop (take len (drop offset from)) (record { ret = 0; overflow = 0 })

-- The body that is compiled: the wide one where `unsigned long` has eight bytes.
unfoldable pub compiled_chksum : Bool → Bytes → ℕ → ℕ → Option ℕ → ℕ
unfolding calc_chksum calc_chksum_wide
compiled_chksum wide from sz offset len =
    if wide then calc_chksum_wide from sz offset len else calc_chksum from sz offset len

-- `buf + k`: the digits are written over the zeros from `k` on, with a terminator.
unfoldable pub fmt_chksum : ℕ → Option Bytes
unfolding itoa
fmt_chksum val =
    Option.map
      (λ ds. take (if ltb 99 val then 0 else if ltb 9 val then 1 else 2) (b'0' ∷ b'0' ∷ []) ++ ds)
      (itoa val 10)
