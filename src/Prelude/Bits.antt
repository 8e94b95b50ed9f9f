-- ===== src/Prelude/Bits.antt =====
-- Masks and disjoint fields as arithmetic.
use Prim.Native.Nat.{
  ℕ, zero, suc, ◌+◌, ◌*◌, ◌/◌, ◌%◌, ◌^◌, ◌≤◌, ◌<◌, min, max, digits, bit_and, bit_or,
  bit_and-bitwise, bit_or-bitwise,
}
use mathlib.Core.Path.{◌≡◌, refl, ap}
use mathlib.Core.Bool.{Bool, true, ◌&&◌}
use native.Mathlib.Nat.{pow-suc}
use native.Mathlib.Omega.{arith}
use roboparty_rp_server.Prelude.Tests.{nat_beq, nat_beq_iff, ltb}

-- Enough digits are enough: the result of the digit loop does not depend on its bound.
module _ (z : ℕ → ℕ) (f : ℕ → ℕ → ℕ) where
  digits_bound : (n m a b : ℕ) → a ≤ n → a ≤ m → digits z f n a b ≡ digits z f m a b
  digits_bound zero zero a b p q = refl
  digits_bound zero (suc m) zero b p q = refl
  digits_bound zero (suc m) (suc a) b p q = absurd (omega arith)
  digits_bound (suc n) zero zero b p q = refl
  digits_bound (suc n) zero (suc a) b p q = absurd (omega arith)
  digits_bound (suc n) (suc m) zero b p q = refl
  digits_bound (suc n) (suc m) (suc a) b p q =
      omega (arith, digits_bound n m (suc a / 2) (b / 2) (omega arith) (omega arith))

zero-bit_or : (b : ℕ) → bit_or 0 b ≡ b
zero-bit_or b = bit_or-bitwise 0 b

zero-bit_and : (b : ℕ) → bit_and 0 b ≡ 0
zero-bit_and b = bit_and-bitwise 0 b

bit_or_digit : (a b : ℕ) → bit_or a b ≡ bit_or (a / 2) (b / 2) * 2 + max (a % 2) (b % 2)
bit_or_digit zero b = omega (arith, zero-bit_or b, zero-bit_or (b / 2))
bit_or_digit (suc a) b = omega (
  arith,
  bit_or-bitwise (suc a) b,
  bit_or-bitwise (suc a / 2) (b / 2),
  digits_bound (λ b. b) max a (suc a / 2) (suc a / 2) (b / 2) (omega arith) (omega arith),
)

bit_and_digit : (a b : ℕ) → bit_and a b ≡ bit_and (a / 2) (b / 2) * 2 + min (a % 2) (b % 2)
bit_and_digit zero b = omega (arith, zero-bit_and b, zero-bit_and (b / 2))
bit_and_digit (suc a) b = omega (
  arith,
  bit_and-bitwise (suc a) b,
  bit_and-bitwise (suc a / 2) (b / 2),
  digits_bound (λ b. zero) min a (suc a / 2) (suc a / 2) (b / 2) (omega arith) (omega arith),
)

-- `a | (g << s)` is a sum when `a` fits `s` bits.
pub bit_or_high : (s a g : ℕ) → a < 2 ^ s → bit_or a (g * 2 ^ s) ≡ a + g * 2 ^ s
bit_or_high zero a g h = ground (arith, zero-bit_or g)
bit_or_high (suc s) a g h =
    let double : g * 2 ^ suc s ≡ 2 * (g * 2 ^ s) =
      omega (arith, ap (λ (t : ℕ). g * t) (pow-suc 2 s)) in
    ground (
      arith,
      double,
      pow-suc 2 s,
      bit_or_digit a (g * 2 ^ suc s),
      bit_or_high s (a / 2) g (omega (arith, pow-suc 2 s)),
    )

-- `v & 0x7F`, at every `v`.
bit_and_zero_below : (n a : ℕ) → a ≤ n → bit_and a 0 ≡ 0
bit_and_zero_below n zero h = refl
bit_and_zero_below zero (suc a) h = elim h [ ]
bit_and_zero_below (suc n) (suc a) h =
    omega (arith, bit_and_digit (suc a) 0, bit_and_zero_below n (suc a / 2) (omega arith))

bit_and_three : (v : ℕ) → bit_and v 3 ≡ v % 4
bit_and_three v = omega (
  arith,
  bit_and_digit v 3,
  bit_and_digit (v / 2) 1,
  bit_and_zero_below (v / 2 / 2) (v / 2 / 2) (omega arith),
)

bit_and_fifteen : (v : ℕ) → bit_and v 15 ≡ v % 16
bit_and_fifteen v =
    omega (arith, bit_and_digit v 15, bit_and_digit (v / 2) 7, bit_and_three (v / 2 / 2))

pub bit_and_low : (v : ℕ) → bit_and v 0x7f ≡ v % 128
bit_and_low v = omega (
  arith,
  bit_and_digit v 127,
  bit_and_digit (v / 2) 63,
  bit_and_digit (v / 2 / 2) 31,
  bit_and_fifteen (v / 2 / 2 / 2),
)

-- A statement about each byte is checked by evaluation.
holds_below : (ℕ → Bool) → ℕ → Bool
holds_below test zero = true
holds_below test (suc bound) = holds_below test bound && test bound

holds_below_sound :
    (test : ℕ → Bool) (bound value : ℕ)
    → value < bound
    → holds_below test bound ≡ true
    → test value ≡ true
unfolding holds_below
holds_below_sound test zero value under checked = elim under [ ]
holds_below_sound test (suc bound) value under checked =
    ground (arith, holds_below_sound test bound value)

abbrev top_bit_value : ℕ → ℕ
top_bit_value b = elim (ltb b 128) [ true ↦ 0 | _ ↦ 128 ]

top_bit_table : holds_below (λ b. nat_beq (bit_and b 0x80) (top_bit_value b)) 256 ≡ true
unfolding holds_below
top_bit_table = refl

-- `b & 0x80` of a byte tells whether it is at least 128.
pub top_bit : (b : ℕ) → b < 256 → bit_and b 0x80 ≡ top_bit_value b
top_bit b h = (nat_beq_iff _ _).0 (holds_below_sound _ 256 b h top_bit_table)
