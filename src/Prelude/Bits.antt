-- ===== src/Prelude/Bits.antt =====
-- Single bits of a word: what `&` and `|` do to them, at every position.
mod Digits
pub mod Masks
use Digits.{bit_or_digit, bit_and_digit, bit_and-zero}
use Prim.Native.Nat.{ℕ, zero, suc, ◌+◌, ◌*◌, ◌/◌, ◌%◌, ◌^◌, ◌≤◌, ◌<◌, min, max, bit_and, bit_or}
use mathlib.Core.Path.{◌≡◌, refl, ap, sym, ◌∙◌}
use native.Mathlib.Nat.{pow-suc, mul_assoc, add-zero, add-suc as add-suc_lem}
use native.Mathlib.Omega.{arith}

-- The bit at a position, 0 or 1.
unfoldable pub bit : ℕ → ℕ → ℕ
bit a zero = a % 2
bit a (suc k) = bit (a / 2) k

pub bit-lt_two : (a k : ℕ) → bit a k < 2
unfolding bit
bit-lt_two a zero = omega arith
bit-lt_two a (suc k) = bit-lt_two (a / 2) k

pub bit-bit_or : (x y k : ℕ) → bit (bit_or x y) k ≡ max (bit x k) (bit y k)
unfolding bit
bit-bit_or x y zero = omega (arith, bit_or_digit x y)
bit-bit_or x y (suc k) =
    ap (λ d. bit d k) (omega (arith, bit_or_digit x y)) ∙ bit-bit_or (x / 2) (y / 2) k

pub bit-bit_and : (x y k : ℕ) → bit (bit_and x y) k ≡ min (bit x k) (bit y k)
unfolding bit
bit-bit_and x y zero = omega (arith, bit_and_digit x y)
bit-bit_and x y (suc k) =
    ap (λ d. bit d k) (omega (arith, bit_and_digit x y)) ∙ bit-bit_and (x / 2) (y / 2) k

pub bit-zero : (k : ℕ) → bit 0 k ≡ 0
unfolding bit
bit-zero zero = refl
bit-zero (suc k) = bit-zero k

half-pow : (k : ℕ) → 2 ^ suc k / 2 ≡ 2 ^ k
half-pow k = omega (arith, pow-suc 2 k)

even-pow : (k : ℕ) → 2 ^ suc k % 2 ≡ 0
even-pow k = omega (arith, pow-suc 2 k)

-- Masking with a single bit leaves that bit, in its place.
pub bit_and_pow : (a k : ℕ) → bit_and a (2 ^ k) ≡ bit a k * 2 ^ k
unfolding bit
bit_and_pow a zero = omega (arith, bit_and_digit a 1, bit_and-zero (a / 2))
bit_and_pow a (suc k) =
    bit_and_digit a (2 ^ suc k)
    ∙ rw (half-pow k, even-pow k, bit_and_pow (a / 2) k, pow-suc 2 k)
        (omega (arith, mul_assoc (bit (a / 2) k) (2 ^ k) 2))

-- A bit above the position does not matter.
pub bit-add_pow : (a d k : ℕ) → bit (a + 2 ^ (suc d + k)) k ≡ bit a k
unfolding bit
bit-add_pow a d zero = omega (arith, even-pow d, ap (λ (t : ℕ). 2 ^ t) (add-zero (suc d)))
bit-add_pow a d (suc k) =
    ap (λ t. bit t k)
      (omega (arith, half-pow (suc d + k), ap (λ (t : ℕ). 2 ^ t) (add-suc_lem (suc d) k)))
    ∙ bit-add_pow (a / 2) d k
