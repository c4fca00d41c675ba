-- ===== src/Prelude/Bits/Masks.antt =====
-- Masks that clear one bit of a word, and the low bits of a number.
use Prim.Native.Nat.{ℕ, zero, suc, ◌+◌, ◌-◌, ◌*◌, ◌/◌, ◌%◌, ◌^◌, ◌<◌, bit_and}
use mathlib.Core.Path.{◌≡◌, refl, ap, sym, ◌∙◌}
use mathlib.Core.Logic.{◌≢◌}
use native.Mathlib.Nat.{pow-suc, mul_assoc, mod-add-div'}
use native.Mathlib.Omega.{arith}
use towboot_rust.Prelude.Bits.{bit, bit-bit_and, bit-lt_two}

pow-pos : (w : ℕ) → 0 < 2 ^ w
pow-pos zero = omega arith
pow-pos (suc w) = omega (arith, pow-suc 2 w, pow-pos w)

pow-lt : (k w : ℕ) → k < w → 2 ^ k < 2 ^ w
pow-lt zero (suc w) h = omega (arith, pow-suc 2 w, pow-pos w)
pow-lt (suc k) (suc w) h = omega (arith, pow-suc 2 w, pow-suc 2 k, pow-lt k w (omega arith))
pow-lt k zero h = absurd (omega arith)

-- `!(1 << k)` in `w` bits.
abbrev pub all_but : ℕ → ℕ → ℕ
all_but w k = 2 ^ w - 1 - 2 ^ k

bit-ones : (w j : ℕ) → j < w → bit (2 ^ w - 1) j ≡ 1
unfolding bit
bit-ones zero j h = absurd (omega arith)
bit-ones (suc w) zero h = omega (arith, pow-suc 2 w, pow-pos w)
bit-ones (suc w) (suc j) h =
    ap (λ x. bit x j) (omega (arith, pow-suc 2 w, pow-pos w)) ∙ bit-ones w j (omega arith)

bit-all_but_same : (w k : ℕ) → k < w → bit (all_but w k) k ≡ 0
unfolding bit
bit-all_but_same zero k h = absurd (omega arith)
bit-all_but_same (suc w) zero h = omega (arith, pow-suc 2 w, pow-pos w)
bit-all_but_same (suc w) (suc k) h =
    ap (λ x. bit x k) (omega (arith, pow-suc 2 w, pow-suc 2 k, pow-lt k w (omega arith)))
    ∙ bit-all_but_same w k (omega arith)

bit-all_but_other : (w k j : ℕ) → k < w → j < w → j ≢ k → bit (all_but w k) j ≡ 1
unfolding bit
bit-all_but_other zero k j h l n = absurd (omega arith)
bit-all_but_other (suc w) zero zero h l n = absurd (n refl)
bit-all_but_other (suc w) zero (suc j) h l n =
    ap (λ x. bit x j) (omega (arith, pow-suc 2 w, pow-pos w)) ∙ bit-ones w j (omega arith)
bit-all_but_other (suc w) (suc k) zero h l n =
    omega (arith, pow-suc 2 w, pow-suc 2 k, pow-lt k w (omega arith))
bit-all_but_other (suc w) (suc k) (suc j) h l n =
    ap (λ x. bit x j) (omega (arith, pow-suc 2 w, pow-suc 2 k, pow-lt k w (omega arith)))
    ∙ bit-all_but_other w k j (omega arith) (omega arith) (λ e. n (ap suc e))

-- The mask clears the bit.
pub bit-clear_same : (w x k : ℕ) → k < w → bit (bit_and x (all_but w k)) k ≡ 0
bit-clear_same w x k h = omega (arith, bit-bit_and x (all_but w k) k, bit-all_but_same w k h)

-- The mask leaves the other bits of the word.
pub bit-clear_other :
    (w x k j : ℕ) → k < w → j < w → j ≢ k → bit (bit_and x (all_but w k)) j ≡ bit x j
bit-clear_other w x k j h l n =
    omega (arith, bit-bit_and x (all_but w k) j, bit-all_but_other w k j h l n, bit-lt_two x j)

double-pow : (q w : ℕ) → q * 2 ^ suc w ≡ q * 2 ^ w * 2
double-pow q w = rw (pow-suc 2 w, mul_assoc q (2 ^ w) 2) refl

-- What is added above the low bits does not change them.
pub bit-add_high : (w b q j : ℕ) → j < w → bit (b + q * 2 ^ w) j ≡ bit b j
unfolding bit
bit-add_high zero b q j h = absurd (omega arith)
bit-add_high (suc w) b q zero h = omega (arith, double-pow q w)
bit-add_high (suc w) b q (suc j) h =
    ap (λ x. bit x j) (omega (arith, double-pow q w)) ∙ bit-add_high w (b / 2) q j (omega arith)

-- The low bits are those of the remainder.
pub bit-mod_pow : (w a j : ℕ) → j < w → bit (a % 2 ^ w) j ≡ bit a j
bit-mod_pow w a j h =
    sym (bit-add_high w (a % 2 ^ w) (a / 2 ^ w) j h) ∙ ap (λ x. bit x j) (mod-add-div' a (2 ^ w))
