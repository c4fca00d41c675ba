-- ===== src/Prelude/Bits/Digits.antt =====
-- `&` and `|` at the lowest binary digit, from the recursion that the native operations stand for.
use Prim.Native.Nat.{min, max, digits, bitwise, bit_and-bitwise, bit_or-bitwise}
use Prim.Native.Nat.{ℕ, zero, suc, ◌+◌, ◌*◌, ◌/◌, ◌%◌, ◌≤◌, bit_and, bit_or}
use mathlib.Core.Path.{◌≡◌, refl}
use native.Mathlib.Nat.{le_refl}
use native.Mathlib.Omega.{arith}

module _ (end : ℕ → ℕ) (op : ℕ → ℕ → ℕ) where
  -- Fuel above the first number changes nothing.
  digits-fuel : (x y k l : ℕ) → x ≤ k → x ≤ l → digits end op k x y ≡ digits end op l x y
  digits-fuel zero y zero zero p q = refl
  digits-fuel zero y zero (suc l) p q = refl
  digits-fuel zero y (suc k) zero p q = refl
  digits-fuel zero y (suc k) (suc l) p q = refl
  digits-fuel (suc x) y zero l p q = absurd (omega arith)
  digits-fuel (suc x) y (suc k) zero p q = absurd (omega arith)
  digits-fuel (suc x) y (suc k) (suc l) p q =
      rw (digits-fuel (suc x / 2) (y / 2) k l (omega arith) (omega arith))

  bitwise-digit :
      (x y : ℕ)
      → bitwise end op (suc x) y ≡ bitwise end op (suc x / 2) (y / 2) * 2 + op (suc x % 2) (y % 2)
  bitwise-digit x y =
      omega (arith, digits-fuel (suc x / 2) (y / 2) x (suc x / 2) (omega arith) (le_refl _))

pub bit_and_digit : (x y : ℕ) → bit_and x y ≡ bit_and (x / 2) (y / 2) * 2 + min (x % 2) (y % 2)
bit_and_digit zero y = simp bit_and-bitwise (omega arith)
bit_and_digit (suc x) y = simp bit_and-bitwise (bitwise-digit (λ _. 0) min x y)

-- Nothing is left under the mask 0, however many digits are looked at.
masked : (x rounds : ℕ) → x ≤ rounds → bit_and x 0 ≡ 0
masked zero rounds small = refl
masked (suc x) zero small = absurd (omega arith)
masked (suc x) (suc rounds) small =
    omega (arith, masked (suc x / 2) rounds (omega arith), bit_and_digit (suc x) 0)

pub bit_and-zero : (x : ℕ) → bit_and x 0 ≡ 0
bit_and-zero x = masked x x (le_refl x)

pub bit_or_digit : (x y : ℕ) → bit_or x y ≡ bit_or (x / 2) (y / 2) * 2 + max (x % 2) (y % 2)
bit_or_digit zero y = simp bit_or-bitwise (omega arith)
bit_or_digit (suc x) y = simp bit_or-bitwise (bitwise-digit (λ t. t) max x y)
