-- ===== src/Prelude/Words.antt =====
-- Integers of a fixed width. What happens on overflow depends on the build: with overflow checks
-- (the debug profile) the program panics, without (the release profile) the value wraps.
use towboot_rust.Prelude.Tests.{ltb, leb, if◌then◌else◌}
use towboot_rust.Prelude.Results.{Outcome, ok, panic}
use Prim.Native.Nat.{ℕ, ◌+◌, ◌-◌, ◌%◌, ◌^◌, ◌<◌, ◌≤◌}
use mathlib.Core.Path.{◌≡◌}
use mathlib.Core.Bool.{Bool}
use native.Mathlib.Omega.{arith}

-- The target: the width of `usize` (32 for i686, 64 for x86_64), and the profile.
pub record Target : Type 0 where
  pub usize_bits : ℕ
  pub overflow_checks : Bool

module _ {ℓ} {E : Type ℓ} (t : Target) where
  -- A sum or a product of unsigned words, from its true value.
  unfoldable pub wrap : ℕ → ℕ → Outcome E ℕ
  wrap width n =
      if ltb n (2 ^ width)
      then ok n
      else if t.overflow_checks
      then panic "attempt to compute with overflow"
      else ok (n % 2 ^ width)

  -- A difference of unsigned words.
  unfoldable pub subtract : ℕ → ℕ → ℕ → Outcome E ℕ
  subtract width a b =
      if leb b a
      then ok (a - b)
      else if t.overflow_checks
      then panic "attempt to subtract with overflow"
      else ok (a + 2 ^ width - b)

  -- Without an overflow the profile does not matter.
  pub wrap_of_lt : (width n : ℕ) → n < 2 ^ width → wrap width n ≡ ok n
  unfolding wrap
  wrap_of_lt width n h = ground arith

  pub subtract_of_le : (width a b : ℕ) → b ≤ a → subtract width a b ≡ ok (a - b)
  unfolding subtract
  subtract_of_le width a b h = ground arith

-- `n.try_into().unwrap()` into an unsigned word.
unfoldable pub narrow {ℓ} : {E : Type ℓ} → ℕ → ℕ → Outcome E ℕ
narrow width n = if ltb n (2 ^ width) then ok n else panic "TryFromIntError"

pub narrow_of_lt {ℓ} : {E : Type ℓ} (width n : ℕ) → n < 2 ^ width → narrow {E = E} width n ≡ ok n
unfolding narrow
narrow_of_lt width n h = ground arith

pub narrow-eq-ok {ℓ} :
    {E : Type ℓ} (width n m : ℕ) → narrow {E = E} width n ≡ ok m → (m ≡ n) × (n < 2 ^ width)
unfolding narrow
narrow-eq-ok width n m h = ground arith
