-- ===== src/Video/Color/Top.antt =====
-- src/boot/video.rs: which bits of a mask the loops read.

use mathlib.Core.Path.{subst}
use towboot_rust.Prelude.{ℕ, zero, suc, ◌+◌, ◌-◌, ◌^◌, ◌≤◌, ◌<◌, ◌≡◌, refl, inl, inr}
use towboot_rust.Prelude.{arith, ap, sym, ◌∙◌, ◌==◌}
use towboot_rust.Prelude.Bits.{bit, bit-add_pow}
use towboot_rust.Video.Color.{check_bit, first_set, count_run, rest_clear, parse_color_bitmap}
use towboot_rust.Video.Color.Depth.{check_bit-bit}
use towboot_rust.Video.Color.Loops.{first_set-cases, count_run_lem}

-- Two words that agree on the bits 0 to 30.
Agree : ℕ → ℕ → Type 0
Agree a b = (i : ℕ) → i < 31 → check_bit a i ≡ check_bit b i

first_set-Agree : (a b n i : ℕ) → Agree a b → i + n ≤ 31 → first_set a n i ≡ first_set b n i
unfolding first_set Agree
first_set-Agree a b zero i h fits = refl
first_set-Agree a b (suc n) i h fits =
    rw (h i (omega arith), first_set-Agree a b n (i + 1) h (omega arith))

count_run-Agree :
    (a b n i size : ℕ) → Agree a b → i + n ≤ 31 → count_run a n i size ≡ count_run b n i size
unfolding count_run Agree
count_run-Agree a b zero i size h fits = refl
count_run-Agree a b (suc n) i size h fits =
    rw (h i (omega arith), count_run-Agree a b n (i + 1) (size + 1) h (omega arith))

rest_clear-Agree : (a b n i : ℕ) → Agree a b → i + n ≤ 31 → rest_clear a n i ≡ rest_clear b n i
unfolding rest_clear Agree
rest_clear-Agree a b zero i h fits = refl
rest_clear-Agree a b (suc n) i h fits =
    rw (h i (omega arith), rest_clear-Agree a b n (i + 1) h (omega arith))

Agree-top : (m : ℕ) → Agree (m + 2 ^ 31) m
unfolding Agree
Agree-top m i h = check_bit-bit (m + 2 ^ 31) i ∙ ap (λ t. t == 1) same ∙ sym (check_bit-bit m i)
  where
    same : bit (m + 2 ^ 31) i ≡ bit m i
    same =
        subst (λ t. bit (m + 2 ^ t) i ≡ bit m i) {y = 31} (omega arith) (bit-add_pow m (30 - i) i)

first_set-le : (m n i : ℕ) → i + n ≤ 31 → first_set m n i ≤ 31
first_set-le m n i h = elim (first_set-cases m n i) [
  | inl f ↦ omega (arith, f.high)
  | inr (z, c) ↦ omega (arith, z)
]

-- A mask gives the same field, or the same panic, with bit 31 added to it as without: the topmost
-- bit is never looked at.
pub parse_color_bitmap-ignores_top :
    (m : ℕ) → parse_color_bitmap (m + 2 ^ 31) ≡ parse_color_bitmap m
unfolding parse_color_bitmap
parse_color_bitmap-ignores_top m =
    let p = first_set m 31 0 in
    let (r, e, run) = count_run_lem m (31 - p) p 0 in
    let fits = first_set-le m 31 0 (omega arith) in
    rw
      (
        first_set-Agree (m + 2 ^ 31) m 31 0 (Agree-top m) (omega arith),
        count_run-Agree (m + 2 ^ 31) m (31 - p) p 0 (Agree-top m) (omega (arith, fits)),
        rest_clear-Agree (m + 2 ^ 31) m (31 - (p + count_run m (31 - p) p 0))
            (p + count_run m (31 - p) p 0) (Agree-top m) (omega (arith, e, run.fits, fits)),
      )
      refl
