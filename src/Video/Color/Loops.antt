-- ===== src/Video/Color/Loops.antt =====
-- src/boot/video.rs: what the loops of `parse_color_bitmap` compute.
use towboot_rust.Prelude.{ℕ, zero, suc, ◌+◌, ◌≤◌, ◌<◌, ◌≡◌, refl, ◌⊎◌, inl, inr, true, false}
use towboot_rust.Prelude.{arith, Bool-cases, ap, ◌∙◌}
use native.Mathlib.Nat.{add-zero}
use towboot_rust.Video.Color.{check_bit, first_set, count_run, rest_clear}

-- No bit from `i` up to `j` is set; every bit is.
abbrev pub Clear : ℕ → ℕ → ℕ → Type 0
Clear bitmask i j = (k : ℕ) → i ≤ k → k < j → check_bit bitmask k ≡ false

abbrev pub Full : ℕ → ℕ → ℕ → Type 0
Full bitmask i j = (k : ℕ) → i ≤ k → k < j → check_bit bitmask k ≡ true

Clear-step : (m i j : ℕ) → check_bit m i ≡ false → Clear m (i + 1) j → Clear m i j
Clear-step m i j h c k p q = elim (Bool-cases (check_bit m k)) [
  | inl t ↦ ground (arith, c k)
  | inr f ↦ f
]

Full-step : (m i j : ℕ) → check_bit m i ≡ true → Full m (i + 1) j → Full m i j
Full-step m i j h c k p q = elim (Bool-cases (check_bit m k)) [
  | inl t ↦ t
  | inr f ↦ ground (arith, c k)
]

-- The first loop stops at the first set bit, or leaves 0 if there is none.
pub record IsFirst (bitmask n i r : ℕ) : Type 0 where
  pub low : i ≤ r
  pub high : r < i + n
  pub found : check_bit bitmask r ≡ true
  pub before : Clear bitmask i r

pub first_set-cases :
    (m n i : ℕ) → IsFirst m n i (first_set m n i) ⊎ ((first_set m n i ≡ 0) × Clear m i (i + n))
unfolding first_set
first_set-cases m zero i = inr (refl, λ k p q. absurd (omega arith))
first_set-cases m (suc n) i = elim (Bool-cases (check_bit m i)) [
  | inl t ↦ inl (
      rw t (record {
        low = omega arith;
        high = omega arith;
        found = t;
        before = λ k p q. absurd (omega arith);
      }))
  | inr f ↦ rw f (elim (first_set-cases m n (i + 1)) [
    | inl r ↦ inl (record {
      low = omega (arith, r.low);
      high = omega (arith, r.high);
      found = r.found;
      before = Clear-step m i (first_set m n (i + 1)) f r.before;
    })
    | inr (z, c) ↦ inr (z, Clear-step m i (i + suc n) f (λ k p q. c k p (omega arith)))
  ])
]

-- The second loop adds the length of the run of set bits that starts at `i`.
pub record IsRun (bitmask n i r : ℕ) : Type 0 where
  pub fits : r ≤ n
  pub full : Full bitmask i (i + r)
  pub ends : r < n → check_bit bitmask (i + r) ≡ false

pub count_run_lem : (m n i size : ℕ) → (r : ℕ) × (count_run m n i size ≡ size + r) × IsRun m n i r
unfolding count_run
count_run_lem m zero i size = (
  0,
  omega arith,
  record {
    fits = omega arith;
    full = λ k p q. absurd (omega arith);
    ends = λ h. absurd (omega arith);
  },
)
count_run_lem m (suc n) i size = elim (Bool-cases (check_bit m i)) [
  | inr f ↦ (
    0,
    rw f (omega arith),
    record { fits = omega arith; full = λ k p q. absurd (omega arith); ends = λ h. rw add-zero f },
  )
  | inl t ↦
      let (r, e, run) = count_run_lem m n (i + 1) (size + 1) in
      (
        suc r,
        rw t (omega arith),
        record {
          fits = omega (arith, run.fits);
          full = Full-step m i (i + suc r) t (λ k p q. run.full k p (omega arith));
          ends = λ h. ap (check_bit m) (omega arith) ∙ run.ends (omega arith);
        },
      )
]

-- The third loop passes exactly when no further bit is set.
pub rest_clear→Clear : (m n i : ℕ) → rest_clear m n i ≡ true → Clear m i (i + n)
unfolding rest_clear
rest_clear→Clear m zero i h = λ k p q. absurd (omega arith)
rest_clear→Clear m (suc n) i h = elim (Bool-cases (check_bit m i)) [
  | inl t ↦ cc
  | inr f ↦
      Clear-step m i (i + suc n) f
        (λ k p q. rest_clear→Clear m n (i + 1) (rw f at h) k p (omega arith))
]

pub rest_clear_lem : (m n i : ℕ) → Clear m i (i + n) → rest_clear m n i ≡ true
unfolding rest_clear
rest_clear_lem m zero i c = refl
rest_clear_lem m (suc n) i c =
    rw (c i (omega arith) (omega arith))
      (rest_clear_lem m n (i + 1) (λ k p q. c k (omega arith) (omega arith)))
