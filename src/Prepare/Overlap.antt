-- ===== src/Prepare/Overlap.antt =====
-- src/boot/mod.rs: what the kernel is told, where the kernel itself may be moved over it.

use mathlib.Core.Path.{subst}
use towboot_rust.Prelude.{
  Bool, ◌||◌, ◌⊎◌, inl, inr, Bool-cases, true, false, leb, if◌then◌else◌, ℕ, ◌≡◌, refl, ap, List,
  [], ◌∷◌, All, Option, none, some, arith,
}
use towboot_rust.Mem.Map.{MemoryInformation}
use towboot_rust.Mem.Allocation.{Allocation}
use towboot_rust.Mem.Bytes.{within}
use towboot_rust.Prepare.{Information, overlaps, hits, moved_over, unless}

-- No allocation of the list is to be moved over the address.
abbrev pub Avoids : List Allocation → ℕ → Type 0
Avoids kernel j =
    All (λ (k : Allocation). (dst : ℕ) → k.should_be_at ≡ some dst → within dst k.len j ≡ false)
      kernel

-- The address lies in one of the places.
abbrev pub IsIn : List (ℕ × ℕ) → ℕ → Type 0
IsIn [] j = ⊥
IsIn ((p, n) ∷ places) j = (within p n j ≡ true) ⊎ IsIn places j

overlaps-false :
    (p n q m j : ℕ) → overlaps p n q m ≡ false → within q m j ≡ true → within p n j ≡ false
overlaps-false p n q m j h i = ground (arith, h, i)

first_false : (b c : Bool) → (b || c) ≡ false → b ≡ false
first_false b c h = ground (arith, h)

second_false : (b c : Bool) → (b || c) ≡ false → c ≡ false
second_false b c h = ground (arith, h)

hits-false :
    (a : Allocation) (o : Option ℕ) (places : List (ℕ × ℕ)) (j dst : ℕ)
    → hits a o places ≡ false
    → IsIn places j
    → o ≡ some dst
    → within dst a.len j ≡ false
hits-false a none places j dst h i e = cc e
hits-false a (some d) [] j dst h i e = absurd i
hits-false a (some d) ((p, n) ∷ places) j dst h (inl i) e =
    let apart =
      overlaps-false d a.len p n j (first_false (overlaps d a.len p n) (hits a (some d) places) h)
        i in
    let same : d ≡ dst = ground (arith, e) in subst (λ x. within x a.len j ≡ false) same apart
hits-false a (some d) ((p, n) ∷ places) j dst h (inr i) e =
    hits-false a (some d) places j dst
      (second_false (overlaps d a.len p n) (hits a (some d) places) h) i e

moved_over-false :
    (kernel : List Allocation) (places : List (ℕ × ℕ)) (j : ℕ)
    → moved_over kernel places ≡ false
    → IsIn places j
    → Avoids kernel j
moved_over-false [] places j h i = tt
moved_over-false (a ∷ rest) places j h i = (
  λ dst e. hits-false a a.should_be_at places j dst (ground (arith, h)) i e,
  moved_over-false rest places j (ground (arith, h)) i,
)

hits-true :
    (a : Allocation) (o : Option ℕ) (places : List (ℕ × ℕ))
    → hits a o places ≡ true
    → (dst : ℕ) × (o ≡ some dst) × ((j : ℕ) × IsIn places j × (within dst a.len j ≡ true))
hits-true a none places h = cc h
hits-true a (some d) [] h = cc h
hits-true a (some d) ((p, n) ∷ places) h = elim (Bool-cases (overlaps d a.len p n)) [
  | inl y ↦ (d, refl, (if leb d p then p else d, inl (ground (arith, y)), ground (arith, y)))
  | inr q ↦
      let (dst, e, (j, i, l)) = hits-true a (some d) places (ground (arith, h, q)) in
      (dst, e, (j, inr i, l))
]

moved_over-true :
    (kernel : List Allocation) (places : List (ℕ × ℕ))
    → moved_over kernel places ≡ true
    → (j : ℕ) × IsIn places j × ¬ Avoids kernel j
moved_over-true [] places h = cc h
moved_over-true (a ∷ rest) places h = elim (Bool-cases (hits a a.should_be_at places)) [
  | inl y ↦
      let (dst, e, (j, i, l)) = hits-true a a.should_be_at places y in
      (j, i, λ k. ground (arith, l, k.0 dst e))
  | inr q ↦ let (j, i, l) = moved_over-true rest places (ground (arith, h, q)) in (j, i, λ k. l k.1)
]

-- What the kernel is told: nothing is promised exactly where it is overwritten.
abbrev pub IsPassed :
    List Allocation
    → List (ℕ × ℕ)
    → Information × MemoryInformation
    → Option (Information × MemoryInformation)
    → Type 0
IsPassed kernel places info passed =
    (((j : ℕ) → IsIn places j → Avoids kernel j) × (passed ≡ some info))
    ⊎ (((j : ℕ) × IsIn places j × ¬ Avoids kernel j) × (passed ≡ none))

pub unless-IsPassed :
    (kernel : List Allocation) (places : List (ℕ × ℕ)) (info : Information × MemoryInformation)
    → IsPassed kernel places info (unless (moved_over kernel places) info)
unless-IsPassed kernel places info = elim (Bool-cases (moved_over kernel places)) [
  | inl y ↦ inr (moved_over-true kernel places y, ap (λ b. unless b info) y)
  | inr n ↦ inl (λ j i. moved_over-false kernel places j n i, ap (λ b. unless b info) n)
]
