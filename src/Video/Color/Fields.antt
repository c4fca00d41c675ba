-- ===== src/Video/Color/Fields.antt =====
-- src/boot/video.rs: the masks that `parse_color_bitmap` takes for fields.
use towboot_rust.Prelude.{ℕ, ◌+◌, ◌-◌, ◌≤◌, ◌<◌, ◌≡◌, inl, inr, true, false}
use towboot_rust.Prelude.{arith, Bool-cases, sym, ◌∙◌, leb, ltb, ◌&&◌, ◌↔◌, ok}
use towboot_rust.Video.Color.{first_set, count_run, rest_clear, parse_color_bitmap, IsField}
use towboot_rust.Video.Color.Loops.{
  Clear, Full, first_set-cases, count_run_lem, rest_clear→Clear, rest_clear_lem,
}

between : (p s i : ℕ) → p ≤ i → i < p + s → (leb p i && ltb i (p + s)) ≡ true
between p s i a b = ground arith

below : (p s i : ℕ) → i < p → (leb p i && ltb i (p + s)) ≡ false
below p s i a = ground arith

above : (p s i : ℕ) → p + s ≤ i → (leb p i && ltb i (p + s)) ≡ false
above p s i a = ground arith

-- The three parts of a word that the loops leave behind, put together.
IsField-parts : (m p s : ℕ) → Clear m 0 p → Full m p (p + s) → Clear m (p + s) 31 → IsField m p s
IsField-parts m p s lo run hi = record {
  bits = λ i h. elim (Bool-cases (ltb i p)) [
    | inl a ↦ lo i (omega arith) (ground arith) ∙ sym (below p s i (ground arith))
    | inr a ↦ elim (Bool-cases (ltb i (p + s))) [
      | inl b ↦
          run i (ground arith) (ground arith) ∙ sym (between p s i (ground arith) (ground arith))
      | inr b ↦ hi i (ground arith) h ∙ sym (above p s i (ground arith))
    ]
  ];
}

-- What `parse_color_bitmap` returns: the first loop's result and the length of the run there.
pub record IsParsed (m p s : ℕ) : Type 0 where
  pub first : first_set m 31 0 ≡ p
  pub size : count_run m (31 - p) p 0 ≡ s
  pub rest : rest_clear m (31 - (p + s)) (p + s) ≡ true

pub parse-IsParsed : (m p s : ℕ) → (parse_color_bitmap m ≡ ok (p, s)) ↔ IsParsed m p s
unfolding parse_color_bitmap
parse-IsParsed m p s = (λ h. ground arith, λ q. ground (arith, q.first, q.size, q.rest))

IsParsed→IsField : (m p s : ℕ) → IsParsed m p s → (p + s ≤ 31) × IsField m p s
IsParsed→IsField m p s q =
    let (r, e, run) = count_run_lem m (31 - p) p 0 in
    let size : r ≡ s = omega (arith, q.size) in
    elim (first_set-cases m 31 0) [
      | inl f ↦
          let at : first_set m 31 0 ≡ p = q.first in
          (
            omega (arith, f.high, run.fits),
            IsField-parts m p s (rw at at f.before) (rw size at run.full) (λ k a b.
                rest_clear→Clear m (31 - (p + s)) (p + s) q.rest k a
                  (omega (arith, f.high, run.fits))),
          )
      | inr (z, c) ↦
          let at : p ≡ 0 = omega (arith, q.first) in
          (
            omega (arith, run.fits),
            IsField-parts m p s (λ k a b. absurd (omega arith)) (rw size at run.full)
                (λ k a b. c k (omega arith) b),
          )
    ]

IsField→IsParsed : (m p s : ℕ) → 0 < s → p + s ≤ 31 → IsField m p s → IsParsed m p s
IsField→IsParsed m p s pos fits field = record { first = first; size = size; rest = rest }
  where
    first : first_set m 31 0 ≡ p
    first = elim (first_set-cases m 31 0) [
      | inl f ↦
          ground (arith, f.found, f.high, f.before p, field.bits p, field.bits (first_set m 31 0))
      | inr (z, c) ↦ ground (arith, c p, field.bits p)
    ]

    size : count_run m (31 - p) p 0 ≡ s
    size =
        let (r, e, run) = count_run_lem m (31 - p) p 0 in
        ground
          (arith, e, run.fits, run.full (p + s), run.ends, field.bits (p + s), field.bits (p + r))

    rest : rest_clear m (31 - (p + s)) (p + s) ≡ true
    rest =
        rest_clear_lem m (31 - (p + s)) (p + s)
          (λ k a b. field.bits k (omega arith) ∙ above p s k a)

-- For `s` above 0, a mask is parsed into `(p, s)` exactly if of its bits 0 to 30 those from `p`
-- up to but not including `p + s` are set and no others, and `p + s` is at most 31.
pub parse_color_bitmap_iff :
    (m p s : ℕ) → 0 < s → (parse_color_bitmap m ≡ ok (p, s)) ↔ ((p + s ≤ 31) × IsField m p s)
parse_color_bitmap_iff m p s pos = (
  λ h. IsParsed→IsField m p s ((parse-IsParsed m p s).0 h),
  λ (fits, field). (parse-IsParsed m p s).1 (IsField→IsParsed m p s pos fits field),
)

-- The outcome is never an error: it is a pair that fits the word, or the panic of a mask with a gap.
pub parse_color_bitmap_sound :
    (m p s : ℕ) → parse_color_bitmap m ≡ ok (p, s) → (p + s ≤ 31) × IsField m p s
parse_color_bitmap_sound m p s h = IsParsed→IsField m p s ((parse-IsParsed m p s).0 h)
