-- ===== src/Video/Color/Depth.antt =====
-- src/boot/video.rs: what `bitmask_to_bpp` counts.
use Prim.Native.Nat.{bit_and, bit_or}
use Prim.Native.Nat.add
use native.Mathlib.Nat.{one-le-pow, add-zero}
use towboot_rust.Prelude.{ℕ, zero, suc, ◌+◌, ◌-◌, ◌≤◌, ◌≡◌, refl}
use towboot_rust.Prelude.{true, false, arith, ap, ◌∙◌, ◌==◌}
use towboot_rust.Prelude.{◌&&◌, ◌||◌, ok, if◌then◌else◌}
use towboot_rust.Prelude.Bits.{bit, bit-lt_two, bit-bit_and, bit-bit_or, bit_and_pow, bit-zero}
use towboot_rust.Firmware.{PixelBitmask}
use towboot_rust.Video.Color.{
  check_bit, count_set, parse_color_bitmap, IsField, ColorInfoRgb, bitmask_to_color_info,
  bitmask_to_bpp,
}
use towboot_rust.Video.Color.Loops.{Clear, Full}
use towboot_rust.Video.Color.Fields.{parse_color_bitmap_sound}

-- The macro reads one bit.
pub check_bit-bit : (m i : ℕ) → check_bit m i ≡ (bit m i == 1)
unfolding check_bit
check_bit-bit m i = ground (arith, bit_and_pow m i, bit-lt_two m i, one-le-pow i 2)

check_bit-bit_or : (a b i : ℕ) → check_bit (bit_or a b) i ≡ (check_bit a i || check_bit b i)
check_bit-bit_or a b i = ground (
  arith,
  check_bit-bit (bit_or a b) i,
  check_bit-bit a i,
  check_bit-bit b i,
  bit-bit_or a b i,
  bit-lt_two a i,
  bit-lt_two b i,
)

-- Masks whose `&` is 0 share no bit.
Disjoint : ℕ → ℕ → Type 0
Disjoint a b = (i : ℕ) → (check_bit a i && check_bit b i) ≡ false

bit_and-Disjoint : (a b : ℕ) → (bit_and a b == 0) ≡ true → Disjoint a b
unfolding Disjoint
bit_and-Disjoint a b h i = ground (
  arith,
  check_bit-bit a i,
  check_bit-bit b i,
  ap (λ t. bit t i) (let z : bit_and a b ≡ 0 = ground arith in z),
  bit-bit_and a b i,
  bit-zero i,
  bit-lt_two a i,
  bit-lt_two b i,
)

module _ (r g b : ℕ) (rg : Disjoint r g) (rb : Disjoint r b) (gb : Disjoint g b) where
  one_bit :
      (i x y z : ℕ)
      → (if check_bit (bit_or (bit_or r g) b) i then x + y + z + 1 else x + y + z)
        ≡ (if check_bit r i then x + 1 else x)
          + (if check_bit g i then y + 1 else y)
          + (if check_bit b i then z + 1 else z)
  unfolding Disjoint
  one_bit i x y z =
      ground (arith, check_bit-bit_or (bit_or r g) b i, check_bit-bit_or r g i, rg i, rb i, gb i)

  count_set-bit_or :
      (n i x y z : ℕ)
      → count_set (bit_or (bit_or r g) b) n i (x + y + z)
        ≡ count_set r n i x + count_set g n i y + count_set b n i z
  unfolding count_set
  count_set-bit_or zero i x y z = refl
  count_set-bit_or (suc n) i x y z = rw (one_bit i x y z) (
      count_set-bit_or n (i + 1) (if check_bit r i then x + 1 else x)
        (if check_bit g i then y + 1 else y) (if check_bit b i then z + 1 else z))

count_set-Clear : (m n i acc : ℕ) → Clear m i (i + n) → count_set m n i acc ≡ acc
unfolding count_set
count_set-Clear m zero i acc c = refl
count_set-Clear m (suc n) i acc c =
    rw (c i (omega arith) (omega arith))
      (count_set-Clear m n (i + 1) acc (λ k p q. c k (omega arith) (omega arith)))

count_set-Full : (m n i acc : ℕ) → Full m i (i + n) → count_set m n i acc ≡ acc + n
unfolding count_set
count_set-Full m zero i acc c = omega arith
count_set-Full m (suc n) i acc c =
    rw (c i (omega arith) (omega arith)) (
      omega
        (arith, count_set-Full m n (i + 1) (acc + 1) (λ k p q. c k (omega arith) (omega arith))))

count_set-append :
    (m a n i acc : ℕ) → count_set m (a + n) i acc ≡ count_set m n (i + a) (count_set m a i acc)
unfolding count_set
count_set-append m zero n i acc = rw (add-zero i, add.zero n)
count_set-append m (suc a) n i acc =
    ap (λ t. count_set m t i acc) (add.suc a n)
    ∙ count_set-append m a n (i + 1) (if check_bit m i then acc + 1 else acc)
    ∙ ap (λ t. count_set m n t (count_set m a (i + 1) (if check_bit m i then acc + 1 else acc)))
        (omega arith)

-- A field of `s` bits has `s` bits set.
count_set-IsField : (m p s : ℕ) → p + s ≤ 31 → IsField m p s → count_set m 31 0 0 ≡ s
count_set-IsField m p s fits field =
    ap (λ t. count_set m t 0 0) split
    ∙ count_set-append m p (s + (31 - (p + s))) 0 0
    ∙ ap (count_set m (s + (31 - (p + s))) (0 + p))
        (count_set-Clear m p 0 0 (λ k a b. ground (arith, field.bits k)))
    ∙ count_set-append m s (31 - (p + s)) (0 + p) 0
    ∙ ap (count_set m (31 - (p + s)) (0 + p + s))
        (count_set-Full m s (0 + p) 0 (λ k a b. ground (arith, field.bits k)))
    ∙ count_set-Clear m (31 - (p + s)) (0 + p + s) (0 + s) (λ k a b. ground (arith, field.bits k))
    ∙ omega arith
  where
    split : 31 ≡ p + (s + (31 - (p + s)))
    split = omega arith

-- The parts of a conversion that succeeds.
color_info-parts :
    (p : PixelBitmask) (c : ColorInfoRgb)
    → bitmask_to_color_info p ≡ ok c
    → (parse_color_bitmap p.red ≡ ok (c.red_field_position, c.red_mask_size))
      × (parse_color_bitmap p.green ≡ ok (c.green_field_position, c.green_mask_size))
      × (parse_color_bitmap p.blue ≡ ok (c.blue_field_position, c.blue_mask_size))
unfolding bitmask_to_color_info
color_info-parts p c h = ground arith

bpp-parts :
    (p : PixelBitmask) (bpp : ℕ)
    → bitmask_to_bpp p ≡ ok bpp
    → ((bit_and p.red p.green == 0) ≡ true)
      × ((bit_and p.red p.blue == 0) ≡ true)
      × ((bit_and p.green p.blue == 0) ≡ true)
      × (count_set (bit_or (bit_or p.red p.green) p.blue) 31 0 0 ≡ bpp)
unfolding bitmask_to_bpp
bpp-parts p bpp h = ground arith

count_set-colour : (m p s : ℕ) → parse_color_bitmap m ≡ ok (p, s) → count_set m 31 0 0 ≡ s
count_set-colour m p s h =
    let (fits, field) = parse_color_bitmap_sound m p s h in count_set-IsField m p s fits field

-- If both conversions of a pixel bitmask succeed, the depth is the sum of the three mask sizes:
-- bits that no colour uses, such as the reserved ones, are not counted.
pub bitmask_to_bpp-eq-sizes :
    (p : PixelBitmask) (bpp : ℕ) (c : ColorInfoRgb)
    → bitmask_to_bpp p ≡ ok bpp
    → bitmask_to_color_info p ≡ ok c
    → bpp ≡ c.red_mask_size + c.green_mask_size + c.blue_mask_size
bitmask_to_bpp-eq-sizes p bpp c hb hc =
    let (rg, rb, gb, total) = bpp-parts p bpp hb in
    let (red, green, blue) = color_info-parts p c hc in
    omega (
      arith,
      total,
      count_set-bit_or p.red p.green p.blue (bit_and-Disjoint p.red p.green rg)
          (bit_and-Disjoint p.red p.blue rb) (bit_and-Disjoint p.green p.blue gb) 31 0 0 0 0,
      count_set-colour p.red c.red_field_position c.red_mask_size red,
      count_set-colour p.green c.green_field_position c.green_mask_size green,
      count_set-colour p.blue c.blue_field_position c.blue_mask_size blue,
    )
