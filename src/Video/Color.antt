-- ===== src/Video/Color.antt =====
-- src/boot/video.rs: the conversion of UEFI's pixel bitmasks to Multiboot's colour fields.
-- `for i in a..31` is a recursion on the rounds that are left.
pub mod Loops
pub mod Fields
pub mod Depth
pub mod Top
use Prim.Native.Nat.{bit_and, bit_or}
use towboot_rust.Prelude.{ℕ, zero, suc, ◌+◌, ◌-◌, ◌*◌, ◌^◌, ◌<◌, ◌≡◌, Bool, true, false, leb, ltb}
use towboot_rust.Prelude.{◌==◌, ◌&&◌, if◌then◌else◌, Outcome, ok, panic, assert, ◌>>=◌, ◌>>◌, arith}
use towboot_rust.Firmware.{PixelBitmask}

-- The field of a colour in a pixel: `field_position` and `mask_size` of `ColorInfoRgb`.
pub record ColorInfoRgb : Type 0 where
  pub red_field_position : ℕ
  pub red_mask_size : ℕ
  pub green_field_position : ℕ
  pub green_mask_size : ℕ
  pub blue_field_position : ℕ
  pub blue_mask_size : ℕ

-- The macro `check_bit!`.
unfoldable pub check_bit : ℕ → ℕ → Bool
check_bit var i = bit_and var (2 ^ i) == 2 ^ i

-- `for i in i..i+n { if check_bit!(bitmask, i) { field_position = i; break; } }`, from 0.
unfoldable pub first_set : ℕ → ℕ → ℕ → ℕ
first_set bitmask zero i = 0
first_set bitmask (suc n) i =
    let later = first_set bitmask n (i + 1) in if check_bit bitmask i then i else later

-- `for i in i..i+n { if !check_bit!(bitmask, i) { break; } mask_size += 1; }`.
unfoldable pub count_run : ℕ → ℕ → ℕ → ℕ → ℕ
count_run bitmask zero i mask_size = mask_size
count_run bitmask (suc n) i mask_size =
    let later = count_run bitmask n (i + 1) (mask_size + 1) in
    if check_bit bitmask i then later else mask_size

-- `for i in i..i+n { if check_bit!(bitmask, i) { panic!(..) } }`: whether it does not panic.
unfoldable pub rest_clear : ℕ → ℕ → ℕ → Bool
rest_clear bitmask zero i = true
rest_clear bitmask (suc n) i =
    let later = rest_clear bitmask n (i + 1) in if check_bit bitmask i then false else later

unfoldable pub parse_color_bitmap : ℕ → Outcome ⊥ (ℕ × ℕ)
parse_color_bitmap bitmask =
    let field_position = first_set bitmask 31 0 in
    let mask_size = count_run bitmask (31 - field_position) field_position 0 in
    let next = field_position + mask_size in
    if rest_clear bitmask (31 - next) next
    then ok (field_position, mask_size)
    else panic "color bitmask is not continuous"

-- `for i in i..i+n { if check_bit!(combined_bitmask, i) { bpp += 1; } }`.
unfoldable pub count_set : ℕ → ℕ → ℕ → ℕ → ℕ
count_set bitmask zero i bpp = bpp
count_set bitmask (suc n) i bpp =
    count_set bitmask n (i + 1) (if check_bit bitmask i then bpp + 1 else bpp)

unfoldable pub bitmask_to_bpp : PixelBitmask → Outcome ⊥ ℕ
bitmask_to_bpp p = do
  let combined_bitmask = bit_or (bit_or p.red p.green) p.blue
  assert (bit_and p.red p.green == 0) "red & green"
  assert (bit_and p.red p.blue == 0) "red & blue"
  assert (bit_and p.green p.blue == 0) "green & blue"
  ok (count_set combined_bitmask 31 0 0)

abbrev color_fields : ℕ × ℕ → ℕ × ℕ → ℕ × ℕ → ColorInfoRgb
color_fields (rp, rs) (gp, gs) (bp, bs) = record {
  red_field_position = rp;
  red_mask_size = rs;
  green_field_position = gp;
  green_mask_size = gs;
  blue_field_position = bp;
  blue_mask_size = bs;
}

unfoldable pub bitmask_to_color_info : PixelBitmask → Outcome ⊥ ColorInfoRgb
bitmask_to_color_info p = do
  red ← parse_color_bitmap p.red
  green ← parse_color_bitmap p.green
  blue ← parse_color_bitmap p.blue
  ok (color_fields red green blue)

-- Of the bits 0 to 30 of a mask, exactly those from `p` up to `p + s` are set.
pub record IsField (bitmask p s : ℕ) : Type 0 where
  pub bits : (i : ℕ) → i < 31 → check_bit bitmask i ≡ (leb p i && ltb i (p + s))
