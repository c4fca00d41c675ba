-- ===== src/Tests/Video.antt =====
-- Runs of src/boot/video.rs.
use towboot_rust.Prelude.{◌+◌, ◌^◌, ◌≤◌, ◌≡◌, ◌↔◌, refl, ok, arith}
use towboot_rust.Firmware.{PixelBitmask}
use towboot_rust.Video.Color.{
  ColorInfoRgb, parse_color_bitmap, bitmask_to_bpp, bitmask_to_color_info, IsField,
}
use towboot_rust.Video.Color.Fields.{parse_color_bitmap_iff}
use towboot_rust.Video.Color.Depth.{bitmask_to_bpp-eq-sizes}
use towboot_rust.Video.Color.Top.{parse_color_bitmap-ignores_top}

-- The layout of a 16 bit pixel: five bits, six bits, five bits.
abbrev high_color : PixelBitmask
high_color = record { red = 63488; green = 2016; blue = 31; reserved = 0 }

abbrev fields : ColorInfoRgb
fields = record {
  red_field_position = 11;
  red_mask_size = 5;
  green_field_position = 5;
  green_mask_size = 6;
  blue_field_position = 0;
  blue_mask_size = 5;
}

parse_color_bitmap_iff_example :
    (parse_color_bitmap 2016 ≡ ok (5, 6)) ↔ ((5 + 6 ≤ 31) × IsField 2016 5 6)
parse_color_bitmap_iff_example = parse_color_bitmap_iff 2016 5 6 (omega arith)

bitmask_to_bpp-eq-sizes_example :
    16 ≡ fields.red_mask_size + fields.green_mask_size + fields.blue_mask_size
unfolding bitmask_to_bpp towboot_rust.Video.Color.count_set towboot_rust.Video.Color.check_bit
    bitmask_to_color_info parse_color_bitmap towboot_rust.Video.Color.rest_clear
    towboot_rust.Video.Color.first_set towboot_rust.Video.Color.count_run
bitmask_to_bpp-eq-sizes_example = bitmask_to_bpp-eq-sizes high_color 16 fields refl refl

parse_color_bitmap-ignores_top_example :
    parse_color_bitmap (2016 + 2 ^ 31) ≡ parse_color_bitmap 2016
parse_color_bitmap-ignores_top_example = parse_color_bitmap-ignores_top 2016
