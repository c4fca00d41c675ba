-- ===== src/Tests/Mode.antt =====
-- Runs of src/boot/video.rs on a graphics card with two modes; its state is the mode that it is in.
use towboot_rust.Prelude.{
  ℕ, zero, suc, ◌*◌, ◌/◌, ◌≡◌, refl, Option, none, some, List, [], ◌∷◌, ok, Result, done, failed,
  arith,
}
use towboot_rust.Firmware.{PixelBitmask, World}
use towboot_rust.Video.Mode.{
  PreferredMode, linear_graphics, bitmask, ModeInfo, Mode, GraphicsServices, wanted_resolution,
  setup_video, FramebufferTable,
}
use towboot_rust.Video.Mode.Choice.{IsWanted, IsSetUp, setup_video-IsSetUp}
use towboot_rust.Video.Mode.Table.{depth, prepare_framebuffer-depth}
use towboot_rust.Tests.Pages.{target}

-- Pixels of 32 bits, of which 24 are colours.
abbrev true_color : PixelBitmask
true_color = record { red = 16711680; green = 65280; blue = 255; reserved = 4278190080 }

abbrev small : ModeInfo
small = record {
  width = 640;
  height = 480;
  stride = 640;
  pixel_format = bitmask;
  pixel_bitmask = some true_color;
}

abbrev large : ModeInfo
large = record small { width = 1024; height = 768; stride = 1024 }

abbrev small_mode : Mode
small_mode = record { index = 0; info = small }

abbrev large_mode : Mode
large_mode = record { index = 1; info = large }

abbrev info_of : ℕ → ModeInfo
info_of zero = small
info_of (suc n) = large

abbrev card : GraphicsServices ℕ
card = record {
  locate = λ s. (done tt, s);
  modes = λ s. small_mode ∷ large_mode ∷ [];
  set_mode = λ m s. (done tt, m.index);
  current_mode_info = info_of;
  frame_buffer = λ s. 3221225472;
}

abbrev wish : PreferredMode
wish = record { mode_type = some linear_graphics; width = 1024; height = 768; depth = some 24 }

abbrev switched_on : World ℕ
switched_on = record { firmware = 0; memory = λ _. 0 }

abbrev switched_over : World ℕ
switched_over = record { firmware = 1; memory = λ _. 0 }

choice_run : setup_video card (some wish) [] switched_on ≡ (ok tt, switched_over)
unfolding setup_video wanted_resolution
choice_run = refl

setup_video-IsSetUp_example :
    (wanted : Option (ℕ × ℕ)) × IsWanted (some wish) [] wanted × IsSetUp card wanted 0 1
setup_video-IsSetUp_example =
    setup_video-IsSetUp card (some wish) [] switched_on switched_over choice_run

abbrev table : FramebufferTable
table = record {
  address = 3221225472;
  pitch = 3072;
  width = 1024;
  height = 768;
  bpp = 24;
  color_info = record {
    red_field_position = 16;
    red_mask_size = 8;
    green_field_position = 8;
    green_mask_size = 8;
    blue_field_position = 0;
    blue_mask_size = 8;
  };
}

prepare_framebuffer-depth_example :
    (table.bpp ≡ depth large.pixel_format table.color_info)
    × (table.pitch ≡ large.stride * (table.bpp / 8))
    × (table.width ≡ large.width)
    × (table.height ≡ large.height)
unfolding towboot_rust.Video.Mode.prepare_framebuffer towboot_rust.Video.Mode.colors_of
    towboot_rust.Video.Color.bitmask_to_bpp towboot_rust.Video.Color.bitmask_to_color_info
    towboot_rust.Video.Color.parse_color_bitmap towboot_rust.Video.Color.rest_clear
    towboot_rust.Video.Color.first_set towboot_rust.Video.Color.check_bit
    towboot_rust.Video.Color.count_run towboot_rust.Video.Mode.table_of towboot_rust.Prelude.wrap
    towboot_rust.Video.Color.count_set towboot_rust.Prelude.narrow
prepare_framebuffer-depth_example =
    prepare_framebuffer-depth target 3221225472 large table (omega arith) refl
