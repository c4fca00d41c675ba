-- ===== src/Video/Mode.antt =====
-- src/boot/video.rs: `setup_video`, which chooses a mode, and `prepare_information`, which describes
-- the framebuffer. The graphics output protocol is a parameter over the firmware's state.
pub mod Choice
pub mod Table
use towboot_rust.Prelude.{
  ℕ, ◌*◌, ◌/◌, Bool, true, false, ◌&&◌, Option, none, some, List, [], ◌∷◌, find?, ◌==◌, Outcome, ok,
  panic, Result, unwrap, map_err, narrow, Target, wrap,
}
use towboot_rust.Firmware.{Status, device_error, PixelBitmask, World}
use towboot_rust.Firmware.Exec.{Exec, pure, lift, call, ◌>>=◌, ◌>>◌}
use towboot_rust.Prelude
use towboot_rust.Config.{Quirk, keep_resolution, contains}
use towboot_rust.Video.Color.{ColorInfoRgb, bitmask_to_bpp, bitmask_to_color_info}

-- What the Multiboot header says on the video mode.
pub data VideoModeType : Type 0 where
  linear_graphics text_mode : VideoModeType

pub record PreferredMode : Type 0 where
  pub mode_type : Option VideoModeType
  pub width : ℕ
  pub height : ℕ
  pub depth : Option ℕ

pub data PixelFormat : Type 0 where
  rgb bgr bitmask blt_only : PixelFormat

-- `uefi::proto::console::gop::ModeInfo`.
pub record ModeInfo : Type 0 where
  pub width : ℕ
  pub height : ℕ
  pub stride : ℕ
  pub pixel_format : PixelFormat
  pub pixel_bitmask : Option PixelBitmask

pub record Mode : Type 0 where
  pub index : ℕ
  pub info : ModeInfo

pub record GraphicsServices (S : Type 0) : Type 0 where
  pub locate : S → Result Status (Unit {0}) × S
  pub modes : S → List Mode
  pub set_mode : Mode → S → Result Status (Unit {0}) × S
  pub current_mode_info : S → ModeInfo
  pub frame_buffer : S → ℕ

abbrev wanted_of : PreferredMode → Option VideoModeType → Outcome Status (Option (ℕ × ℕ))
wanted_of mode (some linear_graphics) =
    Prelude.◌>>=◌ (unwrap mode.depth "called `Option::unwrap()` on a `None` value")
      (λ _. ok (some (mode.width, mode.height)))
wanted_of mode (some text_mode) = ok none
wanted_of mode none = ok none

abbrev pub wanted_if : Option PreferredMode → Bool → Outcome Status (Option (ℕ × ℕ))
wanted_if (some mode) false = wanted_of mode mode.mode_type
wanted_if (some mode) true = ok none
wanted_if none _ = ok none

-- The resolution to be set, if any.
unfoldable pub wanted_resolution :
    Option PreferredMode → List Quirk → Outcome Status (Option (ℕ × ℕ))
wanted_resolution preferred quirks = wanted_if preferred (contains quirks keep_resolution)

abbrev pub has_resolution : ℕ → ℕ → Mode → Bool
has_resolution w h m = m.info.width == w && m.info.height == h

abbrev pub find_mode : Option (ℕ × ℕ) → List Mode → Option Mode
find_mode none modes = none
find_mode (some (w, h)) modes = find? (has_resolution w h) modes

module _ {S : Type 0} (g : GraphicsServices S) where
  abbrev pub set_found : Option Mode → Exec S Status (Unit {0})
  set_found none = pure tt
  set_found (some mode) = do r ← call (g.set_mode mode); lift (map_err r (λ _. device_error))

  -- Try to get the video in a mode the kernel wants.
  unfoldable pub setup_video : Option PreferredMode → List Quirk → Exec S Status (Unit {0})
  setup_video preferred quirks = do
    wanted ← lift (wanted_resolution preferred quirks)
    located ← call g.locate
    lift (map_err located (λ _. device_error))
    modes ← λ w. (ok (g.modes w.firmware), w)
    set_found (find_mode wanted modes)

-- `multiboot::information::FramebufferTable` of a mode with colours.
pub record FramebufferTable : Type 0 where
  pub address : ℕ
  pub pitch : ℕ
  pub width : ℕ
  pub height : ℕ
  pub bpp : ℕ
  pub color_info : ColorInfoRgb

abbrev rgb_fields : ColorInfoRgb
rgb_fields = record {
  red_field_position = 0;
  red_mask_size = 8;
  green_field_position = 8;
  green_mask_size = 8;
  blue_field_position = 16;
  blue_mask_size = 8;
}

abbrev bgr_fields : ColorInfoRgb
bgr_fields = record {
  red_field_position = 16;
  red_mask_size = 8;
  green_field_position = 8;
  green_mask_size = 8;
  blue_field_position = 0;
  blue_mask_size = 8;
}

-- The depth and the colours of a mode.
unfoldable pub colors_of : PixelFormat → Option PixelBitmask → Outcome ⊥ (ℕ × ColorInfoRgb)
colors_of rgb mask = ok (32, rgb_fields)
colors_of bgr mask = ok (32, bgr_fields)
colors_of bitmask mask =
    Prelude.◌>>=◌ (unwrap mask "called `Option::unwrap()` on a `None` value") λ m.
      Prelude.◌>>=◌ (bitmask_to_bpp m)
        λ bpp. Prelude.◌>>=◌ (bitmask_to_color_info m) λ info. ok (bpp, info)
colors_of blt_only mask = panic "GPU doesn't support pixel access"

-- The table of a mode whose colours are known.
unfoldable pub table_of : Target → ℕ → ModeInfo → ℕ × ColorInfoRgb → Outcome ⊥ FramebufferTable
table_of t address mode (bpp, color_info) =
    Prelude.◌>>=◌ (wrap t t.usize_bits (mode.stride * (bpp / 8))) λ bytes.
      Prelude.◌>>=◌ (narrow 32 bytes) λ pitch. Prelude.◌>>=◌ (narrow 32 mode.width) λ width.
        Prelude.◌>>=◌ (narrow 32 mode.height) λ height. ok (record {
          address = address;
          pitch = pitch;
          width = width;
          height = height;
          bpp = bpp;
          color_info = color_info;
        })

-- Pass the framebuffer information to the kernel.
unfoldable pub prepare_framebuffer : Target → ℕ → ModeInfo → Outcome ⊥ FramebufferTable
prepare_framebuffer t address mode =
    Prelude.◌>>=◌ (colors_of mode.pixel_format mode.pixel_bitmask) (table_of t address mode)
