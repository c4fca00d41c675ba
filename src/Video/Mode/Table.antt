-- ===== src/Video/Mode/Table.antt =====
-- src/boot/video.rs: what the framebuffer table says.
use towboot_rust.Prelude.{
  ℕ, ◌+◌, ◌*◌, ◌/◌, ◌^◌, ◌<◌, ◌≡◌, Option, none, some, ok, arith, Target, wrap, wrap_of_lt, narrow,
  sym, ap, ◌∙◌, >>=-eq-ok,
}
use towboot_rust.Firmware.{PixelBitmask}
use towboot_rust.Video.Color.{ColorInfoRgb, bitmask_to_bpp, bitmask_to_color_info}
use towboot_rust.Video.Color.Depth.{bitmask_to_bpp-eq-sizes}
use towboot_rust.Video.Mode.{
  PixelFormat, rgb, bgr, bitmask, blt_only, ModeInfo, FramebufferTable, colors_of, table_of,
  prepare_framebuffer,
}

abbrev pub color_bits : ColorInfoRgb → ℕ
color_bits c = c.red_mask_size + c.green_mask_size + c.blue_mask_size

-- The depth of a pixel format, by the colours that are reported with it.
abbrev pub depth : PixelFormat → ColorInfoRgb → ℕ
depth bitmask c = color_bits c
depth _ c = 32

colors_of-depth :
    (p : PixelFormat) (m : Option PixelBitmask) (bpp : ℕ) (c : ColorInfoRgb)
    → colors_of p m ≡ ok (bpp, c)
    → bpp ≡ depth p c
unfolding colors_of
colors_of-depth rgb m bpp c h = ground (arith, h)
colors_of-depth bgr m bpp c h = ground (arith, h)
colors_of-depth bitmask none bpp c h = ground (arith, h)
colors_of-depth bitmask (some m) bpp c h =
    let (n, e1, h1) = >>=-eq-ok (bitmask_to_bpp m) _ h in
    let (info, e2, h2) = >>=-eq-ok (bitmask_to_color_info m) _ h1 in
    let total = bitmask_to_bpp-eq-sizes m n info e1 e2 in ground (arith, h2, total)
colors_of-depth blt_only m bpp c h = ground (arith, h)

table-parts :
    (t : Target) (address : ℕ) (mode : ModeInfo) (colors : ℕ × ColorInfoRgb)
    (table : FramebufferTable)
    → table_of t address mode colors ≡ ok table
    → (table.bpp ≡ colors.0)
      × (table.color_info ≡ colors.1)
      × (wrap {E = ⊥} t t.usize_bits (mode.stride * (colors.0 / 8)) ≡ ok table.pitch)
      × (table.width ≡ mode.width)
      × (table.height ≡ mode.height)
unfolding table_of narrow
table-parts t address mode colors table h = ground arith

pitch_of :
    (t : Target) (stride n bpp pitch : ℕ)
    → bpp ≡ n
    → wrap {E = ⊥} t t.usize_bits (stride * (bpp / 8)) ≡ ok (stride * (bpp / 8))
    → wrap {E = ⊥} t t.usize_bits (stride * (n / 8)) ≡ ok pitch
    → pitch ≡ stride * (bpp / 8)
pitch_of t stride n bpp pitch same w p =
    let q = ap (λ (x : ℕ). wrap {E = ⊥} t t.usize_bits (stride * (x / 8))) same in
    ground (arith, q, w, p)

-- If the pitch fits a `usize`, the table that is passed to the kernel has the size of the mode, a
-- depth of 32 bits or, for a bitmask, of as many bits as the colours that are passed have
-- together, and a pitch of the mode's stride times the whole bytes of that depth.
pub prepare_framebuffer-depth :
    (t : Target) (address : ℕ) (mode : ModeInfo) (table : FramebufferTable)
    → mode.stride * (table.bpp / 8) < 2 ^ t.usize_bits
    → prepare_framebuffer t address mode ≡ ok table
    → (table.bpp ≡ depth mode.pixel_format table.color_info)
      × (table.pitch ≡ mode.stride * (table.bpp / 8))
      × (table.width ≡ mode.width)
      × (table.height ≡ mode.height)
unfolding prepare_framebuffer
prepare_framebuffer-depth t address mode table fits h =
    let (colors, e1, h1) = >>=-eq-ok (colors_of mode.pixel_format mode.pixel_bitmask) _ h in
    let (same, info, pitch, width, height) = table-parts t address mode colors table h1 in
    let deep = colors_of-depth mode.pixel_format mode.pixel_bitmask colors.0 colors.1 e1 in
    let wrapped = wrap_of_lt {E = ⊥} t t.usize_bits (mode.stride * (table.bpp / 8)) fits in
    (
      same ∙ deep ∙ ap (depth mode.pixel_format) (sym info),
      pitch_of t mode.stride colors.0 table.bpp table.pitch same wrapped pitch,
      width,
      height,
    )
