-- ===== src/Video.antt =====
-- src/boot/video.rs: the video mode and the framebuffer information for the kernel.
pub mod Color
pub mod Mode
