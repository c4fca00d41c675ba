-- ===== src/Tests.antt =====
-- Runs of the modelled code on concrete inputs.
pub mod Pages
pub mod Mem
pub mod Video
pub mod Config
pub mod File
pub mod Elf
pub mod Mode
pub mod Boot
pub mod Get
pub mod Menu
pub mod Machine
pub mod Main
pub mod Allocator
pub mod Symbols
pub mod Apart
