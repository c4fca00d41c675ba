-- ===== src/Elf.antt =====
-- src/boot/elf.rs: loading the segments of an ELF file, and passing on its sections.
pub mod Loader
pub mod Symbols
