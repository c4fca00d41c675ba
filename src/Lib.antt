-- ===== src/Lib.antt =====
-- towboot: a Multiboot loader for UEFI machines.
--
-- The program runs as a UEFI application. It takes a configuration from its command line or from a
-- file (config.rs), lets the user choose an entry (menu.rs), reads the kernel and its modules into
-- pages that it takes from the firmware (file.rs, mem.rs), loads the kernel's segments to where they
-- belong (boot/elf.rs, boot/mod.rs), sets a video mode (boot/video.rs), translates the firmware's
-- memory map for the kernel (mem.rs), and jumps to the kernel. Paths below are from the repository's
-- root.
--
--   Prelude       tests on numbers, lists, outcomes, words of a fixed width, ordered maps, bits
--   Firmware      what the sources take from the `uefi` crate. `World` is the firmware's state, of
--                 an unknown type, and a byte at each address. `Firmware.Exec` is code that changes
--                 a world, may return an error and may panic. `Firmware.Laws` is what is relied on
--                 of the memory services: which blocks are allocated, counted in a ledger
--   Multiboot     what the sources take from the `multiboot` crate
--   Mem.Map       src/mem.rs, `prepare_information`
--   Mem.Allocation  src/mem.rs, `Allocation`: `new_at`, `new_under_4gb`, `Drop` as `free`
--   Mem.Move      src/mem.rs, `contains` and `move_to_where_it_should_be`
--   Mem.Allocator src/mem.rs, `MultibootAllocator`; its history is taken down by a wrapper around
--                 Rust's allocator, which is a parameter
--   Mem.Bytes     copies, fills and writes of bytes in memory
--   File          src/file.rs, over the file protocol as a parameter
--   Elf.Loader    src/boot/elf.rs, `OurElfLoader`, over the headers that `goblin` reads
--   Video.Color   src/boot/video.rs, the conversion of pixel bitmasks
--   Elf.Symbols   src/boot/elf.rs, `symbols`
--   Video.Mode    src/boot/video.rs, `setup_video` and `prepare_information`, here
--                 `prepare_framebuffer`
--   Kernel        src/boot/mod.rs, `LoadedKernel`
--   Prepare       src/boot/mod.rs, `PreparedEntry`: `new`, here `prepare`, and `boot` up to the
--                 assembly; Prepare.Image and Prepare.Modules follow the kernel and the modules
--                 from the volume to the memory at the jump
--   Machine       src/boot/mod.rs, the assembly at the end of `boot`: instructions, and a processor
--                 that executes them
--   Main          src/main.rs, `efi_main`
--   Config        src/config.rs, the types; Config.Options, `parse_load_options`
--   Config.Get    src/config.rs, `get` and `read_file`
--   Menu          src/menu.rs, over a list of what the user and the timer do
--   Tests         runs on concrete inputs, with memory services that keep a list of blocks
--
-- Rust's ownership is written out: where a scope ends, or an early return leaves it, the model calls
-- `free` for the allocations that the scope owns (`dropping`). A call is `Balanced` if, of lawful
-- memory services, it turns the blocks that it is given into the blocks of its result, and leaves
-- none of them when it returns an error. After a panic nothing is promised, since the program ends.
--
-- Loops over lists are recursions on the list. The loops over the bits of a mask are recursions on
-- the rounds that are left, 31 at the start as in the source, so no fuel runs out. Sums and products
-- of words panic or wrap, as the target's profile says (`Prelude.Words`); `usize` is 32 or 64 bits
-- wide, by the target. Numbers of pages are not bounded, since they are quotients of a `usize`.
--
-- The menu's loop that selects an entry runs on fuel, one more than there are events: each attempt
-- that comes to an end takes at least one event (`Menu.Retry`). The processor of `Machine` has the
-- registers that the assembly names, and raises an exception, given as `none`, where the manuals
-- say so of these instructions. Flags, segments and the address space are left out.
--
-- A wait or a read of a key that fails is an event of the list, and it is used up: a firmware that
-- fails without end is a list that does not end, of which the menu sees a beginning.
--
-- What Rust keeps on its stack and its heap is values and not bytes of a world's memory. Where the
-- information for the kernel lies is a parameter of `boot`: if a displaced kernel is moved over a
-- part of it, nothing is said of what the kernel reads there. The vector of `symbols` has an address
-- that changes when it grows past its capacity.
--
-- Not modelled: log output, the parsing of ELF, TOML and Multiboot headers, which other crates do,
-- the size of the buffer for the memory map that is only logged, the closing of files and protocols,
-- and the stubs for the linker in src/hacks.rs.
pub mod Prelude
pub mod Firmware
pub mod Multiboot
pub mod Config
pub mod Mem
pub mod File
pub mod Elf
pub mod Video
pub mod Menu
pub mod Kernel
pub mod Machine
pub mod Main
pub mod Prepare
pub mod Tests
