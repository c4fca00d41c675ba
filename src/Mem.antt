-- ===== src/Mem.antt =====
-- src/mem.rs: the loader's own allocations, the allocator of the `multiboot` crate, and the memory
-- map for the kernel.
pub mod Map
pub mod Allocator
pub mod Bytes
pub mod Move
pub mod Allocation
