-- ===== src/Multiboot.antt =====
-- What the sources take from the `multiboot` crate: the values of its header and of its
-- information structure.
use towboot_rust.Prelude.{ℕ, Bool, true, false}

-- `multiboot::information::MemoryType`.
pub data MemoryType : Type 0 where
  available reserved acpi nvs defect : MemoryType

-- `==` of memory types.
abbrev pub same_type : MemoryType → MemoryType → Bool
same_type available available = true
same_type reserved reserved = true
same_type acpi acpi = true
same_type nvs nvs = true
same_type defect defect = true
same_type _ _ = false

-- `multiboot::information::MemoryEntry`, by its accessors.
pub record MemoryEntry : Type 0 where
  pub base_address : ℕ
  pub length : ℕ
  pub memory_type : MemoryType
