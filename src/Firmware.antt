-- ===== src/Firmware.antt =====
-- What the sources take from the `uefi` crate: its codes and values, and its services as
-- parameters over an unknown state of the firmware.
pub mod Exec
pub mod Laws
pub mod Console
pub mod Yields
use towboot_rust.Prelude.{ℕ, String, Result, Option, List}

-- `uefi::Status`: the codes that the sources name, and all others by their number.
pub data Status : Type 0 where
  success invalid_parameter load_error device_error not_found unsupported : Status
  protocol_error end_of_file buffer_too_small : Status
  other : ℕ → Status

-- `uefi::table::boot::MemoryType`.
pub data MemoryType : Type 0 where
  reserved loader_code loader_data boot_services_code boot_services_data : MemoryType
  runtime_services_code runtime_services_data conventional unusable acpi_reclaim : MemoryType
  acpi_non_volatile mmio mmio_port_space pal_code persistent_memory : MemoryType
  custom : ℕ → MemoryType

-- `uefi::table::boot::MemoryDescriptor`, by the fields that the sources read.
pub record MemoryDescriptor : Type 0 where
  pub ty : MemoryType
  pub phys_start : ℕ
  pub page_count : ℕ

-- `uefi::table::boot::AllocateType`, by the variants that the sources use.
pub data AllocateType : Type 0 where
  max_address address : ℕ → AllocateType

-- The memory services of the firmware. `S` is the firmware's state.
pub record PageServices (S : Type 0) : Type 0 where
  pub allocate_pages : AllocateType → MemoryType → ℕ → S → Result Status ℕ × S
  pub free_pages : ℕ → ℕ → S → Result Status (Unit {0}) × S
  pub memory_map : S → Result Status (List MemoryDescriptor)

-- `PixelBitmask` of the graphics output protocol.
pub record PixelBitmask : Type 0 where
  pub red : ℕ
  pub green : ℕ
  pub blue : ℕ
  pub reserved : ℕ

-- The machine as the loader sees it: the firmware's state, and a byte at each address.
pub record World (S : Type 0) : Type 0 where
  pub firmware : S
  pub memory : ℕ → ℕ
