-- ===== src/Mem/Map.antt =====
-- src/mem.rs: `prepare_information`, which turns UEFI's memory map into Multiboot's.
-- The buffer is a list. `entry_iter` is the index of the entry that it gave last, `current`.
pub mod Join
pub mod Loop
pub mod Laws
use towboot_rust.Prelude.{
  ℕ, zero, suc, ◌+◌, ◌*◌, ◌/◌, ◌%◌, Bool, true, false, Option, none, some, List, [], ◌∷◌, ◌==◌,
  get_elem?, set, take, find?, if◌then◌else◌, Outcome, ok, panic, unwrap, ◌>>=◌, Target, wrap,
  narrow,
}
use towboot_rust.Firmware.{
  Status, MemoryDescriptor, loader_code, loader_data, boot_services_code, boot_services_data,
  runtime_services_code, runtime_services_data, conventional, unusable, acpi_reclaim,
  acpi_non_volatile, mmio, mmio_port_space, pal_code, persistent_memory,
}
use towboot_rust.Firmware as Uefi
use towboot_rust.Multiboot.{
  MemoryType, MemoryEntry, available, reserved, acpi, nvs, defect, same_type,
}

abbrev pub page_size : ℕ
page_size = 4096

-- The memory type that the kernel is told, for each of the firmware's.
unfoldable pub kernel_type : Uefi.MemoryType → MemoryType
kernel_type loader_code = available
kernel_type loader_data = available
kernel_type boot_services_code = available
kernel_type boot_services_data = available
kernel_type runtime_services_code = reserved
kernel_type runtime_services_data = reserved
kernel_type conventional = available
kernel_type unusable = defect
kernel_type acpi_reclaim = acpi
kernel_type acpi_non_volatile = nvs
kernel_type mmio = reserved
kernel_type mmio_port_space = reserved
kernel_type pal_code = reserved
kernel_type persistent_memory = available
kernel_type _ = reserved

unfoldable pub to_entry : Target → MemoryDescriptor → Outcome ⊥ MemoryEntry
to_entry t d = do
  length ← wrap t 64 (d.page_count * page_size)
  ok (record { base_address = d.phys_start; length = length; memory_type = kernel_type d.ty })

-- The test of the join: `&&` computes the sum only for entries of the same type.
unfoldable pub is_adjacent : Target → MemoryEntry → MemoryEntry → Outcome ⊥ Bool
is_adjacent t next current =
    if same_type next.memory_type current.memory_type
    then (do end ← wrap t 64 (current.base_address + current.length); ok (next.base_address == end))
    else ok false

unfoldable pub joined_entry : Target → MemoryEntry → MemoryEntry → Outcome ⊥ MemoryEntry
joined_entry t next current = do
  length ← wrap t 64 (current.length + next.length)
  ok (record current { length = length })

-- The variables of the loop.
pub record Cursor : Type 0 where
  pub count : ℕ
  pub current : ℕ
  pub buf : List MemoryEntry

-- `current_entry = entry_iter.next().unwrap(); *current_entry = next_entry; count += 1;`.
abbrev advance : Cursor → MemoryEntry → Outcome ⊥ Cursor
advance c next = do
  _ ← unwrap (get_elem? c.buf (c.current + 1)) "called `Option::unwrap()` on a `None` value"
  ok (record { count = c.count + 1; current = c.current + 1; buf = set c.buf (c.current + 1) next })

abbrev join_or_advance : Target → Cursor → MemoryEntry → MemoryEntry → Bool → Outcome ⊥ Cursor
join_or_advance t c next current true = do
  e ← joined_entry t next current
  ok (record c { buf = set c.buf c.current e })
join_or_advance t c next current false = advance c next

-- One round of the loop.
unfoldable pub add_entry : Target → Cursor → MemoryEntry → Outcome ⊥ Cursor
add_entry t c next =
    if c.count == 0
    then ok (record c { count = c.count + 1; buf = set c.buf c.current next })
    else (do
      current ← unwrap (get_elem? c.buf c.current) "current_entry"
      adjacent ← is_adjacent t next current
      join_or_advance t c next current adjacent)

unfoldable pub add_entries : Target → Cursor → List MemoryDescriptor → Outcome ⊥ Cursor
add_entries t c [] = ok c
add_entries t c (d ∷ ds) = do next ← to_entry t d; c' ← add_entry t c next; add_entries t c' ds

-- What is passed to the kernel by `set_memory_bounds` and `set_memory_regions`, and the slice that
-- is returned. The regions are the first `count` entries of the buffer.
pub record MemoryInformation : Type 0 where
  pub lower : ℕ
  pub upper : ℕ
  pub count : ℕ
  pub regions : List MemoryEntry

abbrev pub starts_at_1mb : MemoryEntry → Bool
starts_at_1mb e = e.base_address == 1024 * 1024

unfoldable pub prepare_information :
    Target → List MemoryDescriptor → List MemoryEntry → Outcome ⊥ MemoryInformation
prepare_information t mmap_iter mb_mmap_buf = do
  _ ← unwrap (get_elem? mb_mmap_buf 0) "called `Option::unwrap()` on a `None` value"
  c ← add_entries t (record { count = 0; current = 0; buf = mb_mmap_buf }) mmap_iter
  e ← unwrap (find? starts_at_1mb c.buf) "called `Option::unwrap()` on a `None` value"
  upper ← narrow 32 (e.length / 1024)
  ok (record { lower = 640; upper = upper; count = c.count; regions = take c.count c.buf })
