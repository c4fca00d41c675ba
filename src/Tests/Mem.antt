-- ===== src/Tests/Mem.antt =====
-- Runs of src/mem.rs.
use towboot_rust.Prelude.{
  ℕ, ◌+◌, ◌-◌, ◌*◌, ◌/◌, ◌^◌, ◌<◌, ◌≤◌, ◌≡◌, refl, ◌⊎◌, ◌==◌, if◌then◌else◌, Option, none, some,
  List, [], ◌∷◌, map, String, ok, panic, arith, length, wrap, narrow,
}
use towboot_rust.Firmware.{
  MemoryDescriptor, reserved, loader_data, boot_services_data, conventional,
}
use towboot_rust.Multiboot as Multiboot
use towboot_rust.Multiboot.{MemoryType, MemoryEntry, available}
use towboot_rust.Config.{modules_below_200mb}
use towboot_rust.Mem.Map.{
  MemoryInformation, prepare_information, add_entries, to_entry, add_entry, is_adjacent,
  kernel_type, joined_entry,
}
use towboot_rust.Mem.Map.Join.{cover, IsJoined, joined}
use towboot_rust.Mem.Map.Loop.{entry_of}
use towboot_rust.Mem.Map.Laws.{
  prepare_information-cover, prepare_information-ok, prepare_information-no_upper,
}
use towboot_rust.Mem.Bytes.{copy}
use towboot_rust.Mem.Allocation.{Allocation, calculate_page_count, new_under_4gb, new_at}
use towboot_rust.Mem.Map.{page_size}
use towboot_rust.Mem.Allocation.Size.{IsBelow, top, new_under_4gb-IsBelow, new_at-cases}
use towboot_rust.Mem.Allocation.Ledger.{Balanced, nothing, block}
use towboot_rust.Mem.Allocation.Balance.{Balanced-new_at}
use towboot_rust.Mem.Move.{move_to_where_it_should_be}
use towboot_rust.Mem.Move.Laws.{around, move-ok, move-needs}
use towboot_rust.Mem.Allocator as Allocator
use towboot_rust.Mem.Allocator.{Heap, MultibootAllocator, paddr_to_slice, allocate, deallocate}
use towboot_rust.Mem.Allocator.Laws.{new-IsValid, deallocate-allocate}
use towboot_rust.Tests.Pages.{held, pages, pages-IsLawful, target, machine}

-- 640 KB of free memory, a reserved hole up to 1 MB, and memory of two kinds behind it.
abbrev low : MemoryDescriptor
low = record { ty = boot_services_data; phys_start = 0; page_count = 160 }

abbrev hole : MemoryDescriptor
hole = record { ty = reserved; phys_start = 655360; page_count = 96 }

abbrev high : MemoryDescriptor
high = record { ty = loader_data; phys_start = 1048576; page_count = 256 }

abbrev more : MemoryDescriptor
more = record { ty = conventional; phys_start = 2097152; page_count = 512 }

abbrev empty : MemoryEntry
empty = record { base_address = 0; length = 0; memory_type = Multiboot.reserved }

abbrev fresh : List MemoryEntry
fresh = empty ∷ empty ∷ empty ∷ empty ∷ []

abbrev told : MemoryInformation
told = record {
  lower = 640;
  upper = 3072;
  count = 3;
  regions =
      record { base_address = 0; length = 655360; memory_type = available }
      ∷ record { base_address = 655360; length = 393216; memory_type = Multiboot.reserved }
      ∷ record { base_address = 1048576; length = 3145728; memory_type = available }
      ∷ [];
}

run : prepare_information target (low ∷ hole ∷ high ∷ more ∷ []) (empty ∷ fresh) ≡ ok told
unfolding prepare_information add_entries to_entry wrap add_entry is_adjacent kernel_type
    joined_entry narrow
run = refl

prepare_information-cover_example :
    ((a : ℕ) (ty : MemoryType)
      → cover a ty told.regions ≡ cover a ty (map entry_of (low ∷ hole ∷ high ∷ more ∷ [])))
    × IsJoined told.regions
unfolding entry_of kernel_type
prepare_information-cover_example =
    prepare_information-cover target low (hole ∷ high ∷ more ∷ []) empty fresh told
      (omega arith, (omega arith, (omega arith, (omega arith, tt)))) (omega arith) run

prepare_information-ok_example :
    prepare_information target (low ∷ hole ∷ high ∷ more ∷ []) (empty ∷ fresh)
    ≡ ok (record {
      lower = 640;
      upper = 3145728 / 1024;
      count = length (joined (map entry_of (low ∷ hole ∷ high ∷ more ∷ [])));
      regions = joined (map entry_of (low ∷ hole ∷ high ∷ more ∷ []));
    })
unfolding towboot_rust.Mem.Map.Join.join_from towboot_rust.Mem.Map.Join.joinable entry_of
    kernel_type
prepare_information-ok_example =
    prepare_information-ok target low (hole ∷ high ∷ more ∷ []) empty fresh
      (record { base_address = 1048576; length = 3145728; memory_type = available })
      (omega arith, (omega arith, (omega arith, (omega arith, tt)))) (omega arith) refl
      (omega arith)

-- One region from 0 to 4 MB.
abbrev flat : MemoryDescriptor
flat = record { ty = conventional; phys_start = 0; page_count = 1024 }

prepare_information-no_upper_example :
    (m : String) × (prepare_information target (flat ∷ []) (empty ∷ []) ≡ panic m)
unfolding towboot_rust.Mem.Map.Join.join_from entry_of
prepare_information-no_upper_example =
    prepare_information-no_upper target flat [] empty [] (omega arith, tt) (omega arith) refl refl

-- An allocation that should be at 2 MB, and a map with one region around that.
abbrev displaced : Allocation
displaced = record { ptr = 1048576; len = 5000; pages = 2; should_be_at = some 2097152 }

abbrev ram : MemoryEntry
ram = record { base_address = 1048576; length = 3145728; memory_type = available }

abbrev memory_map : List MemoryEntry
memory_map = record { base_address = 0; length = 655360; memory_type = available } ∷ ram ∷ []

abbrev moved : Allocation
moved = record { ptr = 2097152; len = 5000; pages = 2; should_be_at = none }

move-ok_example :
    move_to_where_it_should_be target displaced memory_map machine
    ≡ (ok moved, record machine { memory = copy 1048576 2097152 5000 machine.memory })
unfolding around
move-ok_example =
    move-ok target displaced 2097152 memory_map (omega arith) (omega arith, (omega arith, tt)) refl
      ram machine (omega arith) (omega arith) refl refl

move-needs_example :
    (e : MemoryEntry) × (around 2097152 5000 memory_map ≡ e ∷ []) × (e.memory_type ≡ available)
unfolding around move_to_where_it_should_be towboot_rust.Mem.Move.next_around
    towboot_rust.Mem.Move.is_around wrap narrow
move-needs_example =
    move-needs target displaced 2097152 memory_map (omega arith) (omega arith, (omega arith, tt))
      refl moved machine refl

-- Two pages at the very end of what the quirk allows.
abbrev kernel_file : Allocation
kernel_file = record { ptr = 209707009; len = 5000; pages = 2; should_be_at = none }

new_under_4gb-IsBelow_example :
    IsBelow 5000 (top (modules_below_200mb ∷ []) + 1) kernel_file
    × (kernel_file.should_be_at ≡ none)
unfolding new_under_4gb calculate_page_count
new_under_4gb-IsBelow_example =
    new_under_4gb-IsBelow pages held pages-IsLawful 5000 (modules_below_200mb ∷ []) machine
      kernel_file refl

abbrev elsewhere : Allocation
elsewhere = record { ptr = 4294959104; len = 5000; pages = 2; should_be_at = some 2097152 }

new_at-cases_example :
    ((elsewhere.ptr ≡ 2097152)
      × (elsewhere.len ≡ 5000)
      × (5000 ≤ elsewhere.pages * page_size)
      × (elsewhere.should_be_at ≡ none))
    ⊎ (IsBelow 5000 (2 ^ 32) elsewhere × (elsewhere.should_be_at ≡ some 2097152))
unfolding new_at towboot_rust.Mem.Allocation.dump_memory_map new_under_4gb calculate_page_count
new_at-cases_example = new_at-cases pages held pages-IsLawful 2097152 5000 machine elsewhere refl

Balanced-new_at_example : Balanced held nothing block (new_at pages 2097152 5000)
Balanced-new_at_example = Balanced-new_at pages held pages-IsLawful 2097152 5000

-- An allocator that gives the address 4096 and has nothing to remember.
abbrev heap : Heap (Unit {0})
heap = record { alloc = λ n s. (4096, s); dealloc = λ p n s. s; max_layout = 2 ^ 63 - 1 }

abbrev full : MultibootAllocator
full = record { allocations = (4096, 12) ∷ [] }

deallocate-allocate_example :
    let back = deallocate heap 4096 (allocate heap 12 (Allocator.new, tt)).1 in
    (back.0 ≡ ok tt) × ((q k : ℕ) → paddr_to_slice back.1.0 q k ≡ paddr_to_slice Allocator.new q k)
unfolding allocate paddr_to_slice towboot_rust.Prelude.OrderedMap.lookup Allocator.new
deallocate-allocate_example =
    deallocate-allocate heap 12 Allocator.new tt 4096 12 new-IsValid refl refl
