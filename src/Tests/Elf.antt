-- ===== src/Tests/Elf.antt =====
-- Runs of src/boot/elf.rs: a kernel of two segments, the second of which has the entry point.
use mathlib.Core.Option.{get_or}
use towboot_rust.Prelude.{
  ℕ, ◌+◌, ◌*◌, ◌-◌, ◌^◌, ◌<◌, ◌≡◌, refl, none, some, List, [], ◌∷◌, ok, done, arith,
}
use towboot_rust.Firmware.{World}
use towboot_rust.Mem.Allocation.{Allocation}
use towboot_rust.Mem.Allocation.Ledger.{Balanced}
use towboot_rust.Mem.Bytes.{write, fill}
use towboot_rust.Elf.Loader as Loader
use towboot_rust.Elf.Loader.{ProgramHeader, OurElfLoader, load_segment, load_elf, entry_point}
use towboot_rust.Elf.Loader.Ownership.{held_by, left, Balanced-load_elf}
use towboot_rust.Elf.Loader.Segment.{IsLoaded, load_segment-IsLoaded}
use towboot_rust.Elf.Loader.Entry.{translate, entry_point-load_elf}
use towboot_rust.Tests.Pages.{Blocks, held, pages, pages-IsLawful, target, machine}

abbrev image : List ℕ
image = 1 ∷ 2 ∷ 3 ∷ 4 ∷ 5 ∷ []

abbrev boot_segment : ProgramHeader
boot_segment = record {
  p_type = 1;
  p_vaddr = 1048576;
  p_paddr = 1048576;
  p_memsz = 100;
  file_start = 0;
  file_end = 2;
}

abbrev text_segment : ProgramHeader
text_segment = record {
  p_type = 1;
  p_vaddr = 3221225472;
  p_paddr = 1572864;
  p_memsz = 8192;
  file_start = 2;
  file_end = 5;
}

abbrev entry : ℕ
entry = 3221225504

abbrev boot_block : Allocation
boot_block = record { ptr = 1048576; len = 100; pages = 1; should_be_at = none }

abbrev text_block : Allocation
text_block = record { ptr = 1572864; len = 8192; pages = 2; should_be_at = none }

abbrev first : OurElfLoader
first = record {
  allocations = (1048576, boot_block) ∷ [];
  virtual_entry_point = entry;
  physical_entry_point = none;
}

abbrev loaded : OurElfLoader
loaded = record {
  allocations = (1048576, boot_block) ∷ (3221225472, text_block) ∷ [];
  virtual_entry_point = entry;
  physical_entry_point = some 1572896;
}

abbrev after_first : World Blocks
after_first = record {
  firmware = (1048576, 1) ∷ [];
  memory = write 1048576 (1 ∷ 2 ∷ []) (fill 1048576 4096 0 machine.memory);
}

abbrev after : World Blocks
after = record {
  firmware = (1572864, 2) ∷ (1048576, 1) ∷ [];
  memory = write 1572864 (3 ∷ 4 ∷ 5 ∷ []) (fill 1572864 8192 0 after_first.memory);
}

segment_run :
    load_segment target pages boot_segment image (Loader.new entry) machine
    ≡ (ok (done tt, first), after_first)
unfolding load_segment Loader.allocate towboot_rust.Prelude.narrow
    towboot_rust.Mem.Allocation.new_at towboot_rust.Prelude.wrap
    towboot_rust.Mem.Allocation.calculate_page_count towboot_rust.Prelude.OrderedMap.replaced
    Loader.new Loader.find_entry towboot_rust.Mem.Bytes.slice? Loader.load
    towboot_rust.Prelude.OrderedMap.lookup towboot_rust.Prelude.OrderedMap.insert
segment_run = refl

load_run :
    load_elf target pages (boot_segment ∷ text_segment ∷ []) image (Loader.new entry) machine
    ≡ (ok (done tt, loaded), after)
unfolding load_elf load_segment Loader.allocate towboot_rust.Prelude.narrow
    towboot_rust.Mem.Allocation.new_at towboot_rust.Prelude.wrap
    towboot_rust.Mem.Allocation.calculate_page_count towboot_rust.Prelude.OrderedMap.replaced
    Loader.new Loader.find_entry towboot_rust.Mem.Bytes.slice? Loader.load
    towboot_rust.Prelude.OrderedMap.lookup towboot_rust.Prelude.OrderedMap.insert
    towboot_rust.Prelude.subtract
load_run = refl

Balanced-load_elf_example :
    Balanced held (held_by first) left (load_elf target pages (text_segment ∷ []) image first)
Balanced-load_elf_example =
    Balanced-load_elf target pages held pages-IsLawful (text_segment ∷ []) image first

load_segment-IsLoaded_example :
    IsLoaded target pages boot_segment image (Loader.new entry) first machine after_first
load_segment-IsLoaded_example =
    load_segment-IsLoaded target pages boot_segment image (Loader.new entry) first machine
      after_first refl segment_run

entry_point-load_elf_example :
    entry_point target loaded
    ≡ ok (get_or (translate entry (boot_segment ∷ text_segment ∷ []) none) entry)
entry_point-load_elf_example =
    entry_point-load_elf target pages (boot_segment ∷ text_segment ∷ []) image entry loaded machine
      after ((omega arith, omega arith), ((omega arith, omega arith), tt)) load_run (omega arith)
