-- ===== src/Tests/Boot.antt =====
-- Runs of src/boot/mod.rs: a kernel of three bytes, from the volume to the jump.
use towboot_rust.Prelude.{
  ℕ, ◌+◌, ◌-◌, ◌≤◌, ◌<◌, ◌≡◌, ◌≢◌, refl, Option, none, some, List, [], ◌∷◌, String, ok, Result,
  done, failed, take, drop, arith,
}
use towboot_rust.Firmware.{World, conventional, reserved}
use towboot_rust.Multiboot as Multiboot
use towboot_rust.Config.{Entry}
use towboot_rust.Mem.Map.{MemoryInformation}
use towboot_rust.Mem.Allocation.{Allocation}
use towboot_rust.Mem.Allocation.Ledger.{Balanced, nothing}
use towboot_rust.Mem.Bytes.{write, fill}
use towboot_rust.Elf.Symbols.{SymbolServices}
use towboot_rust.Kernel.{
  MultibootAddresses, multiboot, LoadedKernel, KernelFormats, new, new_multiboot,
}
use towboot_rust.Kernel.Image.{IsPlaced, new_multiboot-IsPlaced, new_multiboot-whole_file}
use towboot_rust.Video.Mode.{GraphicsServices, rgb, ModeInfo}
use towboot_rust.Prepare.{
  Header, Information, PreparedEntry, Services, prepare, LastCall, Jump, boot,
}
use towboot_rust.Prepare.Ownership.{ShowsOnly, entry_owns, Balanced-prepare}
use towboot_rust.Prepare.Boot.{IsReady, boot-IsReady}
use towboot_rust.Tests.Pages.{Blocks, held, pages, pages-IsLawful, target, machine}
use towboot_rust.Tests.File.{volume, volume-LeavesPages, content}

-- A kernel for an address that is taken, so that it has to be moved at the end.
abbrev pub addresses : MultibootAddresses
addresses = record {
  header_address = 2097152;
  load_address = 2097152;
  load_end_address = 2097155;
  bss_end_address = 2097160;
  entry_address = 2097152;
}

abbrev symbol_services : SymbolServices
symbol_services = record {
  reserve = λ n. n;
  grow = λ c n. (n, 131072);
  ptr = 65536;
  encode = λ is_64 little s. [];
}

abbrev pub formats : KernelFormats
formats = record {
  compute_load_offset = λ a start. ok 0;
  parse_elf = λ bytes. failed "no ELF";
  symbol_services = symbol_services;
}

abbrev place : Allocation
place = record { ptr = 4294963200; len = 8; pages = 1; should_be_at = some 2097152 }

abbrev kernel : LoadedKernel
kernel = record { allocations = place ∷ []; addresses = multiboot addresses; symbols = none }

abbrev loaded : World Blocks
loaded = record {
  firmware = (4294963200, 1) ∷ [];
  memory = write 4294963200 (take 4096 content) (fill 4294963200 4096 0 machine.memory);
}

new_run : new_multiboot formats target pages content addresses 0 machine ≡ (ok kernel, loaded)
unfolding new_multiboot towboot_rust.Kernel.kernel_length towboot_rust.Prelude.subtract
    towboot_rust.Prelude.narrow towboot_rust.Mem.Allocation.new_at
    towboot_rust.Mem.Allocation.dump_memory_map towboot_rust.Mem.Allocation.new_under_4gb
    towboot_rust.Mem.Allocation.calculate_page_count towboot_rust.Prelude.wrap
new_run = refl

new_multiboot-IsPlaced_example :
    (load_offset : ℕ) × (formats.compute_load_offset addresses 0 ≡ ok load_offset)
    × IsPlaced formats target pages addresses
        (take (addresses.load_end_address - addresses.load_address) (drop load_offset content))
        kernel
        machine
        loaded
new_multiboot-IsPlaced_example =
    new_multiboot-IsPlaced formats target pages content addresses 0 kernel machine loaded
      (record { text = omega arith; bss = λ h. omega arith }) new_run

-- A load end of 0, which stands for the whole file.
abbrev whole_file : MultibootAddresses
whole_file = record addresses { load_end_address = 0 }

new_multiboot-whole_file_example :
    new_multiboot formats target pages content whole_file 0 machine ≢ (ok kernel, loaded)
new_multiboot-whole_file_example =
    new_multiboot-whole_file formats target pages content whole_file 0 kernel machine loaded refl
      refl (omega arith)

abbrev screen : ModeInfo
screen = record {
  width = 640;
  height = 480;
  stride = 640;
  pixel_format = rgb;
  pixel_bitmask = none;
}

abbrev card : GraphicsServices Blocks
card = record {
  locate = λ s. (done tt, s);
  modes = λ s. [];
  set_mode = λ m s. (done tt, s);
  current_mode_info = λ s. screen;
  frame_buffer = λ s. 3221225472;
}

abbrev pub card-ShowsOnly : ShowsOnly card held
card-ShowsOnly = record { locate = λ s p n. refl; set_mode = λ m s p n. refl }

abbrev pub services : Services Blocks (Unit {0})
services = record {
  pages = pages;
  files = volume;
  graphics = card;
  formats = formats;
  parse_header = λ bytes.
      some (record { addresses = some addresses; header_start = 0; preferred_video_mode = none });
  loader_name = "towboot 0.1.0";
}

abbrev entry : Entry
entry = record {
  argv = some "-v";
  image = "kernel";
  name = none;
  quirks = [];
  modules = record { argv = none; image = "module" } ∷ [];
}

Balanced-prepare_example : Balanced held nothing entry_owns (prepare target services entry)
Balanced-prepare_example =
    Balanced-prepare target services held pages-IsLawful volume-LeavesPages card-ShowsOnly entry

abbrev pub information : Information
information = record {
  command_line = some "-v";
  modules = [];
  symbols = none;
  boot_loader_name = "towboot 0.1.0";
  framebuffer = record {
    address = 3221225472;
    pitch = 2560;
    width = 640;
    height = 480;
    bpp = 32;
    color_info = record {
      red_field_position = 0;
      red_mask_size = 8;
      green_field_position = 8;
      green_mask_size = 8;
      blue_field_position = 16;
      blue_mask_size = 8;
    };
  };
}

abbrev pub prepared : PreparedEntry
prepared = record {
  entry = entry;
  loaded_kernel = kernel;
  multiboot_information = information;
  modules_vec = [];
}

abbrev pub last_call : LastCall Blocks
last_call = record {
  map_size = λ s. 2;
  exit_boot_services = λ n s. (
    done (
        record { ty = reserved; phys_start = 0; page_count = 256 }
        ∷ record { ty = conventional; phys_start = 1048576; page_count = 1024 }
        ∷ []),
    s,
  );
  places = λ p m. (65536, 4096) ∷ (131072, 2000) ∷ [];
}

abbrev pub memory_information : MemoryInformation
memory_information = record {
  lower = 640;
  upper = 4096;
  count = 2;
  regions =
      record { base_address = 0; length = 1048576; memory_type = Multiboot.reserved }
      ∷ record { base_address = 1048576; length = 4194304; memory_type = Multiboot.available }
      ∷ [];
}

abbrev pub jump : Jump
jump = record {
  information = some (information, memory_information);
  kernel = record { ptr = 2097152; len = 8; pages = 1; should_be_at = none } ∷ [];
  entry_address = 2097152;
}

boot-IsReady_example :
    IsReady target last_call loaded (boot target last_call prepared loaded).1 prepared jump
unfolding boot towboot_rust.Prelude.wrap towboot_rust.Mem.Map.prepare_information
    towboot_rust.Mem.Map.add_entries towboot_rust.Mem.Map.to_entry towboot_rust.Mem.Map.add_entry
    towboot_rust.Mem.Map.is_adjacent towboot_rust.Mem.Map.kernel_type towboot_rust.Prelude.narrow
    towboot_rust.Prepare.move_all towboot_rust.Mem.Move.move_to_where_it_should_be
    towboot_rust.Mem.Move.next_around towboot_rust.Mem.Move.is_around
boot-IsReady_example =
    boot-IsReady target last_call prepared jump loaded (boot target last_call prepared loaded).1
      refl
