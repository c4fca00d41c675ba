-- ===== src/Tests/Main.antt =====
-- A run of src/main.rs: a kernel from the command line.
use towboot_rust.Prelude.{◌≡◌, refl, none, some, List, [], ◌∷◌, map, String, ok, Result, done}
use towboot_rust.Config.Options.{LoadOptionKey}
use towboot_rust.Menu.{TimerServices}
use towboot_rust.Mem.Allocation.Ledger.{Balanced, nothing}
use towboot_rust.Main.{MainServices, Platform, efi_main, Ending, jumped}
use towboot_rust.Main.Course.{IsCourse, efi_main-IsCourse}
use towboot_rust.Main.Ownership.{ending_owns, IsTidy, Balanced-efi_main}
use towboot_rust.Prepare.{PreparedEntry, Information, prepare}
use towboot_rust.Prepare.Told.{IsTold, prepare-IsTold}
use towboot_rust.Tests.Pages.{Blocks, held, pages-IsLawful, target, machine}
use towboot_rust.Tests.File.{volume-LeavesPages}
use towboot_rust.Tests.Get.{kernel_options}
use towboot_rust.Tests.Get as Get
use towboot_rust.Tests.Boot.{
  memory_information, card-ShowsOnly, services, prepared, information, last_call, jump,
}

abbrev main : MainServices Blocks (Unit {0})
main = record {
  init = λ s. (done tt, s);
  open_loaded_image = λ s. (done tt, s);
  load_options = λ s. done "-kernel ..";
  open_file_system = λ s. (done tt, s);
  open_volume = λ s. (done tt, s);
  parse_level = λ s. none;
  set_max_level = λ l s. (tt, s);
}

abbrev clock : TimerServices Blocks
clock = record { create_event = λ s. (done tt, s); set_timer = λ n s. (done tt, s) }

abbrev platform : Platform Blocks (Unit {0}) (Unit {0}) (Unit {0})
platform = record {
  main = main;
  config = Get.services;
  parse_options = λ s. map done kernel_options;
  clock = clock;
  show = λ e. "";
  decimal = λ n. "";
  services = services;
  last_call = last_call;
}

tidy : IsTidy platform held
tidy = record {
  init = λ s p n. refl;
  open_loaded_image = λ s p n. refl;
  open_file_system = λ s p n. refl;
  open_volume = λ s p n. refl;
  set_max_level = λ l s p n. refl;
  print = λ text s p n. refl;
  config_files = volume-LeavesPages;
  time = record { create_event = λ s p n. refl; set_timer = λ m s p n. refl };
  files = volume-LeavesPages;
  graphics = card-ShowsOnly;
  exit_boot_services = λ size s p n. refl;
}

Balanced-efi_main_example : Balanced held nothing ending_owns (efi_main target platform [])
Balanced-efi_main_example = Balanced-efi_main target platform held pages-IsLawful tidy []

abbrev told : Information
told = record information {
  modules = record { start = 4294963200; end = 4294963203; string = some "" } ∷ [];
}

abbrev pub from_options : PreparedEntry
from_options = record prepared {
  entry = record {
    argv = some "-v";
    image = "kernel.elf";
    name = none;
    quirks = [];
    modules = record { argv = some ""; image = "initrd" } ∷ [];
  };
  multiboot_information = told;
  modules_vec = record { ptr = 4294963200; len = 3; pages = 1; should_be_at = none } ∷ [];
}

abbrev ending : Ending
ending = jumped from_options (record jump { information = some (told, memory_information) })

efi_main_run : (efi_main target platform [] machine).0 ≡ ok ending
unfolding efi_main towboot_rust.Config.Get.get towboot_rust.Main.load_options_of
    towboot_rust.Config.Options.parse_load_options towboot_rust.Config.Options.scan_options
    towboot_rust.Config.Options.apply_option towboot_rust.Config.Options.source_of
    towboot_rust.Main.set_log_level towboot_rust.Config.Options.cli_config
    towboot_rust.Config.Options.image_and_argv towboot_rust.Config.Options.split_once
    towboot_rust.Config.Options.module_of towboot_rust.Menu.choose towboot_rust.Menu.default_of
    towboot_rust.Menu.get towboot_rust.Prepare.prepare towboot_rust.File.open_file
    towboot_rust.Prelude.narrow towboot_rust.File.try_into_vec towboot_rust.Kernel.new
    towboot_rust.Kernel.new_multiboot towboot_rust.Kernel.kernel_length
    towboot_rust.Prelude.subtract towboot_rust.Mem.Allocation.new_at
    towboot_rust.Mem.Allocation.dump_memory_map towboot_rust.Mem.Allocation.new_under_4gb
    towboot_rust.Mem.Allocation.calculate_page_count towboot_rust.Prelude.wrap
    towboot_rust.Prepare.with_kernel towboot_rust.Prepare.load_modules
    towboot_rust.File.try_into_allocation towboot_rust.Prepare.prepare_multiboot_information
    towboot_rust.Prepare.module_list towboot_rust.Video.Mode.setup_video
    towboot_rust.Video.Mode.prepare_framebuffer towboot_rust.Prepare.boot
    towboot_rust.Mem.Map.prepare_information towboot_rust.Mem.Map.add_entries
    towboot_rust.Mem.Map.to_entry towboot_rust.Mem.Map.add_entry towboot_rust.Mem.Map.is_adjacent
    towboot_rust.Mem.Map.kernel_type towboot_rust.Prepare.move_all
    towboot_rust.Mem.Move.move_to_where_it_should_be towboot_rust.Mem.Move.next_around
    towboot_rust.Mem.Move.is_around towboot_rust.Mem.Allocation.dropping
    towboot_rust.Video.Mode.wanted_resolution towboot_rust.Video.Mode.colors_of
    towboot_rust.Video.Mode.table_of
efi_main_run = refl

efi_main-IsCourse_example : IsCourse target platform ending (efi_main target platform [] machine).1
efi_main-IsCourse_example =
    efi_main-IsCourse target platform [] ending machine (efi_main target platform [] machine).1
      (λ i. (efi_main_run i, (efi_main target platform [] machine).1))

prepare_run : (prepare target services from_options.entry machine).0 ≡ ok from_options
unfolding prepare towboot_rust.File.open_file towboot_rust.Prelude.narrow
    towboot_rust.File.try_into_vec towboot_rust.Kernel.new towboot_rust.Kernel.new_multiboot
    towboot_rust.Kernel.kernel_length towboot_rust.Prelude.subtract
    towboot_rust.Mem.Allocation.new_at towboot_rust.Mem.Allocation.dump_memory_map
    towboot_rust.Mem.Allocation.new_under_4gb towboot_rust.Mem.Allocation.calculate_page_count
    towboot_rust.Prelude.wrap towboot_rust.Prepare.with_kernel towboot_rust.Prepare.load_modules
    towboot_rust.File.try_into_allocation towboot_rust.Prepare.prepare_multiboot_information
    towboot_rust.Prepare.module_list towboot_rust.Video.Mode.setup_video
    towboot_rust.Video.Mode.prepare_framebuffer towboot_rust.Mem.Allocation.dropping
    towboot_rust.Video.Mode.wanted_resolution towboot_rust.Video.Mode.colors_of
    towboot_rust.Video.Mode.table_of
prepare_run = refl

prepare-IsTold_example : IsTold target services from_options.entry from_options
prepare-IsTold_example =
    prepare-IsTold target services from_options.entry machine
      (prepare target services from_options.entry machine).1 from_options
      (λ i. (prepare_run i, (prepare target services from_options.entry machine).1))
