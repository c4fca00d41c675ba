-- ===== src/Tests/Get.antt =====
-- Runs of `get` of src/config.rs.
use mathlib.Core.Option.{get_or}
use towboot_rust.Prelude.{◌≡◌, refl, some, List, [], ◌∷◌, map, String, ok, done, failed}
use towboot_rust.Firmware.Exec.{pure, ◌>>=◌}
use towboot_rust.Firmware.Console.{Console}
use towboot_rust.Config.Options.{
  LoadOptionKey, config, kernel, module_option, no_options, config_file, cli_config,
}
use towboot_rust.Config.Options.Laws.{collected}
use towboot_rust.Config.Get.{ConfigServices, get, read_file}
use towboot_rust.Config.Get.Precedence.{get-kernel, get-file}
use towboot_rust.Tests.Pages.{Blocks, target, machine}
use towboot_rust.Tests.File.{volume}
use towboot_rust.Tests.Config.{built}

abbrev console : Console Blocks
console = record { print = λ text s. (done tt, s) }

abbrev pub services : ConfigServices Blocks (Unit {0})
services = record {
  console = console;
  files = volume;
  help_text = "";
  built = built;
  from_slice = λ bytes. failed "no TOML";
}

abbrev pub kernel_options : List (LoadOptionKey × String)
kernel_options = (config, "other.toml") ∷ (kernel, "kernel.elf -v") ∷ (module_option, "initrd") ∷ []

abbrev file_options : List (LoadOptionKey × String)
file_options = (config, "other.toml") ∷ []

get-kernel_example :
    get services target {E = Unit {0}} (some (map done kernel_options)) machine
    ≡ (ok (some (cli_config "kernel.elf -v" (collected no_options kernel_options))), machine)
get-kernel_example = get-kernel services target Unit kernel_options "kernel.elf -v" machine tt refl

get-file_example :
    get services target {E = Unit {0}} (some (map done file_options)) machine
    ≡ (read_file services target
            (get_or (collected no_options file_options).config_file config_file)
          >>= λ c. pure (some c))
        machine
get-file_example = get-file services target Unit file_options machine tt refl
