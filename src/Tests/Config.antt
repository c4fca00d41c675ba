-- ===== src/Tests/Config.antt =====
-- Runs of src/config.rs.
use Prim.Native.String.{◌++◌ as ◌<>◌}
use towboot_rust.Prelude.{
  ℕ, ◌≡◌, ◌⊎◌, List, [], ◌∷◌, ◌++◌, map, some, none, ok, err, String, Result, done, failed,
}
use towboot_rust.Firmware.{invalid_parameter, World}
use towboot_rust.Firmware.Console.{Console}
use towboot_rust.Config.Options.{
  ConfigSource, LoadOptionKey, kernel, module_option, quirk, help, BuiltInfo, parse_quirk,
  image_and_argv, parse_load_options,
}
use towboot_rust.Config.Options.Meaning.{IsMeant, parse_load_options-IsMeant}
use towboot_rust.Config.Options.Split.{NoSpace, image_and_argv_lem}
use towboot_rust.Config.Options.Laws.{IsPlain, parse_load_options-bad}

image_and_argv_lem_example :
    NoSpace (image_and_argv "kernel.elf -v 1").0
    × (("kernel.elf -v 1"
          ≡ (image_and_argv "kernel.elf -v 1").0 <> (" " <> (image_and_argv "kernel.elf -v 1").1))
        ⊎ (("kernel.elf -v 1" ≡ (image_and_argv "kernel.elf -v 1").0)
            × ((image_and_argv "kernel.elf -v 1").1 ≡ "")))
image_and_argv_lem_example = image_and_argv_lem "kernel.elf -v 1"

-- A console that counts the lines that it prints.
abbrev console : Console ℕ
console = record { print = λ text s. (done tt, 1) }

abbrev pub built : BuiltInfo
built = record {
  pkg_name = "towboot";
  git_version = none;
  git_dirty = none;
  profile = "debug";
  target = "x86_64-unknown-uefi";
  host = "x86_64-unknown-linux-gnu";
  pkg_license = "MIT";
}

abbrev computer : World ℕ
computer = record { firmware = 0; memory = λ _. 0 }

abbrev items : List (LoadOptionKey × String)
items =
    (kernel, "old")
    ∷ (module_option, "initrd quiet")
    ∷ (kernel, "new -v")
    ∷ (quirk, "KeepResolution")
    ∷ (module_option, "font")
    ∷ []

items-IsPlain : IsPlain items
unfolding parse_quirk
items-IsPlain = (tt, tt)

parse_load_options-IsMeant_example :
    (s : ConfigSource) × (parse_load_options console "" built {E = Unit {0}}
        (map done items)
        computer
      ≡ (ok (some s), computer))
    × IsMeant (some "new -v") items s
parse_load_options-IsMeant_example =
    parse_load_options-IsMeant console "" built Unit items computer items-IsPlain

abbrev refused : Result (Unit {0}) (LoadOptionKey × String)
refused = failed tt

parse_load_options-bad_example :
    parse_load_options console "" built (map done items ++ refused ∷ done (help, "") ∷ []) computer
    ≡ (err invalid_parameter, computer)
parse_load_options-bad_example =
    parse_load_options-bad console "" built items refused (done (help, "") ∷ []) computer
      items-IsPlain tt
