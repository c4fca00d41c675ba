-- ===== src/Config/Get.antt =====
-- src/config.rs: `get`, which takes the configuration from the command line or from a file. What the
-- `toml` crate makes of a file is a parameter.
pub mod Precedence
pub mod Ownership
use towboot_rust.Prelude.{ℕ, Option, none, some, List, String, Result, Outcome, Target, expect}
use towboot_rust.Firmware.{Status}
use towboot_rust.Firmware.Exec.{Exec, pure, lift, ◌>>=◌}
use towboot_rust.Firmware.Console.{Console}
use towboot_rust.Config.{Config}
use towboot_rust.Config.Options.{
  LoadOptionKey, BuiltInfo, ConfigSource, file, given, config_file, parse_load_options,
}
use towboot_rust.File.{FileServices, open_file, try_into_vec}

-- The services that are taken from outside of the source, and what the build and `miniarg` give.
pub record ConfigServices (S H : Type 0) : Type 0 where
  pub console : Console S
  pub files : FileServices S H
  pub help_text : String
  pub built : BuiltInfo
  pub from_slice : List ℕ → Result String Config

module _ {S H : Type 0} (v : ConfigServices S H) (t : Target) where
  -- Try to read and parse the configuration from the given file.
  unfoldable pub read_file : String → Exec S Status Config
  read_file file_name = do
    f ← open_file v.files t file_name
    text ← try_into_vec v.files f
    lift (expect (v.from_slice text) "failed to parse config file")

  abbrev pub from_source : Option ConfigSource → Exec S Status (Option Config)
  from_source none = pure none
  from_source (some (file s)) = do c ← read_file s; pure (some c)
  from_source (some (given c)) = pure (some c)

  abbrev pub source_for :
      {E : Type 0}
      → Option (List (Result E (LoadOptionKey × String)))
      → Exec S Status (Option ConfigSource)
  source_for (some options) = parse_load_options v.console v.help_text v.built options
  source_for none = pure (some (file config_file))

  -- Get the config. The load options are given as `miniarg` takes them apart.
  unfoldable pub get :
      {E : Type 0}
      → Option (List (Result E (LoadOptionKey × String)))
      → Exec S Status (Option Config)
  get load_options = do source ← source_for load_options; from_source source
