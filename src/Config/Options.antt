-- ===== src/Config/Options.antt =====
-- src/config.rs: `parse_load_options`. What `miniarg` makes of the command line is an argument: a
-- list of keys with their values, or of errors.
pub mod Ownership
pub mod Split
pub mod Laws
pub mod Quirks
pub mod Meaning
use Prim.Native.Char.{Char, code}
use Prim.Native.String.{◌++◌ as ◌<>◌}
use text.Mathlib.Text.{◌==◌ as str_eq}
use towboot_rust.Prelude.{
  ℕ, zero, suc, ◌≡◌, Bool, true, false, Option, none, some, List, [], ◌∷◌, ◌++◌, map, ltb, ◌==◌,
  if◌then◌else◌, String, Outcome, ok, err, Result, done, failed, unwrap, ◌>>?◌,
}
use towboot_rust.Firmware.{Status, invalid_parameter}
use towboot_rust.Firmware.Exec.{Exec, pure, raise, lift, ◌>>=◌, ◌>>◌}
use towboot_rust.Firmware.Console.{Console, print_line}
use towboot_rust.Config.{
  Quirk, force_elf, keep_resolution, modules_below_200mb, same_quirk, rank, Module, Entry, Config,
}

abbrev pub config_file : String
config_file = "\\towboot.toml"

pub data ConfigSource : Type 0 where
  file : String → ConfigSource
  given : Config → ConfigSource

-- Available options.
pub data LoadOptionKey : Type 0 where
  config kernel log_level module_option quirk help version : LoadOptionKey

-- What the build wrote into `built.rs`, by what the source reads of it.
pub record BuiltInfo : Type 0 where
  pub pkg_name : String
  pub git_version : Option String
  pub git_dirty : Option Bool
  pub profile : String
  pub target : String
  pub host : String
  pub pkg_license : String

-- `Quirk::deserialize` of a text: the name of a variant.
unfoldable pub parse_quirk : String → Option Quirk
parse_quirk value =
    if str_eq value "ForceElf"
    then some force_elf
    else if str_eq value "KeepResolution"
    then some keep_resolution
    else if str_eq value "ModulesBelow200Mb"
    then some modules_below_200mb
    else none

-- `BTreeSet::insert`.
unfoldable pub insert_quirk : Quirk → List Quirk → List Quirk
insert_quirk q [] = q ∷ []
insert_quirk q (p ∷ ps) =
    let rest = insert_quirk q ps in
    if ltb (rank q) (rank p) then q ∷ p ∷ ps else if same_quirk q p then p ∷ ps else p ∷ rest

-- The variables of the loop.
pub record Options : Type 0 where
  pub config_file : Option String
  pub kernel : Option String
  pub log_level : Option String
  pub modules : List String
  pub quirks : List Quirk

abbrev pub no_options : Options
no_options = record {
  config_file = none;
  kernel = none;
  log_level = none;
  modules = [];
  quirks = [];
}

abbrev pub cons_first : Char → Option (String × String) → Option (String × String)
cons_first c none = none
cons_first c (some (a, b)) = some (String.◌∷◌ c a, b)

-- `s.split_once(' ')`.
unfoldable pub split_once : String → Option (String × String)
split_once String.[] = none
split_once (String.◌∷◌ c s) =
    let rest = cons_first c (split_once s) in if code c == b' ' then some ("", s) else rest

abbrev pub or_whole : String → Option (String × String) → String × String
or_whole s none = (s, "")
or_whole s (some p) = p

-- `s.split_once(' ').unwrap_or((s, ""))`.
unfoldable pub image_and_argv : String → String × String
image_and_argv s = or_whole s (split_once s)

unfoldable pub module_of : String → Module
module_of m = let (image, argv) = image_and_argv m in record { argv = some argv; image = image }

-- The configuration for a kernel on the command line.
unfoldable pub cli_config : String → Options → Config
cli_config k o =
    let (image, argv) = image_and_argv k in
    record {
      default = "cli";
      timeout = some 0;
      log_level = o.log_level;
      entries =
          (
            "cli",
            record {
              argv = some argv;
              image = image;
              name = none;
              quirks = o.quirks;
              modules = map module_of o.modules;
            },
          )
          ∷ [];
    }

abbrev pub file_or_default : Option String → ConfigSource
file_or_default (some c) = file c
file_or_default none = file config_file

-- What follows the loop.
unfoldable pub source_of : Options → ConfigSource
source_of o = elim o.kernel [
  | some k ↦ given (cli_config k o)
  | none ↦ file_or_default o.config_file
]

abbrev pub with_quirk : Option Quirk → Options → Outcome Status Options
with_quirk none o = err invalid_parameter
with_quirk (some q) o = ok (record o { quirks = insert_quirk q o.quirks })

module _ {S : Type 0} (c : Console S) (help_text : String) (built : BuiltInfo) where
  unfoldable pub version_text : Outcome Status String
  version_text = unwrap built.git_version "GIT_VERSION" >>? λ git_version.
      unwrap built.git_dirty "GIT_DIRTY" >>? λ dirty. ok (
        "This is "
        <> built.pkg_name
        <> " "
        <> git_version
        <> (if dirty then " (dirty)" else "")
        <> ", built as "
        <> built.profile
        <> " for "
        <> built.target
        <> " on "
        <> built.host
        <> ". It is licensed under the "
        <> built.pkg_license
        <> ".")

  -- One option of the loop: `none` if a text was displayed and nothing is left to do.
  unfoldable pub apply_option : LoadOptionKey → String → Options → Exec S Status (Option Options)
  apply_option config value o = pure (some (record o { config_file = some value }))
  apply_option kernel value o = pure (some (record o { kernel = some value }))
  apply_option log_level value o = pure (some (record o { log_level = some value }))
  apply_option module_option value o = pure (some (record o { modules = o.modules ++ value ∷ [] }))
  apply_option quirk value o = do o' ← lift (with_quirk (parse_quirk value) o); pure (some o')
  apply_option help value o = do print_line c ("Usage:\n" <> help_text); pure none
  apply_option version value o = do text ← lift version_text; print_line c text; pure none

  abbrev pub go_on :
      (Options → Exec S Status (Option Options)) → Option Options → Exec S Status (Option Options)
  go_on rest none = pure none
  go_on rest (some o) = rest o

  -- The loop.
  unfoldable pub scan_options :
      {E : Type 0}
      → List (Result E (LoadOptionKey × String))
      → Options
      → Exec S Status (Option Options)
  scan_options [] o = pure (some o)
  scan_options (failed e ∷ rest) o = raise invalid_parameter
  scan_options (done (key, value) ∷ rest) o = do
    o' ← apply_option key value o
    go_on (scan_options rest) o'

  unfoldable pub parse_load_options :
      {E : Type 0} → List (Result E (LoadOptionKey × String)) → Exec S Status (Option ConfigSource)
  parse_load_options options = do
    found ← scan_options options no_options
    pure (elim found [ none ↦ none | some o ↦ some (source_of o) ])
