-- ===== src/Config/Options/Meaning.antt =====
-- src/config.rs: what the command line means.
use Prim.Native.String.{◌++◌ as ◌<>◌}
use mathlib.Core.Option.{get_or}
use towboot_rust.Prelude.{
  ◌≡◌, refl, sym, ap, ◌⊎◌, Option, none, some, List, [], ◌∷◌, map, String, ok, done,
}
use towboot_rust.Firmware.{World}
use towboot_rust.Firmware.Console.{Console}
use towboot_rust.Config.{Quirk, Module, Entry, Config, contains}
use towboot_rust.Config.Options.{
  BuiltInfo, no_options, ConfigSource, file, given, image_and_argv, module_of, cli_config,
  file_or_default, source_of, parse_load_options,
}
use towboot_rust.Config.Options.Split.{NoSpace, image_and_argv_lem}
use towboot_rust.Config.Options.Laws.{
  Item, kernels, configs, log_levels, module_values, quirk_values, last_or, collected, IsPlain,
  parse_load_options-plain,
}
use towboot_rust.Config.Options.Quirks.{is_named, contains-insert_all}

-- A text that names an image and its arguments: they are parted by its first space, and there are no
-- arguments if it has none.
abbrev pub IsParted : String → String → Option String → Type 0
IsParted text image none = ⊥
IsParted text image (some argv) =
    NoSpace image × ((text ≡ image <> (" " <> argv)) ⊎ ((text ≡ image) × (argv ≡ "")))

abbrev pub ArePartedInto : List String → List Module → Type 0
ArePartedInto [] [] = Unit
ArePartedInto (v ∷ vs) (m ∷ ms) = IsParted v m.image m.argv × ArePartedInto vs ms
ArePartedInto _ _ = ⊥

-- The configuration of a command line with a kernel.
pub record IsCli (k : String) (items : List Item) (c : Config) : Type 0 where
  pub entry : Entry
  pub entries : c.entries ≡ ("cli", entry) ∷ []
  pub default : c.default ≡ "cli"
  pub timeout : c.timeout ≡ some 0
  pub log_level : c.log_level ≡ last_or none (log_levels items)
  pub kernel : IsParted k entry.image entry.argv
  pub modules : ArePartedInto (module_values items) entry.modules
  pub quirks : (q : Quirk) → contains entry.quirks q ≡ is_named q (quirk_values items)

-- The source of the configuration, by the last kernel of the command line.
abbrev pub IsMeant : Option String → List Item → ConfigSource → Type 0
IsMeant (some k) items (given c) = IsCli k items c
IsMeant (some k) items (file name) = ⊥
IsMeant none items (given c) = ⊥
IsMeant none items (file name) = name ≡ get_or (last_or none (configs items)) "\\towboot.toml"

modules-ArePartedInto : (vs : List String) → ArePartedInto vs (map module_of vs)
unfolding module_of
modules-ArePartedInto [] = tt
modules-ArePartedInto (v ∷ vs) = (image_and_argv_lem v, modules-ArePartedInto vs)

cli_config-IsCli :
    (k : String) (items : List Item) → IsCli k items (cli_config k (collected no_options items))
unfolding cli_config
cli_config-IsCli k items = record {
  entry = record {
    argv = some (image_and_argv k).1;
    image = (image_and_argv k).0;
    name = none;
    quirks = (collected no_options items).quirks;
    modules = map module_of (module_values items);
  };
  entries = refl;
  default = refl;
  timeout = refl;
  log_level = refl;
  kernel = image_and_argv_lem k;
  modules = modules-ArePartedInto (module_values items);
  quirks = λ q. contains-insert_all q (quirk_values items) [];
}

source_of-IsMeant :
    (items : List Item) (o : Option String)
    → last_or none (kernels items) ≡ o
    → IsMeant o items (source_of (collected no_options items))
unfolding source_of cli_config
source_of-IsMeant items (some k) h = rw h (cli_config-IsCli k items)
source_of-IsMeant items none h = rw h (default_file (last_or none (configs items)) refl)
  where
    default_file :
        (o : Option String)
        → last_or none (configs items) ≡ o
        → IsMeant none items (file_or_default o)
    default_file none e = sym (ap (λ x. get_or x "\\towboot.toml") e)
    default_file (some f) e = sym (ap (λ x. get_or x "\\towboot.toml") e)

module _ {S : Type 0} (c : Console S) (help_text : String) (built : BuiltInfo) where
  -- On options that only set something, with known quirks, `parse_load_options` returns and
  -- touches nothing. With a kernel among them, whatever file they name, it gives a
  -- configuration without a menu, with one entry and the last log level: the last kernel,
  -- parted from its arguments at the first space, every module in order, parted in the same
  -- way, and exactly the quirks that are named. With none, it gives the last configuration
  -- file, or towboot.toml in the root.
  pub parse_load_options-IsMeant :
      (E : Type 0) (items : List Item) (w : World S)
      → IsPlain items
      → (s : ConfigSource) × (parse_load_options c help_text built {E = E} (map done items) w
          ≡ (ok (some s), w))
        × IsMeant (last_or none (kernels items)) items s
  parse_load_options-IsMeant E items w p = (
    source_of (collected no_options items),
    parse_load_options-plain c help_text built E items w p,
    source_of-IsMeant items (last_or none (kernels items)) refl,
  )
