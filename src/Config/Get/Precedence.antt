-- ===== src/Config/Get/Precedence.antt =====
-- src/config.rs: which source `get` takes.
use mathlib.Core.Option.{get_or}
use towboot_rust.Prelude.{◌≡◌, refl, Option, none, some, List, map, String, ok, done, Target}
use towboot_rust.Firmware.{World}
use towboot_rust.Firmware.Exec.{pure, ◌>>=◌}
use towboot_rust.Config.Options.{
  LoadOptionKey, no_options, config_file, file, file_or_default, cli_config, source_of,
}
use towboot_rust.Config.Options.Laws.{collected, IsPlain, parse_load_options-plain}
use towboot_rust.Config.Get.{ConfigServices, read_file, from_source, get}

file_or_default-file : (o : Option String) → file_or_default o ≡ file (get_or o config_file)
file_or_default-file none = refl
file_or_default-file (some c) = refl

module _ {S H : Type 0} (v : ConfigServices S H) (t : Target) where
  pub get-plain :
      (E : Type 0) (items : List (LoadOptionKey × String)) (w : World S)
      → IsPlain items
      → get v t {E = E} (some (map done items)) w
        ≡ from_source v t (some (source_of (collected no_options items))) w
  unfolding get
  get-plain E items w p =
      rw (parse_load_options-plain v.console v.help_text v.built E items w p) refl

  -- If the options only set something, with known quirks, and one is a kernel, `get` gives the
  -- configuration of the command line, even if it names a configuration file, and touches
  -- nothing.
  pub get-kernel :
      (E : Type 0) (items : List (LoadOptionKey × String)) (k : String) (w : World S)
      → IsPlain items
      → (collected no_options items).kernel ≡ some k
      → get v t {E = E} (some (map done items)) w
        ≡ (ok (some (cli_config k (collected no_options items))), w)
  unfolding source_of
  get-kernel E items k w p h = rw (get-plain E items w p) (rw h refl)

  -- If the options only set something, with known quirks, and none is a kernel, `get` reads the
  -- last configuration file that they name, or the default one if they name none.
  pub get-file :
      (E : Type 0) (items : List (LoadOptionKey × String)) (w : World S)
      → IsPlain items
      → (collected no_options items).kernel ≡ none
      → get v t {E = E} (some (map done items)) w
        ≡ (read_file v t (get_or (collected no_options items).config_file config_file) >>= λ c.
              pure (some c))
            w
  unfolding source_of
  get-file E items w p h =
      rw (get-plain E items w p)
        (rw (h, file_or_default-file (collected no_options items).config_file) refl)
