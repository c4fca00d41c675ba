-- ===== src/Config/Get/Ownership.antt =====
-- src/config.rs: getting the configuration takes no pages.
use towboot_rust.Prelude.{Option, none, some, List, String, Result, Target, expect}
use towboot_rust.Firmware.Laws.{Ledger}
use towboot_rust.Config.Options.{LoadOptionKey, ConfigSource, file, given}
use towboot_rust.Config.Options.Ownership.{Quiet-parse_load_options}
use towboot_rust.Config.Get.{ConfigServices, read_file, from_source, source_for, get}
use towboot_rust.File.{open_file, try_into_vec}
use towboot_rust.File.Laws.{LeavesPages, Balanced-open_file, Balanced-try_into_vec}
use towboot_rust.Mem.Allocation.Ledger.{Balanced-lift}
use towboot_rust.Mem.Allocation.Quiet.{Quiet, Leaves, Quiet-pure, Quiet-bind}

module _ {S H : Type 0} (v : ConfigServices S H) (t : Target) (held : S → Ledger)
    (leaves : LeavesPages v.files held)
    (prints : (s : String) → Leaves held (v.console.print s)) where
  Quiet-source_for :
      {E : Type 0} (options : Option (List (Result E (LoadOptionKey × String))))
      → Quiet held (source_for v t options)
  Quiet-source_for none = Quiet-pure held _
  Quiet-source_for (some items) =
      Quiet-parse_load_options v.console v.help_text v.built held prints items

  Quiet-read_file : (name : String) → Quiet held (read_file v t name)
  unfolding read_file
  Quiet-read_file name =
      Quiet-bind held (open_file v.files t name) _ (Balanced-open_file v.files held leaves t name)
        (λ f.
          Quiet-bind held (try_into_vec v.files f) _ (Balanced-try_into_vec v.files held leaves f)
            (λ text. Balanced-lift held (expect (v.from_slice text) "failed to parse config file")))

  Quiet-from_source : (o : Option ConfigSource) → Quiet held (from_source v t o)
  Quiet-from_source none = Quiet-pure held none
  Quiet-from_source (some (file name)) =
      Quiet-bind held (read_file v t name) _ (Quiet-read_file name) (λ c. Quiet-pure held (some c))
  Quiet-from_source (some (given c)) = Quiet-pure held (some c)

  pub Quiet-get :
      {E : Type 0} (options : Option (List (Result E (LoadOptionKey × String))))
      → Quiet held (get v t options)
  unfolding get
  Quiet-get options =
      Quiet-bind held (source_for v t options) _ (Quiet-source_for options) Quiet-from_source
