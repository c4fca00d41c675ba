-- ===== src/Config/Options/Ownership.antt =====
-- src/config.rs: the load options take no pages.
use towboot_rust.Prelude.{Option, none, some, List, [], ◌∷◌, String, Result, done, failed}
use towboot_rust.Firmware.{Status, invalid_parameter}
use towboot_rust.Firmware.Exec.{Exec, lift}
use towboot_rust.Firmware.Laws.{Ledger}
use towboot_rust.Firmware.Console.{Console}
use towboot_rust.Config.Options.{
  LoadOptionKey, config, kernel, log_level, module_option, quirk, help, version, BuiltInfo, Options,
  no_options, with_quirk, parse_quirk, version_text, apply_option, go_on, scan_options,
  parse_load_options,
}
use towboot_rust.Mem.Allocation.Ledger.{nothing, Balanced-lift, Balanced-raise}
use towboot_rust.Mem.Allocation.Quiet.{Quiet, Leaves, Quiet-pure, Quiet-bind, Quiet-print_line}

module _ {S : Type 0} (c : Console S) (help_text : String) (built : BuiltInfo) (held : S → Ledger)
    (prints : (s : String) → Leaves held (c.print s)) where
  Quiet-apply_option :
      (key : LoadOptionKey) (value : String) (o : Options)
      → Quiet held (apply_option c help_text built key value o)
  unfolding apply_option
  Quiet-apply_option config value o = Quiet-pure held _
  Quiet-apply_option kernel value o = Quiet-pure held _
  Quiet-apply_option log_level value o = Quiet-pure held _
  Quiet-apply_option module_option value o = Quiet-pure held _
  Quiet-apply_option quirk value o =
      Quiet-bind held (lift (with_quirk (parse_quirk value) o)) _
        (Balanced-lift held (with_quirk (parse_quirk value) o)) (λ x. Quiet-pure held (some x))
  Quiet-apply_option help value o =
      Quiet-bind held _ _ (Quiet-print_line held c _ prints) (λ _. Quiet-pure held none)
  Quiet-apply_option version value o =
      Quiet-bind held (lift (version_text c help_text built)) _
        (Balanced-lift held (version_text c help_text built))
        (λ text.
          Quiet-bind held _ _ (Quiet-print_line held c text prints) (λ _. Quiet-pure held none))

  Quiet-go_on :
      (rest : Options → Exec S Status (Option Options)) (o : Option Options)
      → ((x : Options) → Quiet held (rest x))
      → Quiet held (go_on c help_text built rest o)
  Quiet-go_on rest none k = Quiet-pure held none
  Quiet-go_on rest (some o) k = k o

  Quiet-scan_options :
      {E : Type 0} (items : List (Result E (LoadOptionKey × String))) (o : Options)
      → Quiet held (scan_options c help_text built items o)
  unfolding scan_options
  Quiet-scan_options [] o = Quiet-pure held (some o)
  Quiet-scan_options (failed e ∷ rest) o = Balanced-raise held invalid_parameter (λ _. nothing)
  Quiet-scan_options (done (key, value) ∷ rest) o =
      Quiet-bind held (apply_option c help_text built key value o) _
        (Quiet-apply_option key value o)
        (λ x. Quiet-go_on (scan_options c help_text built rest) x (Quiet-scan_options rest))

  pub Quiet-parse_load_options :
      {E : Type 0} (items : List (Result E (LoadOptionKey × String)))
      → Quiet held (parse_load_options c help_text built items)
  unfolding parse_load_options
  Quiet-parse_load_options items =
      Quiet-bind held (scan_options c help_text built items no_options) _
        (Quiet-scan_options items no_options) (λ x. Quiet-pure held _)
