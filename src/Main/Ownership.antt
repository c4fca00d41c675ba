-- ===== src/Main/Ownership.antt =====
-- src/main.rs: the pages that are allocated when `efi_main` ends.
use towboot_rust.Prelude.{
  ℕ, Option, none, some, List, String, ok, Result, done, failed, Target, expect,
}
use towboot_rust.Firmware.{Status, success, invalid_parameter}
use towboot_rust.Firmware.Exec.{call, attempt}
use towboot_rust.Firmware.Laws.{Ledger, IsLawful}
use towboot_rust.Config.{Entry, Config}
use towboot_rust.Config.Get as Get
use towboot_rust.Config.Get.Ownership.{Quiet-get}
use towboot_rust.Menu.{Event, choose}
use towboot_rust.Menu.Ownership.{KeepsTime, Quiet-choose}
use towboot_rust.Mem.Allocation.Ledger.{
  nothing, settled_outs, Balanced, Balanced-pure, Balanced-lift, Balanced-look, Balanced-call,
  Balanced-bind, Balanced-aside, Balanced-attempt,
}
use towboot_rust.Mem.Allocation.Quiet.{Quiet, Leaves, Quiet-pure, Quiet-bind, Quiet-attempt}
use towboot_rust.File.Laws.{LeavesPages}
use towboot_rust.Prepare.{PreparedEntry, prepare, boot}
use towboot_rust.Prepare.Leaving.{Quiet-boot}
use towboot_rust.Prepare.Ownership.{ShowsOnly, entry_owns, Balanced-prepare}
use towboot_rust.Main.{
  Ending, returned, jumped, waiting, Platform, load_options_of, opened, set_level, set_log_level,
  parsed, started, load, configured, efi_main,
}

-- What is allocated at the end: all of the kernel that was jumped to, nothing otherwise.
abbrev pub ending_owns : Ending → Ledger
ending_owns (returned e) = nothing
ending_owns (jumped prepared jump) = entry_owns prepared
ending_owns waiting = nothing

-- The services besides those of the memory do not touch the firmware's pages.
pub record IsTidy {S H Level E : Type 0} (p : Platform S H Level E) (held : S → Ledger)
    : Type 0 where
  pub init : Leaves held p.main.init
  pub open_loaded_image : Leaves held p.main.open_loaded_image
  pub open_file_system : Leaves held p.main.open_file_system
  pub open_volume : Leaves held p.main.open_volume
  pub set_max_level : (level : Level) → Leaves held (p.main.set_max_level level)
  pub print : (s : String) → Leaves held (p.config.console.print s)
  pub config_files : LeavesPages p.config.files held
  pub time : KeepsTime p.clock held
  pub files : LeavesPages p.services.files held
  pub graphics : ShowsOnly p.services.graphics held
  pub exit_boot_services : (n : ℕ) → Leaves held (p.last_call.exit_boot_services n)

module _ (t : Target) {S H Level E : Type 0} (p : Platform S H Level E) (held : S → Ledger)
    (law : IsLawful p.services.pages held) (tidy : IsTidy p held) where
  Quiet-opened :
      (message : String) (f : S → Result Status (Unit {0}) × S)
      → Leaves held f
      → Quiet held (opened t p message f)
  Quiet-opened message f leaves =
      Quiet-bind held (call f) _ (Balanced-call held f leaves)
        (λ r. Balanced-lift held (expect r message))

  Quiet-set_level : (o : Option Level) → Quiet held (set_level t p o)
  Quiet-set_level none = Quiet-pure held tt
  Quiet-set_level (some level) =
      Balanced-call held (p.main.set_max_level level) (tidy.set_max_level level)

  Quiet-set_log_level : (o : Option String) → Quiet held (set_log_level t p o)
  unfolding set_log_level
  Quiet-set_log_level none = Quiet-pure held tt
  Quiet-set_log_level (some level) = Quiet-set_level (p.main.parse_level level)

  Balanced-started :
      (r : Result Status PreparedEntry)
      → Balanced held (settled_outs entry_owns r) ending_owns (started t p r)
  Balanced-started (failed e) = Balanced-pure held (returned e) ending_owns
  Balanced-started (done prepared) =
      Balanced-bind held (λ _. entry_owns prepared) (boot t p.last_call prepared) _
        (Balanced-aside held (entry_owns prepared) (boot t p.last_call prepared)
          (Quiet-boot t held p.last_call prepared tidy.exit_boot_services))
        (λ jump. Balanced-pure held (jumped prepared jump) ending_owns)

  Balanced-load : (o : Option Entry) → Balanced held nothing ending_owns (load t p o)
  Balanced-load none = Balanced-pure held waiting ending_owns
  Balanced-load (some entry) =
      Balanced-bind held (settled_outs entry_owns) (attempt (prepare t p.services entry)) _
        (Balanced-attempt held ⊥ entry_owns (prepare t p.services entry)
          (Balanced-prepare t p.services held law tidy.files tidy.graphics entry))
        Balanced-started

  Balanced-configured :
      (events : List Event) (r : Result Status (Option Config))
      → Balanced held nothing ending_owns (configured t p events r)
  Balanced-configured events (failed e) =
      Balanced-pure held (returned invalid_parameter) ending_owns
  Balanced-configured events (done none) = Balanced-pure held (returned success) ending_owns
  Balanced-configured events (done (some config)) =
      Balanced-bind held (λ _. nothing) (set_log_level t p config.log_level) _
        (Quiet-set_log_level config.log_level)
        (λ _.
          Balanced-bind held (λ _. nothing)
            (choose t p.config.console p.clock p.show p.decimal config events) _
            (Quiet-choose t p.config.console p.clock p.show held tidy.print tidy.time p.decimal
              config events)
            Balanced-load)

  -- With lawful memory services that all other services leave alone, `efi_main` leaves no page
  -- allocated when it returns a status or waits, and exactly those of the kernel and its
  -- modules when it jumps. A panic is excepted.
  pub Balanced-efi_main :
      (events : List Event) → Balanced held nothing ending_owns (efi_main t p events)
  unfolding efi_main
  Balanced-efi_main events =
      Balanced-bind held (λ _. nothing) (opened t p "Failed to initialize utilities" p.main.init) _
        (Quiet-opened "Failed to initialize utilities" p.main.init tidy.init)
        (λ _.
          Balanced-bind held (λ _. nothing)
            (opened t p "Failed to open loaded image protocol" p.main.open_loaded_image) _
            (Quiet-opened "Failed to open loaded image protocol" p.main.open_loaded_image
              tidy.open_loaded_image)
            (λ _.
              Balanced-bind held (λ _. nothing)
                (λ w. (ok (load_options_of (p.main.load_options w.firmware)), w)) _
                (Balanced-look held (λ w. ok (load_options_of (p.main.load_options w.firmware))))
                (λ options.
                  Balanced-bind held (λ _. nothing)
                    (opened t p "Failed to open filesystem" p.main.open_file_system) _
                    (Quiet-opened "Failed to open filesystem" p.main.open_file_system
                      tidy.open_file_system)
                    (λ _.
                      Balanced-bind held (λ _. nothing)
                        (opened t p "Failed to open root directory" p.main.open_volume) _
                        (Quiet-opened "Failed to open root directory" p.main.open_volume
                          tidy.open_volume)
                        (λ _.
                          Balanced-bind held (λ _. nothing)
                            (attempt (Get.get p.config t (parsed t p options))) _
                            (Quiet-attempt held (Get.get p.config t (parsed t p options)) (
                              Quiet-get p.config t held tidy.config_files tidy.print
                                (parsed t p options)))
                            (Balanced-configured events))))))
