-- ===== src/Main.antt =====
-- src/main.rs: `efi_main`, from the protocols to the jump. What is written to the log is left out;
-- the services of the `uefi` and `log` crates are parameters.
pub mod Ownership
pub mod Course
use towboot_rust.Prelude.{
  ℕ, Option, none, some, List, String, Outcome, ok, Result, done, failed, expect, Target,
}
use towboot_rust.Firmware.{Status, success, invalid_parameter, World}
use towboot_rust.Firmware.Exec.{Exec, pure, lift, call, attempt, ◌>>=◌, ◌>>◌}
use towboot_rust.Config.{Entry, Config}
use towboot_rust.Config.Options.{LoadOptionKey}
use towboot_rust.Config.Get.{ConfigServices}
use towboot_rust.Config.Get as Get
use towboot_rust.Menu.{Event, TimerServices, choose}
use towboot_rust.Prepare.{PreparedEntry, Services, prepare, LastCall, Jump, boot}

-- `LoadOptionsError`, by what the source tells apart.
pub data LoadOptionsError : Type 0 where
  not_set : LoadOptionsError
  not_text : String → LoadOptionsError

-- The calls of the firmware and of the log that `efi_main` makes itself. `Level` is
-- `log::LevelFilter`.
pub record MainServices (S Level : Type 0) : Type 0 where
  pub init : S → Result Status (Unit {0}) × S
  pub open_loaded_image : S → Result Status (Unit {0}) × S
  pub load_options : S → Result LoadOptionsError String
  pub open_file_system : S → Result Status (Unit {0}) × S
  pub open_volume : S → Result Status (Unit {0}) × S
  pub parse_level : String → Option Level
  pub set_max_level : Level → S → Unit {0} × S

-- How `efi_main` ends: it returns a status, or it jumps to a kernel. Or the menu still waits for
-- the user.
pub data Ending : Type 0 where
  returned : Status → Ending
  jumped : PreparedEntry → Jump → Ending
  waiting : Ending

-- All of the parameters.
pub record Platform (S H Level E : Type 0) : Type 0 where
  pub main : MainServices S Level
  pub config : ConfigServices S H
  -- `miniarg::parse`.
  pub parse_options : String → List (Result E (LoadOptionKey × String))
  pub clock : TimerServices S
  pub show : Status → String
  pub decimal : ℕ → String
  pub services : Services S H
  pub last_call : LastCall S

-- The load options, none where there are none or they cannot be read.
unfoldable pub load_options_of : Result LoadOptionsError String → Option String
load_options_of (done s) = some s
load_options_of (failed not_set) = none
load_options_of (failed (not_text e)) = none

module _ (t : Target) {S H Level E : Type 0} (p : Platform S H Level E) where
  abbrev pub opened : String → (S → Result Status (Unit {0}) × S) → Exec S ⊥ (Unit {0})
  opened message f = do r ← call f; lift (expect r message)

  abbrev pub set_level : Option Level → Exec S ⊥ (Unit {0})
  set_level none = pure tt
  set_level (some level) = call (p.main.set_max_level level)

  -- `if let Some(level) = &config.log_level`.
  unfoldable pub set_log_level : Option String → Exec S ⊥ (Unit {0})
  set_log_level none = pure tt
  set_log_level (some level) = set_level (p.main.parse_level level)

  abbrev pub parsed : Option String → Option (List (Result E (LoadOptionKey × String)))
  parsed none = none
  parsed (some s) = some (p.parse_options s)

  -- The match on the prepared entry.
  abbrev pub started : Result Status PreparedEntry → Exec S ⊥ Ending
  started (failed e) = pure (returned e)
  started (done prepared) = do jump ← boot t p.last_call prepared; pure (jumped prepared jump)

  -- From the choice of the entry on.
  abbrev pub load : Option Entry → Exec S ⊥ Ending
  load none = pure waiting
  load (some entry) = do r ← attempt (prepare t p.services entry); started r

  abbrev pub with_config : List Event → Config → Exec S ⊥ Ending
  with_config events config = do
    set_log_level config.log_level
    entry ← choose t p.config.console p.clock p.show p.decimal config events
    load entry

  -- The match on the configuration.
  abbrev pub configured : List Event → Result Status (Option Config) → Exec S ⊥ Ending
  configured events (done (some config)) = with_config events config
  configured events (done none) = pure (returned success)
  configured events (failed e) = pure (returned invalid_parameter)

  unfoldable pub efi_main : List Event → Exec S ⊥ Ending
  efi_main events = do
    opened "Failed to initialize utilities" p.main.init
    opened "Failed to open loaded image protocol" p.main.open_loaded_image
    options ← λ w. (ok (load_options_of (p.main.load_options w.firmware)), w)
    opened "Failed to open filesystem" p.main.open_file_system
    opened "Failed to open root directory" p.main.open_volume
    config ← attempt (Get.get p.config t (parsed options))
    configured events config
