-- ===== src/Firmware/Console.antt =====
-- What the sources take from the firmware's console, as parameters over the firmware's state.
use towboot_rust.Prelude.{String, Result, expect}
use towboot_rust.Firmware.Exec.{Exec, call, lift, ◌>>=◌}

-- `stdout`: `write!` may fail.
pub record Console (S : Type 0) : Type 0 where
  pub print : String → S → Result (Unit {0}) (Unit {0}) × S

-- `write!(systab.stdout(), ..).unwrap()`.
unfoldable pub print_line {ℓ} : {S : Type 0} {E : Type ℓ} → Console S → String → Exec S E (Unit {0})
print_line c text = do
  r ← call (c.print text)
  lift (expect r "called `Result::unwrap()` on an `Err` value")
