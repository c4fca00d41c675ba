-- ===== src/Tests/File.antt =====
-- Runs of src/file.rs on a volume with one file, of three bytes.
use towboot_rust.Prelude.{
  ℕ, zero, suc, ◌≡◌, ◌⊎◌, refl, Bool, true, false, Option, none, some, List, [], ◌∷◌, length,
  String, ok, err, Result, done, failed, arith,
}
use towboot_rust.Firmware.{Status, not_found, unsupported, protocol_error, buffer_too_small, World}
use towboot_rust.Mem.Bytes.{write}
use towboot_rust.Mem.Allocation.{Allocation}
use towboot_rust.Mem.Allocation.Ledger.{Balanced, nothing, block}
use towboot_rust.File.{
  FileServices, File, Info, file_size, no_info, regular, directory, open_file, try_into_allocation,
}
use towboot_rust.File.Laws.{LeavesPages, Balanced-try_into_allocation, open_file-errors}
use towboot_rust.Tests.Pages.{Blocks, held, pages, pages-IsLawful, target, machine}

abbrev pub content : List ℕ
content = 127 ∷ 69 ∷ 76 ∷ []

abbrev info : ℕ → Info
info zero = no_info buffer_too_small (some 96)
info (suc n) = file_size 3

abbrev pub volume : FileServices Blocks (Unit {0})
volume = record {
  is_valid_name = λ name. true;
  open_path = λ name s. (done tt, s);
  into_type = λ h s. done (regular h);
  get_info = λ h n s. info n;
  read = λ h room s. (done content, s);
}

-- A volume on which every name is refused.
abbrev strict : FileServices Blocks (Unit {0})
strict = record volume { is_valid_name = λ name. false }

abbrev opened : File (Unit {0})
opened = record { name = "kernel"; file = tt; size = 3 }

abbrev pub volume-LeavesPages : LeavesPages volume held
volume-LeavesPages = record { open_path = λ name s p n. refl; read = λ h room s p n. refl }

open_run : (open_file volume target "kernel" machine).0 ≡ ok opened
unfolding open_file towboot_rust.Prelude.narrow
open_run = refl

Balanced-try_into_allocation_example :
    Balanced held nothing block (try_into_allocation volume pages target opened [])
Balanced-try_into_allocation_example =
    Balanced-try_into_allocation volume pages held pages-IsLawful volume-LeavesPages target opened
      []

open_file-errors_example :
    ((protocol_error ≡ protocol_error) × (strict.is_valid_name "kernel" ≡ false))
    ⊎ ((protocol_error ≡ not_found)
        × (strict.is_valid_name "kernel" ≡ true)
        × ((x : Status) × ((strict.open_path "kernel" machine.firmware).0 ≡ failed x)))
    ⊎ ((protocol_error ≡ unsupported)
        × (strict.is_valid_name "kernel" ≡ true)
        × ((h : Unit {0}) × ((strict.open_path "kernel" machine.firmware).0 ≡ done h)
            × (strict.into_type h (strict.open_path "kernel" machine.firmware).1 ≡ done directory)))
unfolding open_file
open_file-errors_example = open_file-errors strict target "kernel" machine protocol_error refl

-- The page at the end of the first 4 GB.
abbrev buffer : Allocation
buffer = record { ptr = 4294963200; len = 3; pages = 1; should_be_at = none }

abbrev after : World Blocks
after = record { firmware = (4294963200, 1) ∷ []; memory = write 4294963200 content machine.memory }

read_run : try_into_allocation volume pages target opened [] machine ≡ (ok buffer, after)
unfolding try_into_allocation towboot_rust.Mem.Allocation.new_under_4gb
    towboot_rust.Mem.Allocation.calculate_page_count towboot_rust.Mem.Allocation.dropping
    towboot_rust.Prelude.wrap
read_run = refl
