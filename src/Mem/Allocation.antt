-- ===== src/Mem/Allocation.antt =====
-- src/mem.rs: `Allocation`, a block of pages that the loader allocated by itself.
-- Rust drops an owned value at the end of its scope. Here each drop is a call of `free`, where the
-- source's scopes end; `dropping` is an early return out of a scope that owns allocations.
pub mod Size
pub mod Ledger
pub mod Quiet
pub mod Content
pub mod Balance
pub mod Memory
use towboot_rust.Prelude.{
  ℕ, suc, ◌+◌, ◌-◌, ◌*◌, ◌/◌, ◌%◌, ◌^◌, Bool, true, false, ◌&&◌, Option, none, some, List, [], ◌∷◌,
  ◌==◌, ltb, leb, if◌then◌else◌, Outcome, ok, err, panic, Result, done, failed, expect, narrow,
  Target, wrap,
}
use towboot_rust.Firmware.{
  Status, load_error, PageServices, World, max_address, address, loader_data,
}
use towboot_rust.Firmware.Exec.{Exec, pure, raise, lift, call, ◌>>=◌, ◌>>◌}
use towboot_rust.Prelude
use towboot_rust.Multiboot.{MemoryEntry, MemoryType, available}
use towboot_rust.Config.{Quirk, modules_below_200mb, contains}
use towboot_rust.Mem.Map.{page_size}

pub record Allocation : Type 0 where
  pub ptr : ℕ
  pub len : ℕ
  pub pages : ℕ
  pub should_be_at : Option ℕ

-- Calculate how many pages to allocate for the given amount of bytes.
unfoldable pub calculate_page_count : ℕ → ℕ
calculate_page_count size = size / page_size + (if size % page_size == 0 then 0 else 1)

module _ {S : Type 0} (f : PageServices S) where
  unfoldable pub dump_memory_map {ℓ} : {E : Type ℓ} → Exec S E (Unit {0})
  dump_memory_map w =
      (Prelude.◌>>=◌ (expect (f.memory_map w.firmware) "failed to get memory map") (λ _. ok tt), w)

  -- `Drop for Allocation`.
  unfoldable pub free {ℓ} : {E : Type ℓ} → Allocation → Exec S E (Unit {0})
  free a = do
    r ← call (f.free_pages a.ptr a.pages)
    lift (expect r "failed to free the allocated memory")

  unfoldable pub free_all {ℓ} : {E : Type ℓ} → List Allocation → Exec S E (Unit {0})
  free_all [] = pure tt
  free_all (a ∷ rest) = do free a; free_all rest

  abbrev pub drop_on_err {ℓ κ} :
      {E : Type ℓ} {A : Type κ} → List Allocation → Outcome E A → Exec S E A
  drop_on_err owned (ok x) = pure x
  drop_on_err owned (err e) = do free_all owned; raise e
  drop_on_err owned (panic m) = lift (panic m)

  -- `m`, in a scope that owns `owned`: an error returns from the scope and drops them.
  unfoldable pub dropping {ℓ κ} :
      {E : Type ℓ} {A : Type κ} → List Allocation → Exec S E A → Exec S E A
  dropping owned m w = drop_on_err owned (m w).0 (m w).1

  -- Of `new_under_4gb`, what the firmware's answer is turned into.
  abbrev pub under_4gb_result : ℕ → ℕ → Result Status ℕ → Exec S Status Allocation
  under_4gb_result size count_pages (done ptr) =
      pure (record { ptr = ptr; len = size; pages = count_pages; should_be_at = none })
  under_4gb_result size count_pages (failed e) = do dump_memory_map; raise load_error

  unfoldable pub new_under_4gb : ℕ → List Quirk → Exec S Status Allocation
  new_under_4gb size quirks = do
    let count_pages = calculate_page_count size
    r ← call (
        f.allocate_pages
          (max_address
            (if contains quirks modules_below_200mb then 200 * 1024 * 1024 else 2 ^ 32 - 1))
          loader_data count_pages)
    under_4gb_result size count_pages r

  abbrev pub at_result : ℕ → ℕ → ℕ → Result Status ℕ → Exec S Status Allocation
  at_result a size count_pages (done ptr) =
      pure (record { ptr = ptr; len = size; pages = count_pages; should_be_at = none })
  at_result a size count_pages (failed e) = do
    dump_memory_map
    allocation ← new_under_4gb size []
    pure (record allocation { should_be_at = some a })

  -- Allocate memory at a specific position, or elsewhere, to be moved later.
  unfoldable pub new_at : ℕ → ℕ → Exec S Status Allocation
  new_at a size = do
    let count_pages = calculate_page_count size
    r ← call (f.allocate_pages (address a) loader_data count_pages)
    at_result a size count_pages r
