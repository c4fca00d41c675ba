-- ===== src/Firmware/Laws.antt =====
-- What the loader relies on of the firmware's memory services, as the UEFI specification
-- documents it. `held s p n` counts the blocks of `n` pages at `p` that are allocated and not yet
-- freed in the state `s`.
use towboot_rust.Prelude.{ℕ, ◌+◌, ◌*◌, ◌≤◌, ◌<◌, ◌≡◌, Bool, true, false, ◌==◌, ◌&&◌, done, failed}
use towboot_rust.Firmware.{Status, MemoryType, AllocateType, PageServices, max_address, address}

-- How often each block, by address and number of pages, occurs.
abbrev pub Ledger : Type 0
Ledger = ℕ → ℕ → ℕ

abbrev pub one_if : Bool → ℕ
one_if true = 1
one_if false = 0

abbrev pub single : ℕ → ℕ → Ledger
single ptr pages p n = one_if (ptr == p && pages == n)

pub record IsLawful {S : Type 0} (f : PageServices S) (held : S → Ledger) : Type 0 where
  -- A successful call allocates one block and leaves the others.
  pub allocated :
      (ty : AllocateType) (kind : MemoryType) (pages : ℕ) (s : S) (ptr : ℕ)
      → (f.allocate_pages ty kind pages s).0 ≡ done ptr
      → (p n : ℕ)
      → held (f.allocate_pages ty kind pages s).1 p n ≡ held s p n + single ptr pages p n
  pub not_allocated :
      (ty : AllocateType) (kind : MemoryType) (pages : ℕ) (s : S) (e : Status)
      → (f.allocate_pages ty kind pages s).0 ≡ failed e
      → (p n : ℕ) → held (f.allocate_pages ty kind pages s).1 p n ≡ held s p n
  -- An allocated block can be freed.
  pub freed :
      (ptr pages : ℕ) (s : S)
      → 0 < held s ptr pages
      → ((f.free_pages ptr pages s).0 ≡ done tt)
        × ((p n : ℕ) → held (f.free_pages ptr pages s).1 p n + single ptr pages p n ≡ held s p n)
  -- `MaxAddress`: the last byte of the block is not above the address.
  pub below :
      (top : ℕ) (kind : MemoryType) (pages : ℕ) (s : S) (ptr : ℕ)
      → (f.allocate_pages (max_address top) kind pages s).0 ≡ done ptr
      → ptr + pages * 4096 ≤ top + 1
  -- `Address`: the block is at the address.
  pub at_address :
      (a : ℕ) (kind : MemoryType) (pages : ℕ) (s : S) (ptr : ℕ)
      → (f.allocate_pages (address a) kind pages s).0 ≡ done ptr
      → ptr ≡ a
