-- ===== src/Kernel.antt =====
-- src/boot/mod.rs: `LoadedKernel`. What the `multiboot` and `goblin` crates make of the file is a
-- parameter.
pub mod Ownership
pub mod Image
pub mod Choice
use towboot_rust.Prelude.{
  ℕ, ◌+◌, ◌*◌, Bool, true, false, Option, none, some, List, [], ◌∷◌, length, take, drop, ◌==◌,
  if◌then◌else◌, String, Outcome, ok, narrow, Target, wrap, subtract, Result, done, failed, map_err,
  ◌>>?◌,
}
use towboot_rust.Firmware.{Status, load_error, PageServices, World}
use towboot_rust.Firmware.Exec.{Exec, pure, raise, lift, never, with_err, ◌>>=◌, ◌>>◌}
use towboot_rust.Config.{Quirk, force_elf, contains}
use towboot_rust.Mem.Map.{page_size}
use towboot_rust.Mem.Allocation.{Allocation, new_at, free_all}
use towboot_rust.Mem.Bytes.{fill, write}
use towboot_rust.Elf.Loader as Loader
use towboot_rust.Elf.Loader.{OurElfLoader, into_allocations, load_elf, entry_point}
use towboot_rust.Elf.Symbols.{Buffer, Binary, SymbolServices, ElfSymbols, symbols}

-- `multiboot::header::MultibootAddresses`.
pub record MultibootAddresses : Type 0 where
  pub header_address : ℕ
  pub load_address : ℕ
  pub load_end_address : ℕ
  pub bss_end_address : ℕ
  pub entry_address : ℕ

pub data Addresses : Type 0 where
  multiboot : MultibootAddresses → Addresses
  elf : ℕ → Addresses

pub record LoadedKernel : Type 0 where
  pub allocations : List Allocation
  pub addresses : Addresses
  pub symbols : Option (ElfSymbols × Buffer)

-- `compute_load_offset` of the `multiboot` crate, `Elf::parse` of `goblin`.
pub record KernelFormats : Type 0 where
  pub compute_load_offset : MultibootAddresses → ℕ → Outcome ⊥ ℕ
  pub parse_elf : List ℕ → Result String Binary
  pub symbol_services : SymbolServices

module _ (k : KernelFormats) (t : Target) {S : Type 0} (f : PageServices S) where
  -- The number of bytes of the kernel in memory.
  unfoldable pub kernel_length : MultibootAddresses → Outcome ⊥ ℕ
  kernel_length addresses =
      (if addresses.bss_end_address == 0
        then subtract t 32 addresses.load_end_address addresses.load_address
        else subtract t 32 addresses.bss_end_address addresses.load_address)
      >>? λ n. narrow t.usize_bits n

  -- The kernel's text and data, and zeros up to the end of the pages.
  abbrev pub copy_kernel : Allocation → List ℕ → Exec S ⊥ (Unit {0})
  copy_kernel a region w = (
    wrap t t.usize_bits (a.pages * page_size) >>? λ _. ok tt,
    record w {
      memory =
          write a.ptr (take (a.pages * page_size) region)
            (fill a.ptr (a.pages * page_size) 0 w.memory);
    },
  )

  -- Load a kernel which has its addresses specified inside the Multiboot header.
  unfoldable pub new_multiboot : List ℕ → MultibootAddresses → ℕ → Exec S Status LoadedKernel
  new_multiboot kernel_vec addresses header_start = do
    load_offset ← never (k.compute_load_offset addresses header_start)
    bytes ← never (kernel_length addresses)
    address ← never (narrow t.usize_bits addresses.load_address)
    allocation ← new_at f address bytes
    loaded ← never (subtract t 32 addresses.load_end_address addresses.load_address)
    with_err absurd (copy_kernel allocation (take loaded (drop load_offset kernel_vec)))
    pure (record { allocations = allocation ∷ []; addresses = multiboot addresses; symbols = none })

  -- What follows `load_elf`; on an error the loader is dropped.
  abbrev pub finish_elf :
      List ℕ → Binary → Result String (Unit {0}) × OurElfLoader → Exec S Status LoadedKernel
  finish_elf kernel_vec binary (failed m, loader) = do
    free_all f (into_allocations loader)
    raise load_error
  finish_elf kernel_vec binary (done _, loader) = do
    found ← never (symbols k.symbol_services t binary kernel_vec)
    entry ← never (entry_point t loader)
    pure (record {
      allocations = into_allocations loader;
      addresses = elf entry;
      symbols = some found;
    })

  -- Load a kernel which uses ELF semantics.
  unfoldable pub new_elf : List ℕ → Exec S Status LoadedKernel
  new_elf kernel_vec = do
    binary ← lift (map_err (k.parse_elf kernel_vec) (λ _. load_error))
    r ← with_err absurd (load_elf t f binary.program_headers kernel_vec (Loader.new binary.entry))
    finish_elf kernel_vec binary r

  abbrev pub new_by : List ℕ → ℕ → Option MultibootAddresses → Bool → Exec S Status LoadedKernel
  new_by kernel_vec header_start (some addresses) false =
      new_multiboot kernel_vec addresses header_start
  new_by kernel_vec header_start (some addresses) true = new_elf kernel_vec
  new_by kernel_vec header_start none _ = new_elf kernel_vec

  -- Load a kernel from a vector.
  unfoldable pub new :
      List ℕ → Option MultibootAddresses → ℕ → List Quirk → Exec S Status LoadedKernel
  new kernel_vec addresses header_start quirks =
      new_by kernel_vec header_start addresses (contains quirks force_elf)
