-- ===== src/Prepare.antt =====
-- src/boot/mod.rs: `PreparedEntry`, from the configuration's entry to the jump. What the `multiboot`
-- crate reads from the kernel's header is a parameter.
pub mod Ownership
pub mod Overlap
pub mod Boot
pub mod Told
pub mod Content
pub mod Filled
pub mod Image
pub mod Modules
pub mod Leaving
use towboot_rust.Prelude.{
  Bool, true, false, ◌&&◌, ◌||◌, ltb, ℕ, ◌+◌, ◌-◌, ◌%◌, ◌^◌, Option, none, some, List, [], ◌∷◌,
  ◌++◌, String, Outcome, ok, unwrap, expect, ok_or, narrow, Target, wrap, replicate, Result, ◌>>?◌,
}
use towboot_rust.Firmware.{Status, load_error, MemoryDescriptor, PageServices, World}
use towboot_rust.Firmware.Exec.{Exec, pure, lift, never, with_err, call, ◌>>=◌, ◌>>◌}
use towboot_rust.Multiboot.{MemoryEntry, reserved}
use towboot_rust.Config.{Quirk, Module, Entry}
use towboot_rust.Mem.Map as Map
use towboot_rust.Mem.Map.{MemoryInformation}
use towboot_rust.Mem.Allocation.{Allocation, dropping}
use towboot_rust.Mem.Move.{move_to_where_it_should_be}
use towboot_rust.File.{FileServices, open_file, try_into_allocation, try_into_vec}
use towboot_rust.Elf.Symbols.{ElfSymbols, Buffer}
use towboot_rust.Kernel.{
  MultibootAddresses, Addresses, multiboot, elf, LoadedKernel, KernelFormats, new,
}
use towboot_rust.Video.Mode.{
  PreferredMode, GraphicsServices, setup_video, FramebufferTable, prepare_framebuffer,
}

-- `multiboot::header::Header`, by what the sources read.
pub record Header : Type 0 where
  pub addresses : Option MultibootAddresses
  pub header_start : ℕ
  pub preferred_video_mode : Option PreferredMode

-- The information structure, by what is set.
pub record MbModule : Type 0 where
  pub start : ℕ
  pub end : ℕ
  pub string : Option String

pub record Information : Type 0 where
  pub command_line : Option String
  pub modules : List MbModule
  pub symbols : Option ElfSymbols
  pub boot_loader_name : String
  pub framebuffer : FramebufferTable

pub record PreparedEntry : Type 0 where
  pub entry : Entry
  pub loaded_kernel : LoadedKernel
  pub multiboot_information : Information
  pub modules_vec : List Allocation

-- All that is taken from outside of the sources.
pub record Services (S H : Type 0) : Type 0 where
  pub pages : PageServices S
  pub files : FileServices S H
  pub graphics : GraphicsServices S
  pub formats : KernelFormats
  pub parse_header : List ℕ → Option Header
  pub loader_name : String

-- `LoadedKernel::symbols_struct`.
abbrev pub symbols_struct : Option (ElfSymbols × Buffer) → Option ElfSymbols
symbols_struct none = none
symbols_struct (some (s, _)) = some s

-- `PreparedEntry::boot` calls the firmware for the last time: `exit_boot_services` takes the size of
-- a buffer and gives the final memory map. `places` are the addresses and lengths of the information
-- structure, the memory map and all that they refer to, where the compiler and Rust's allocator put
-- them.
pub record LastCall (S : Type 0) : Type 0 where
  pub map_size : S → ℕ
  pub exit_boot_services : ℕ → S → Result Status (List MemoryDescriptor) × S
  pub places : PreparedEntry → MemoryInformation → List (ℕ × ℕ)

-- The state at the jump: what the information structure holds, with the memory map, unless a part of
-- it was overwritten (`none`), the kernel's allocations and the register EDI.
pub record Jump : Type 0 where
  pub information : Option (Information × MemoryInformation)
  pub kernel : List Allocation
  pub entry_address : ℕ

-- Whether two ranges share a byte.
abbrev pub overlaps : ℕ → ℕ → ℕ → ℕ → Bool
overlaps p n q m = ltb 0 n && ltb 0 m && ltb p (q + m) && ltb q (p + n)

abbrev pub hits : Allocation → Option ℕ → List (ℕ × ℕ) → Bool
hits a none places = false
hits a (some dst) [] = false
hits a (some dst) ((p, n) ∷ places) = overlaps dst a.len p n || hits a (some dst) places

-- Whether one of the allocations is to be moved over one of the places.
abbrev pub moved_over : List Allocation → List (ℕ × ℕ) → Bool
moved_over [] places = false
moved_over (a ∷ rest) places = hits a a.should_be_at places || moved_over rest places

abbrev pub unless {ℓ} : {A : Type ℓ} → Bool → A → Option A
unless true a = none
unless false a = some a

abbrev pub empty_entry : MemoryEntry
empty_entry = record { base_address = 0; length = 0; memory_type = reserved }

module _ (t : Target) where
  -- `modules.iter().zip(entry.modules.iter())`.
  unfoldable pub module_list : List Allocation → List Module → Outcome ⊥ (List MbModule)
  module_list [] ms = ok []
  module_list (a ∷ as_) [] = ok []
  module_list (a ∷ as_) (m ∷ ms) =
      let rest = module_list as_ ms in
      narrow (t.usize_bits - 1) a.len >>? λ len.
      rest >>? λ more. ok (record { start = a.ptr; end = a.ptr + len; string = m.argv } ∷ more)

  module _ {S H : Type 0} (v : Services S H) where
    -- Load all modules, fail completely if one fails to load.
    unfoldable pub load_modules : List Quirk → List Module → Exec S Status (List Allocation)
    load_modules quirks [] = pure []
    load_modules quirks (m ∷ ms) = do
      file ← open_file v.files t m.image
      a ← try_into_allocation v.files v.pages t file quirks
      rest ← dropping v.pages (a ∷ []) (load_modules quirks ms)
      pure (a ∷ rest)

    -- Prepare information for the kernel.
    unfoldable pub prepare_multiboot_information :
        Entry → List Allocation → Option ElfSymbols → Exec S ⊥ Information
    prepare_multiboot_information entry modules symbols w = (
      module_list modules entry.modules >>? λ mb_modules.
          prepare_framebuffer t (v.graphics.frame_buffer w.firmware)
            (v.graphics.current_mode_info w.firmware)
          >>? λ table. ok (record {
            command_line = entry.argv;
            modules = mb_modules;
            symbols = symbols;
            boot_loader_name = v.loader_name;
            framebuffer = table;
          }),
      w,
    )

    -- What follows the loading of the kernel.
    unfoldable pub with_kernel : Entry → Header → LoadedKernel → Exec S Status PreparedEntry
    with_kernel entry header kernel = do
      modules_vec ← dropping v.pages kernel.allocations (load_modules entry.quirks entry.modules)
      dropping v.pages (modules_vec ++ kernel.allocations)
          (setup_video v.graphics header.preferred_video_mode entry.quirks)
      info ←
          with_err absurd
            (prepare_multiboot_information entry modules_vec (symbols_struct kernel.symbols))
      pure (record {
        entry = entry;
        loaded_kernel = kernel;
        multiboot_information = info;
        modules_vec = modules_vec;
      })

    -- Prepare an entry for boot.
    unfoldable pub prepare : Entry → Exec S Status PreparedEntry
    prepare entry = do
      file ← open_file v.files t entry.image
      kernel_vec ← try_into_vec v.files file
      header ← lift (ok_or (v.parse_header kernel_vec) load_error)
      kernel ← new v.formats t v.pages kernel_vec header.addresses header.header_start entry.quirks
      with_kernel entry header kernel

  abbrev pub entry_of : Addresses → ℕ
  entry_of (multiboot a) = a.entry_address % 2 ^ t.usize_bits
  entry_of (elf e) = e

  module _ {S : Type 0} where
    -- `for allocation in &mut self.loaded_kernel.allocations`.
    unfoldable pub move_all : List MemoryEntry → List Allocation → Exec S ⊥ (List Allocation)
    move_all mb_mmap [] = pure []
    move_all mb_mmap (a ∷ rest) = do
      moved ← move_to_where_it_should_be t a mb_mmap
      others ← move_all mb_mmap rest
      pure (moved ∷ others)

    -- Actually boot an entry, up to the jump.
    unfoldable pub boot : LastCall S → PreparedEntry → Exec S ⊥ Jump
    boot c prepared = do
      estimated_size ← λ w. (wrap t t.usize_bits (c.map_size w.firmware + 100), w)
      answer ← call (c.exit_boot_services estimated_size)
      mmap ← lift (expect answer "failed to exit boot services")
      info ← lift (Map.prepare_information t mmap (replicate estimated_size empty_entry))
      kernel ← move_all info.regions prepared.loaded_kernel.allocations
      pure (record {
        information =
            unless (moved_over prepared.loaded_kernel.allocations (c.places prepared info))
              (prepared.multiboot_information, info);
        kernel = kernel;
        entry_address = entry_of prepared.loaded_kernel.addresses;
      })
