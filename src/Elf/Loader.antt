-- ===== src/Elf/Loader.antt =====
-- src/boot/elf.rs: `OurElfLoader`. A method with `&mut self` and a `Result` gives back both: the
-- result and the loader as the method leaves it, also on an error. Beside that it can only panic.
pub mod Ownership
pub mod Entry
pub mod Segment
use towboot_rust.Prelude.{
  ℕ, ◌+◌, ◌-◌, ◌*◌, ◌%◌, ◌^◌, ◌≡◌, Bool, true, false, ◌&&◌, Option, none, some, List, [], ◌∷◌, leb,
  ◌==◌, if◌then◌else◌, Outcome, ok, panic, narrow, Target, wrap, subtract, assert, Result, done,
  failed, String, length, unwrap, ◌>>?◌,
}
use towboot_rust.Prelude.OrderedMap
use towboot_rust.Prelude.OrderedMap.{OrderedMap, values}
use towboot_rust.Firmware.{Status, World, PageServices}
use towboot_rust.Firmware.Exec.{Exec, pure, lift, attempt, ◌>>=◌, ◌>>◌}
use towboot_rust.Mem.Map.{page_size}
use towboot_rust.Mem.Allocation.{Allocation, new_at, free}
use towboot_rust.Mem.Bytes.{fill, write, slice?}

-- `goblin::elf::ProgramHeader`, by what the sources read. `file_range()` is `file_start..file_end`.
pub record ProgramHeader : Type 0 where
  pub p_type : ℕ
  pub p_vaddr : ℕ
  pub p_paddr : ℕ
  pub p_memsz : ℕ
  pub file_start : ℕ
  pub file_end : ℕ

abbrev pub pt_load : ℕ
pt_load = 1

pub record OurElfLoader : Type 0 where
  -- maps virtual to physical addresses
  pub allocations : OrderedMap Allocation
  pub virtual_entry_point : ℕ
  pub physical_entry_point : Option ℕ

unfoldable pub new : ℕ → OurElfLoader
new entry_point = record {
  allocations = [];
  virtual_entry_point = entry_point;
  physical_entry_point = none;
}

-- `impl From<OurElfLoader> for Vec<Allocation>`.
abbrev pub into_allocations : OurElfLoader → List Allocation
into_allocations loader = values loader.allocations

module _ (t : Target) where
  -- Gets the entry point.
  unfoldable pub entry_point : OurElfLoader → Outcome ⊥ ℕ
  entry_point loader = elim loader.physical_entry_point [
    | some a ↦ ok a
    | none ↦ narrow t.usize_bits loader.virtual_entry_point
  ]

  -- `p_vaddr <= entry && p_vaddr + p_memsz >= entry`.
  abbrev holds_entry : ProgramHeader → ℕ → Outcome ⊥ Bool
  holds_entry header entry =
      if leb header.p_vaddr entry
      then (wrap t 64 (header.p_vaddr + header.p_memsz) >>? λ end. ok (leb entry end))
      else ok false

  abbrev physical : ProgramHeader → ℕ → Outcome ⊥ ℕ
  physical header entry = wrap t 64 (header.p_paddr + entry) >>? λ sum.
      subtract t 64 sum header.p_vaddr >>? λ a. narrow t.usize_bits a

  -- The entry point after a segment has been allocated.
  unfoldable pub find_entry : ProgramHeader → OurElfLoader → Outcome ⊥ (Option ℕ)
  find_entry header loader = holds_entry header loader.virtual_entry_point >>? λ found.
      if found
      then (physical header loader.virtual_entry_point >>? λ a. ok (some a))
      else ok loader.physical_entry_point

  module _ {S : Type 0} (f : PageServices S) where
    abbrev pub Method : Type 0
    Method = Exec S ⊥ (Result String (Unit {0}) × OurElfLoader)

    -- The value that `BTreeMap::insert` replaces is dropped.
    abbrev pub free_replaced : Option Allocation → Exec S ⊥ (Unit {0})
    free_replaced none = pure tt
    free_replaced (some a) = free f a

    -- `mem_slice.fill(0)`.
    abbrev pub clear : Allocation → Exec S ⊥ (Unit {0})
    clear a w = (
      wrap t t.usize_bits (a.pages * page_size) >>? λ _. ok tt,
      record w { memory = fill a.ptr (a.pages * page_size) 0 w.memory },
    )

    abbrev pub allocated : ProgramHeader → OurElfLoader → Result Status Allocation → Method
    allocated header loader (failed e) =
        pure (failed "failed to allocate memory for the kernel", loader)
    allocated header loader (done allocation) = do
      clear allocation
      free_replaced (OrderedMap.replaced header.p_vaddr loader.allocations)
      entry ← lift (find_entry header loader)
      pure (
        done tt,
        record loader {
          allocations = OrderedMap.insert header.p_vaddr allocation loader.allocations;
          physical_entry_point = entry;
        },
      )

    unfoldable pub allocate : ProgramHeader → OurElfLoader → Method
    allocate header loader = do
      address ← lift (narrow t.usize_bits header.p_paddr)
      size ← lift (narrow t.usize_bits header.p_memsz)
      allocation ← attempt (new_at f address size)
      allocated header loader allocation

    -- `alloc.as_mut_slice()[0..region.len()].clone_from_slice(region)`.
    abbrev pub copy_region : Allocation → List ℕ → Exec S ⊥ (Unit {0})
    copy_region a region w = (
      wrap t t.usize_bits (a.pages * page_size) >>? λ bytes.
          assert (leb (length region) bytes) "range end index out of range",
      record w { memory = write a.ptr region w.memory },
    )

    unfoldable pub load : ℕ → List ℕ → OurElfLoader → Method
    load base region loader = do
      alloc ←
          lift (unwrap (OrderedMap.lookup base loader.allocations) "we didn't allocate the base")
      lift
          (assert (leb (length region) alloc.len) "it doesn't fit into the memory allocated for it")
      copy_region alloc region
      pure (done tt, loader)

    abbrev pub load_range :
        ProgramHeader → List ℕ → Result String (Unit {0}) × OurElfLoader → Method
    load_range header bytes (failed m, loader) = pure (failed m, loader)
    load_range header bytes (done _, loader) = do
      region ← lift (unwrap (slice? bytes header.file_start header.file_end) "range out of bounds")
      load header.p_vaddr region loader

    -- One program header of the loop of `load_elf`.
    unfoldable pub load_segment : ProgramHeader → List ℕ → OurElfLoader → Method
    load_segment header bytes loader =
        if header.p_type == pt_load
        then (do r ← allocate header loader; load_range header bytes r)
        else pure (done tt, loader)

    -- `?`: an error ends the loop.
    abbrev pub next_segment :
        (OurElfLoader → Method) → Result String (Unit {0}) × OurElfLoader → Method
    next_segment rest (failed m, loader) = pure (failed m, loader)
    next_segment rest (done _, loader) = rest loader

    unfoldable pub load_elf : List ProgramHeader → List ℕ → OurElfLoader → Method
    load_elf [] bytes loader = pure (done tt, loader)
    load_elf (header ∷ headers) bytes loader = do
      r ← load_segment header bytes loader
      next_segment (load_elf headers bytes) r
