-- ===== src/Mem/Allocator.antt =====
-- src/mem.rs: `MultibootAllocator`, which hands Rust's allocator to the `multiboot` crate. Rust's
-- allocator is a parameter: `alloc` of a size gives an address, 0 for none.
pub mod Laws
pub mod History
use towboot_rust.Prelude.{
  ℕ, ◌-◌, ◌^◌, [], Option, none, some, Bool, leb, ltb, ◌==◌, if◌then◌else◌, Outcome, ok, panic,
}
use towboot_rust.Prelude.OrderedMap
use towboot_rust.Prelude.OrderedMap.{OrderedMap}
use towboot_rust.Firmware.{Status}

-- `alloc::alloc::{alloc, dealloc}` for bytes, and the greatest size that a `Layout` can have.
pub record Heap (S : Type 0) : Type 0 where
  pub alloc : ℕ → S → ℕ × S
  pub dealloc : ℕ → ℕ → S → S
  pub max_layout : ℕ

-- The sizes of the layouts, by address.
pub record MultibootAllocator : Type 0 where
  pub allocations : OrderedMap ℕ

unfoldable pub new : MultibootAllocator
new = record { allocations = [] }

-- Get a slice to the memory referenced by the pointer: its address and its length.
unfoldable pub paddr_to_slice : MultibootAllocator → ℕ → ℕ → Option (ℕ × ℕ)
paddr_to_slice a addr _length = elim (OrderedMap.lookup addr a.allocations) [
  | none ↦ none
  | some size ↦ some (addr, size)
]

module _ {S : Type 0} (h : Heap S) where
  abbrev pub State : Type 0
  State = MultibootAllocator × S

  -- Allocate n bytes of memory and return the address.
  unfoldable pub allocate : ℕ → State → Outcome ⊥ (Option (ℕ × ℕ)) × State
  allocate length (a, s) =
      let (ptr, s') = h.alloc length s in
      if ltb h.max_layout length
      then (panic "tried to allocate more than usize", (a, s))
      else if leb (2 ^ 32 - 1) ptr
      then (ok none, (a, s'))
      else if ptr == 0
      then (ok none, (a, s'))
      else (
        ok (some (ptr, length)),
        (record { allocations = OrderedMap.insert ptr length a.allocations }, s'),
      )

  abbrev pub release : ℕ → Option ℕ → State → Outcome ⊥ (Unit {0}) × State
  release addr none st = (panic "couldn't free memory that has not been previously allocated", st)
  release addr (some size) (a, s) =
      (ok tt, (record { allocations = OrderedMap.erase addr a.allocations }, h.dealloc addr size s))

  -- Free the previously allocated memory.
  unfoldable pub deallocate : ℕ → State → Outcome ⊥ (Unit {0}) × State
  deallocate addr (a, s) =
      if addr == 0
      then (ok tt, (a, s))
      else release addr (OrderedMap.lookup addr a.allocations) (a, s)
