-- ===== src/Tests/Allocator.antt =====
-- Runs of `MultibootAllocator` of src/mem.rs, one after the other.
use towboot_rust.Prelude.{
  ℕ, ◌+◌, ◌*◌, ◌-◌, ◌^◌, ◌≡◌, refl, some, none, List, [], ◌∷◌, if◌then◌else◌,
}
use towboot_rust.Mem.Allocator as Allocator
use towboot_rust.Mem.Allocator.{Heap, MultibootAllocator, State, paddr_to_slice}
use towboot_rust.Mem.Allocator.History.{
  given, taken, recorded, live, IsLegal, is_usable, slice_of, Request, allocating, freeing,
  serve_all, serve_all-eq-live,
}

-- An allocator that gives one page after the other.
abbrev heap : Heap ℕ
heap = record { alloc = λ n s. (s * 4096, s + 1); dealloc = λ p n s. s; max_layout = 2 ^ 63 - 1 }

abbrev requests : List Request
requests = allocating 12 ∷ allocating 5 ∷ freeing 4096 ∷ []

abbrev left : State (recorded heap)
left = (
  record { allocations = (8192, 5) ∷ [] },
  (3, taken 4096 12 ∷ given 8192 5 ∷ given 4096 12 ∷ []),
)

serve_all_run : serve_all (recorded heap) requests (Allocator.new, (1, [])) ≡ some left
unfolding serve_all Allocator.allocate recorded Allocator.deallocate
    towboot_rust.Prelude.OrderedMap.lookup towboot_rust.Prelude.OrderedMap.insert Allocator.new
    towboot_rust.Prelude.OrderedMap.erase
serve_all_run = refl

serve_all-eq-live_example :
    IsLegal left.1.1
    × ((q k : ℕ)
        → paddr_to_slice left.0 q k ≡ (if is_usable q then slice_of q (live q left.1.1) else none))
serve_all-eq-live_example = serve_all-eq-live heap requests 1 left serve_all_run
