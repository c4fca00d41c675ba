-- ===== src/Mem/Allocation/Size.antt =====
-- src/mem.rs: the number of pages, and where allocations lie.
use towboot_rust.Prelude.{
  ℕ, ◌+◌, ◌-◌, ◌*◌, ◌/◌, ◌%◌, ◌^◌, ◌≤◌, ◌<◌, ◌≡◌, refl, ◌⊎◌, inl, inr, true, false, Option, none,
  some, List, [], arith, Outcome, ok, err, panic, expect, Result, done, failed, if◌then◌else◌, ap,
  sym, ◌∙◌,
}
use towboot_rust.Prelude
use towboot_rust.Firmware.{
  MemoryDescriptor, Status, PageServices, World, max_address, address, loader_data,
}
use towboot_rust.Firmware.Exec.{continue, pure}
use towboot_rust.Firmware.Laws.{Ledger, IsLawful}
use towboot_rust.Config.{Quirk, modules_below_200mb, contains}
use towboot_rust.Mem.Map.{page_size}
use towboot_rust.Mem.Allocation.{
  under_4gb_result, at_result, Allocation, calculate_page_count, new_under_4gb, new_at,
  dump_memory_map,
}

-- The pages of `calculate_page_count` hold the bytes, and one page less would not.
pub calculate_page_count_bounds :
    (size : ℕ)
    → (size ≤ calculate_page_count size * page_size)
      × (calculate_page_count size * page_size < size + page_size)
unfolding calculate_page_count
calculate_page_count_bounds size = ground arith

-- The upper end of what `new_under_4gb` may allocate.
abbrev pub top : List Quirk → ℕ
top quirks = if contains quirks modules_below_200mb then 200 * 1024 * 1024 else 2 ^ 32 - 1

-- An allocation that has room for the bytes and ends below the limit.
pub record IsBelow (size limit : ℕ) (a : Allocation) : Type 0 where
  pub same_len : a.len ≡ size
  pub room : size ≤ a.pages * page_size
  pub below : a.ptr + a.pages * page_size ≤ limit

module _ {S : Type 0} (f : PageServices S) where
  pub under_4gb_result-ok :
      (size pages : ℕ) (r : Result Status ℕ) (w : World S) (a : Allocation)
      → (under_4gb_result f size pages r w).0 ≡ ok a
      → (r ≡ done a.ptr) × (a.len ≡ size) × (a.pages ≡ pages) × (a.should_be_at ≡ none)
  unfolding dump_memory_map
  under_4gb_result-ok size pages (done p) w a h = ground arith
  under_4gb_result-ok size pages (failed e) w a h = ground arith

  module _ (held : S → Ledger) (law : IsLawful f held) where
    -- With lawful memory services, an allocation of `new_under_4gb` has the length asked for
    -- and pages that hold it, and is where it should be. It ends at 4 GB at most, or with the
    -- quirk one byte above 200 MB at most.
    pub new_under_4gb-IsBelow :
        (size : ℕ) (quirks : List Quirk) (w : World S) (a : Allocation)
        → (new_under_4gb f size quirks w).0 ≡ ok a
        → IsBelow size (top quirks + 1) a × (a.should_be_at ≡ none)
    unfolding new_under_4gb
    new_under_4gb-IsBelow size quirks w a h =
        let count = calculate_page_count size in
        let (e, el, ep, es) =
          under_4gb_result-ok size count
            (f.allocate_pages (max_address (top quirks)) loader_data count w.firmware).0
            (record w {
              firmware =
                  (f.allocate_pages (max_address (top quirks)) loader_data count w.firmware).1;
            })
            a h in
        let below = law.below (top quirks) loader_data count w.firmware a.ptr e in
        let bounds = calculate_page_count_bounds size in
        (
          record {
            same_len = el;
            room = omega (arith, ep, bounds.0);
            below = omega (arith, ap (λ (t : ℕ). t * 4096) ep, below);
          },
          es,
        )

    -- Where the firmware cannot give the address, the allocation is made below 4 GB.
    elsewhere :
        (addr size : ℕ) (w : World S) (a : Allocation)
        → (continue
            (new_under_4gb f size [] w).0
            (λ (b : Allocation). pure (record b { should_be_at = some addr }))
            (new_under_4gb f size [] w).1).0
          ≡ ok a
        → IsBelow size (2 ^ 32) a × (a.should_be_at ≡ some addr)
    elsewhere addr size w a h = go (new_under_4gb f size [] w).0 refl h
      where
        go :
            (o : Outcome Status Allocation)
            → (new_under_4gb f size [] w).0 ≡ o
            → (continue o
                (λ (b : Allocation). pure (record b { should_be_at = some addr }))
                (new_under_4gb f size [] w).1).0
              ≡ ok a
            → IsBelow size (2 ^ 32) a × (a.should_be_at ≡ some addr)
        go (ok b) e k = let (i, _) = new_under_4gb-IsBelow size [] w b e in ground (arith, i, k)
        go (err x) e k = cc
        go (panic m) e k = cc

    at_result-ok :
        (addr size : ℕ) (r : Result Status ℕ) (w : World S) (a : Allocation)
        → (at_result f addr size (calculate_page_count size) r w).0 ≡ ok a
        → ((r ≡ done a.ptr)
            × (a.len ≡ size)
            × (a.pages ≡ calculate_page_count size)
            × (a.should_be_at ≡ none))
          ⊎ (IsBelow size (2 ^ 32) a × (a.should_be_at ≡ some addr))
    unfolding dump_memory_map
    at_result-ok addr size (done p) w a h = ground arith
    at_result-ok addr size (failed e) w a h = go (f.memory_map w.firmware) h
      where
        go :
            (r : Result Status (List MemoryDescriptor))
            → (continue
                (Prelude.◌>>=◌ (expect r "failed to get memory map") (λ _. ok tt))
                (λ (_ : Unit {0}) v.
                  continue
                    (new_under_4gb f size [] v).0
                    (λ (b : Allocation). pure (record b { should_be_at = some addr }))
                    (new_under_4gb f size [] v).1)
                w).0
              ≡ ok a
            → ((failed e ≡ done a.ptr)
                × (a.len ≡ size)
                × (a.pages ≡ calculate_page_count size)
                × (a.should_be_at ≡ none))
              ⊎ (IsBelow size (2 ^ 32) a × (a.should_be_at ≡ some addr))
        go (done _) k = inr (elsewhere addr size w a k)
        go (failed _) k = cc

    -- With lawful memory services, an allocation of `new_at` has the length asked for and
    -- pages that hold it. It is at the address, or it ends at 4 GB at most and remembers the
    -- address that it should be at.
    pub new_at-cases :
        (addr size : ℕ) (w : World S) (a : Allocation)
        → (new_at f addr size w).0 ≡ ok a
        → ((a.ptr ≡ addr) × (a.len ≡ size) × (size ≤ a.pages * page_size) × (a.should_be_at ≡ none))
          ⊎ (IsBelow size (2 ^ 32) a × (a.should_be_at ≡ some addr))
    unfolding new_at
    new_at-cases addr size w a h =
        let count = calculate_page_count size in
        let s' = f.allocate_pages (address addr) loader_data count w.firmware in
        elim (at_result-ok addr size s'.0 (record w { firmware = s'.1 }) a h) [
          | inl (e, el, ep, es) ↦ inl (
            law.at_address addr loader_data count w.firmware a.ptr e,
            el,
            omega (arith, ep, (calculate_page_count_bounds size).0),
            es,
          )
          | inr r ↦ inr r
        ]
