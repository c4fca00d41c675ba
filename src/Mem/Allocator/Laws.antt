-- ===== src/Mem/Allocator/Laws.antt =====
-- src/mem.rs: what `MultibootAllocator` remembers.
use towboot_rust.Prelude.{
  ℕ, ◌-◌, ◌^◌, ◌<◌, ◌≡◌, none, some, ◌==◌, if◌then◌else◌, ok, arith, [], ◌∷◌,
}
use towboot_rust.Prelude.OrderedMap.{
  OrderedMap, lookup, insert, erase, IsOrdered, lookup-insert, lookup-erase, insert-IsOrdered,
  erase-IsOrdered,
}
use towboot_rust.Mem.Allocator.{Heap, MultibootAllocator, new, paddr_to_slice, allocate, deallocate}

-- Every address that is remembered is a pointer below 4 GB.
abbrev pub InRange : OrderedMap ℕ → Type 0
InRange [] = Unit
InRange ((p, _) ∷ m) = (0 < p) × (p < 2 ^ 32 - 1) × InRange m

pub record IsValid (a : MultibootAllocator) : Type 0 where
  pub ordered : IsOrdered a.allocations
  pub range : InRange a.allocations

InRange-insert :
    (p size : ℕ) (m : OrderedMap ℕ) → 0 < p → p < 2 ^ 32 - 1 → InRange m → InRange (insert p size m)
unfolding insert
InRange-insert p size [] h k r = (h, k, tt)
InRange-insert p size ((q, _) ∷ m) h k (a, b, r) = ground (arith, InRange-insert p size m h k r)

InRange-erase : (p : ℕ) (m : OrderedMap ℕ) → InRange m → InRange (erase p m)
unfolding erase
InRange-erase p [] r = tt
InRange-erase p ((q, _) ∷ m) (a, b, r) = ground (arith, InRange-erase p m r)

pub new-IsValid : IsValid new
unfolding new
new-IsValid = record { ordered = tt; range = tt }

module _ {S : Type 0} (h : Heap S) where
  -- Allocating keeps the allocator valid, whatever the outcome: its map has each address once,
  -- in order, and only such as are not null and below the last byte of the first 4 GB.
  pub allocate-IsValid :
      (length : ℕ) (a : MultibootAllocator) (s : S)
      → IsValid a
      → IsValid (allocate h length (a, s)).1.0
  unfolding allocate
  allocate-IsValid length a s v = ground (
    arith,
    insert-IsOrdered (h.alloc length s).0 length a.allocations v.ordered,
    InRange-insert (h.alloc length s).0 length a.allocations,
  )

  -- Freeing keeps the allocator valid, whatever address it is given.
  pub deallocate-IsValid :
      (addr : ℕ) (a : MultibootAllocator) (s : S)
      → IsValid a
      → IsValid (deallocate h addr (a, s)).1.0
  unfolding deallocate
  deallocate-IsValid addr a s v =
      ground (arith, erase-IsOrdered addr a.allocations v.ordered, InRange-erase addr a.allocations)

  -- A successful allocation is of the length asked for, at an address that is not null and
  -- below the last byte of the first 4 GB; from then on that address finds its slice, and every
  -- other address what it found before.
  pub allocate_lem :
      (length : ℕ) (a : MultibootAllocator) (s : S) (p n : ℕ)
      → (allocate h length (a, s)).0 ≡ ok (some (p, n))
      → (n ≡ length)
        × (0 < p)
        × (p < 2 ^ 32 - 1)
        × ((q k : ℕ)
            → paddr_to_slice (allocate h length (a, s)).1.0 q k
              ≡ (if q == p then some (q, length) else paddr_to_slice a q k))
  unfolding allocate paddr_to_slice
  allocate_lem length a s p n e = (
    ground arith,
    ground arith,
    ground arith,
    λ q k. ground (arith, lookup-insert q (h.alloc length s).0 length a.allocations),
  )

  allocate-allocations :
      (length : ℕ) (a : MultibootAllocator) (s : S) (p n : ℕ)
      → (allocate h length (a, s)).0 ≡ ok (some (p, n))
      → (allocate h length (a, s)).1.0.allocations ≡ insert p length a.allocations
  unfolding allocate
  allocate-allocations length a s p n e = ground arith

  -- If the allocator is valid and the address of a successful allocation was not in use before,
  -- freeing it succeeds and gives every address the slice that it had before the allocation.
  pub deallocate-allocate :
      (length : ℕ) (a : MultibootAllocator) (s : S) (p n : ℕ)
      → IsValid a
      → (allocate h length (a, s)).0 ≡ ok (some (p, n))
      → paddr_to_slice a p 0 ≡ none
      → let back = deallocate h p (allocate h length (a, s)).1 in
        (back.0 ≡ ok tt) × ((q k : ℕ) → paddr_to_slice back.1.0 q k ≡ paddr_to_slice a q k)
  unfolding deallocate paddr_to_slice
  deallocate-allocate length a s p n v e fresh =
      let st = (allocate h length (a, s)).1 in
      let kept = allocate-allocations length a s p n e in
      let found : lookup p st.0.allocations ≡ some length =
        ground (arith, lookup-insert p p length a.allocations, kept) in
      let (_, pos, _, _) = allocate_lem length a s p n e in
      (
        ground (arith, found, pos),
        λ q k. ground (
          arith,
          found,
          pos,
          kept,
          fresh,
          lookup-erase q p (insert p length a.allocations)
              (insert-IsOrdered p length a.allocations v.ordered),
          lookup-insert q p length a.allocations,
        ),
      )
