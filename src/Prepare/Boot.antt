-- ===== src/Prepare/Boot.antt =====
-- src/boot/mod.rs: where the kernel lies at the jump, and what it is told.
use mathlib.Core.Option.{get_or}
use mathlib.Core.Path.{ap₂, subst}
use towboot_rust.Prelude.{
  ◌%◌, ◌^◌, ℕ, ◌+◌, ◌≡◌, refl, sym, ap, ◌∙◌, List, [], ◌∷◌, map, All, Option, none, some, ok,
  expect, done, Target, replicate, wrap, assert, ok-eq, arith,
}
use towboot_rust.Firmware.{World, MemoryDescriptor}
use towboot_rust.Firmware.Exec as Exec
use towboot_rust.Firmware.Exec.{continue-eq-ok, outcome-eq, memory-eq}
use towboot_rust.Multiboot.{MemoryEntry, MemoryType, available}
use towboot_rust.Mem.Map.{MemoryInformation, prepare_information}
use towboot_rust.Mem.Allocation.{Allocation}
use towboot_rust.Kernel.{Addresses, multiboot, elf}
use towboot_rust.Mem.Bytes.{Memory, copy}
use towboot_rust.Mem.Move.{
  copy_to, move_into, next_around, is_last, move_if, move_to_where_it_should_be,
}
use towboot_rust.Prepare.Overlap.{IsPassed, unless-IsPassed}
use towboot_rust.Prepare.{PreparedEntry, LastCall, Jump, empty_entry, entry_of, move_all, boot}

-- Where an allocation should be.
abbrev pub destination : Allocation → ℕ
destination a = get_or a.should_be_at a.ptr

-- The allocations are where those of the other list should be, and nothing is left to be moved.
abbrev pub InPlace : List Allocation → List Allocation → Type 0
InPlace bs as_ =
    (map (λ (b : Allocation). b.ptr) bs ≡ map destination as_)
    × All (λ (b : Allocation). b.should_be_at ≡ none) bs

-- The entry address that a kernel declares, as a `usize`.
abbrev pub IsEntry : Target → Addresses → ℕ → Type 0
IsEntry t (multiboot a) n = n ≡ a.entry_address % 2 ^ t.usize_bits
IsEntry t (elf e) n = n ≡ e

entry_of-IsEntry : (t : Target) (a : Addresses) → IsEntry t a (entry_of t a)
entry_of-IsEntry t (multiboot a) = refl
entry_of-IsEntry t (elf e) = refl

-- Memory after each displaced allocation was copied to its place, in order.
abbrev pub moved_one : Allocation → Option ℕ → Memory → Memory
moved_one a none m = m
moved_one a (some dst) m = copy a.ptr dst a.len m

abbrev pub moved_memory : List Allocation → Memory → Memory
moved_memory [] m = m
moved_memory (a ∷ rest) m = moved_memory rest (moved_one a a.should_be_at m)

module _ (t : Target) {S : Type 0} where
  copy_to-memory :
      (a : Allocation) (dst : ℕ) (kind : MemoryType) (w w' : World S)
      → copy_to t a dst kind w ≡ (ok tt, w')
      → w'.memory ≡ copy a.ptr dst a.len w.memory
  copy_to-memory a dst available w w' h = sym (memory-eq h)
  copy_to-memory a dst kind w w' h = cc (outcome-eq h)

  move_into-memory :
      (a : Allocation) (dst : ℕ) (found : Option (MemoryEntry × List MemoryEntry)) (w w' : World S)
      (b : Allocation)
      → move_into t a dst found w ≡ (ok b, w')
      → w'.memory ≡ copy a.ptr dst a.len w.memory
  move_into-memory a dst none w w' b h = cc (outcome-eq h)
  move_into-memory a dst (some (entry, rest)) w w' b h =
      let (_, w1, e1, h1) = Exec.>>=-eq-ok (copy_to t a dst entry.memory_type) _ w h in
      let (more, e2, h2) = continue-eq-ok (next_around t dst a.len rest) _ w1 h1 in
      let (_, e3, h3) = continue-eq-ok (assert (is_last more) "filter.next().is_none()") _ w1 h2 in
      sym (memory-eq h3) ∙ copy_to-memory a dst entry.memory_type w w1 e1

  move_if-memory :
      (a : Allocation) (o : Option ℕ) (mb_mmap : List MemoryEntry) (w w' : World S) (b : Allocation)
      → move_if t a o mb_mmap w ≡ (ok b, w')
      → w'.memory ≡ moved_one a o w.memory
  move_if-memory a none mb_mmap w w' b h = sym (memory-eq h)
  move_if-memory a (some dst) mb_mmap w w' b h =
      let (found, e1, h1) = continue-eq-ok (next_around t dst a.len mb_mmap) _ w h in
      move_into-memory a dst found w w' b h1

  move_all-memory :
      (mb_mmap : List MemoryEntry) (as_ bs : List Allocation) (w w' : World S)
      → move_all t mb_mmap as_ w ≡ (ok bs, w')
      → w'.memory ≡ moved_memory as_ w.memory
  unfolding move_all move_to_where_it_should_be
  move_all-memory mb_mmap [] bs w w' h = sym (memory-eq h)
  move_all-memory mb_mmap (a ∷ rest) bs w w' h =
      let (b, w1, e1, h1) = Exec.>>=-eq-ok (move_to_where_it_should_be t a mb_mmap) _ w h in
      let (others, w2, e2, h2) = Exec.>>=-eq-ok (move_all t mb_mmap rest) _ w1 h1 in
      sym (memory-eq h2)
      ∙ move_all-memory mb_mmap rest others w1 w2 e2
      ∙ ap (moved_memory rest) (move_if-memory a a.should_be_at mb_mmap w w1 b e1)

  moved :
      (a : Allocation) (o : Option ℕ) (mb_mmap : List MemoryEntry) (w w' : World S) (b : Allocation)
      → a.should_be_at ≡ o
      → move_if t a o mb_mmap w ≡ (ok b, w')
      → (b.ptr ≡ destination a) × (b.should_be_at ≡ none)
  moved a none mb_mmap w w' b e h = let r = outcome-eq h in ground (arith, r, e)
  moved a (some dst) mb_mmap w w' b e h = let r = outcome-eq h in ground (arith, r, e)

  move_all-InPlace :
      (mb_mmap : List MemoryEntry) (as_ bs : List Allocation) (w w' : World S)
      → move_all t mb_mmap as_ w ≡ (ok bs, w')
      → InPlace bs as_
  unfolding move_all move_to_where_it_should_be
  move_all-InPlace mb_mmap [] bs w w' h =
      subst (λ xs. InPlace xs []) (ok-eq (outcome-eq h)) (refl, tt)
  move_all-InPlace mb_mmap (a ∷ rest) bs w w' h =
      let (b, w1, e1, h1) = Exec.>>=-eq-ok (move_to_where_it_should_be t a mb_mmap) _ w h in
      let (others, w2, e2, h2) = Exec.>>=-eq-ok (move_all t mb_mmap rest) _ w1 h1 in
      let (at, none_left) = moved a a.should_be_at mb_mmap w w1 b refl e1 in
      let (ats, all_left) = move_all-InPlace mb_mmap rest others w1 w2 e2 in
      subst (λ xs. InPlace xs (a ∷ rest)) (ok-eq (outcome-eq h2))
        (ap₂ ◌∷◌ at ats, (none_left, all_left))

  -- What holds at the jump.
  pub record IsReady (c : LastCall S) (w w' : World S) (prepared : PreparedEntry) (jump : Jump)
      : Type 0 where
    pub mmap : List MemoryDescriptor
    pub room : ℕ
    pub sized : wrap {E = ⊥} t t.usize_bits (c.map_size w.firmware + 100) ≡ ok room
    pub last : (c.exit_boot_services room w.firmware).0 ≡ done mmap
    pub in_place : InPlace jump.kernel prepared.loaded_kernel.allocations
    pub memory : w'.memory ≡ moved_memory prepared.loaded_kernel.allocations w.memory
    pub info : MemoryInformation
    pub told : prepare_information t mmap (replicate room empty_entry) ≡ ok info
    pub passed :
        IsPassed prepared.loaded_kernel.allocations
          (c.places prepared info)
          (prepared.multiboot_information, info)
          jump.information
    pub entry : IsEntry t prepared.loaded_kernel.addresses jump.entry_address

  -- When `boot` comes to the jump: every allocation of the kernel is where it should be; memory
  -- differs only by the copies of the displaced ones to their places, in order; the memory map
  -- is that of the last call of the firmware, which was given a buffer of the size asked for
  -- and 100 bytes more; the kernel is told of this map and of the prepared information if no
  -- displaced allocation was to be moved over a byte of what it is told, and nothing is
  -- promised if one was; and the entry address is the one that the kernel's header or its ELF
  -- file names.
  pub boot-IsReady :
      (c : LastCall S) (prepared : PreparedEntry) (jump : Jump) (w w' : World S)
      → boot t c prepared w ≡ (ok jump, w')
      → IsReady c w w' prepared jump
  unfolding boot
  boot-IsReady c prepared jump w w' h =
      let (size, e1, h1) =
        continue-eq-ok (wrap t t.usize_bits (c.map_size w.firmware + 100)) _ w h in
      let (mmap, e2, h2) =
        continue-eq-ok
          (expect (c.exit_boot_services size w.firmware).0 "failed to exit boot services") _
          (record w { firmware = (c.exit_boot_services size w.firmware).1 }) h1 in
      let (info, e3, h3) =
        continue-eq-ok (prepare_information t mmap (replicate size empty_entry)) _ _ h2 in
      let (kernel, w4, e4, h4) =
        Exec.>>=-eq-ok (move_all t info.regions prepared.loaded_kernel.allocations) _ _ h3 in
      let final = ok-eq (outcome-eq h4) in
      record {
        mmap = mmap;
        room = size;
        sized = e1;
        last = ground (arith, e2);
        in_place =
            subst (λ (j : Jump). InPlace j.kernel prepared.loaded_kernel.allocations) final
              (move_all-InPlace info.regions prepared.loaded_kernel.allocations kernel _ w4 e4);
        memory =
            sym (memory-eq h4)
            ∙ move_all-memory info.regions prepared.loaded_kernel.allocations kernel _ w4 e4;
        info = info;
        told = e3;
        passed =
            subst
              (λ (j : Jump).
                IsPassed prepared.loaded_kernel.allocations (c.places prepared info)
                  (prepared.multiboot_information, info) j.information)
              final
              (unless-IsPassed prepared.loaded_kernel.allocations (c.places prepared info)
                (prepared.multiboot_information, info));
        entry =
            subst (λ (j : Jump). IsEntry t prepared.loaded_kernel.addresses j.entry_address) final
              (entry_of-IsEntry t prepared.loaded_kernel.addresses);
      }
