-- ===== src/Prepare/Leaving.antt =====
-- src/boot/mod.rs: leaving the firmware and moving the kernel does not free or allocate pages.
use towboot_rust.Prelude.{
  ℕ, ◌+◌, Option, none, some, List, [], ◌∷◌, ok, Target, expect, assert, panic, narrow, ◌>>?◌,
  replicate, wrap,
}
use towboot_rust.Firmware.Exec.{lift, call}
use towboot_rust.Firmware.Laws.{Ledger}
use towboot_rust.Multiboot.{MemoryEntry, MemoryType, available}
use towboot_rust.Mem.Map.{prepare_information}
use towboot_rust.Mem.Allocation.{Allocation}
use towboot_rust.Mem.Bytes.{copy}
use towboot_rust.Mem.Move.{
  copy_to, move_into, move_if, move_to_where_it_should_be, next_around, is_last,
}
use towboot_rust.Mem.Allocation.Ledger.{
  Balanced-lift, Balanced-look, Balanced-silent, Balanced-call,
}
use towboot_rust.Mem.Allocation.Quiet.{Quiet, Leaves, Quiet-pure, Quiet-bind}
use towboot_rust.Prepare.{
  unless, moved_over, PreparedEntry, LastCall, boot, move_all, entry_of, empty_entry,
}

module _ (t : Target) {S : Type 0} (held : S → Ledger) where
  Quiet-copy_to : (a : Allocation) (dst : ℕ) (kind : MemoryType) → Quiet held (copy_to t a dst kind)
  Quiet-copy_to a dst available =
      Balanced-silent held
        (λ w. narrow t.usize_bits dst >>? λ dest. narrow t.usize_bits a.ptr >>? λ src. ok tt)
        (λ w. copy a.ptr dst a.len w.memory)
  Quiet-copy_to a dst kind = Balanced-look held (λ w. panic "would overwrite an entry")

  Quiet-move_into :
      (a : Allocation) (dst : ℕ) (o : Option (MemoryEntry × List MemoryEntry))
      → Quiet held (move_into t a dst o)
  Quiet-move_into a dst none =
      Balanced-lift held (panic "no memory map entry contains the place we want to write to")
  Quiet-move_into a dst (some (entry, rest)) =
      Quiet-bind held (copy_to t a dst entry.memory_type) _ (Quiet-copy_to a dst entry.memory_type)
        (λ _.
          Quiet-bind held (lift (next_around t dst a.len rest)) _
            (Balanced-lift held (next_around t dst a.len rest))
            (λ more.
              Quiet-bind held (lift (assert (is_last more) "filter.next().is_none()")) _
                (Balanced-lift held (assert (is_last more) "filter.next().is_none()"))
                (λ _. Quiet-pure held _)))

  Quiet-move_if :
      (a : Allocation) (o : Option ℕ) (mmap : List MemoryEntry) → Quiet held (move_if t a o mmap)
  Quiet-move_if a none mmap = Quiet-pure held a
  Quiet-move_if a (some dst) mmap =
      Quiet-bind held (lift (next_around t dst a.len mmap)) _
        (Balanced-lift held (next_around t dst a.len mmap)) (Quiet-move_into a dst)

  Quiet-move_all :
      (mmap : List MemoryEntry) (xs : List Allocation) → Quiet held (move_all t mmap xs)
  unfolding move_all move_to_where_it_should_be
  Quiet-move_all mmap [] = Quiet-pure held _
  Quiet-move_all mmap (a ∷ rest) =
      Quiet-bind held (move_if t a a.should_be_at mmap) _ (Quiet-move_if a a.should_be_at mmap)
        (λ moved.
          Quiet-bind held (move_all t mmap rest) _ (Quiet-move_all mmap rest)
            (λ others. Quiet-pure held (moved ∷ others)))

  pub Quiet-boot :
      (c : LastCall S) (prepared : PreparedEntry)
      → ((n : ℕ) → Leaves held (c.exit_boot_services n))
      → Quiet held (boot t c prepared)
  unfolding boot
  Quiet-boot c prepared leaves =
      Quiet-bind held (λ w. (wrap t t.usize_bits (c.map_size w.firmware + 100), w)) _
        (Balanced-look held (λ w. wrap t t.usize_bits (c.map_size w.firmware + 100)))
        (λ size.
          Quiet-bind held (call (c.exit_boot_services size)) _
            (Balanced-call held (c.exit_boot_services size) (leaves size))
            (λ answer.
              Quiet-bind held (lift (expect answer "failed to exit boot services")) _
                (Balanced-lift held (expect answer "failed to exit boot services"))
                (λ mmap.
                  Quiet-bind held (lift (prepare_information t mmap (replicate size empty_entry))) _
                    (Balanced-lift held (prepare_information t mmap (replicate size empty_entry)))
                    (λ info.
                      Quiet-bind held (move_all t info.regions prepared.loaded_kernel.allocations) _
                        (Quiet-move_all info.regions prepared.loaded_kernel.allocations)
                        (λ kernel. Quiet-pure held (record {
                          information =
                              unless
                                (moved_over prepared.loaded_kernel.allocations
                                  (c.places prepared info))
                                (prepared.multiboot_information, info);
                          kernel = kernel;
                          entry_address = entry_of t prepared.loaded_kernel.addresses;
                        }))))))
