-- ===== src/Mem/Move.antt =====
-- src/mem.rs: `Allocation::contains` and `move_to_where_it_should_be`.
pub mod Laws
use towboot_rust.Prelude.{
  ℕ, ◌+◌, ◌*◌, ◌%◌, ◌^◌, Bool, true, false, Option, none, some, List, [], ◌∷◌, leb, if◌then◌else◌,
  Outcome, ok, panic, narrow, Target, wrap, assert, ◌>>?◌,
}
use towboot_rust.Firmware.{Status, World}
use towboot_rust.Firmware.Exec.{Exec, pure, lift, ◌>>=◌, ◌>>◌}
use towboot_rust.Multiboot.{MemoryEntry, MemoryType, available}
use towboot_rust.Mem.Map.{page_size}
use towboot_rust.Mem.Allocation.{Allocation}
use towboot_rust.Mem.Bytes.{copy}

-- `filter.next().is_none()`.
abbrev pub is_last : Option (MemoryEntry × List MemoryEntry) → Bool
is_last none = true
is_last (some _) = false

module _ (t : Target) where
  -- Checks whether a part of memory is allocated. `as usize` cuts an address off.
  pub contains : Allocation → ℕ → ℕ → Outcome ⊥ Bool
  contains a begin length =
      if leb a.ptr begin
      then wrap t t.usize_bits (a.pages * page_size)
        >>? (λ bytes. wrap t t.usize_bits (a.ptr % 2 ^ t.usize_bits + bytes))
        >>? (λ end.
            wrap t t.usize_bits (begin % 2 ^ t.usize_bits + length) >>? λ last. ok (leb last end))
      else ok false

  -- `e.base_address() <= a && e.base_address() + e.length() >= a + self.len`.
  unfoldable pub is_around : ℕ → ℕ → MemoryEntry → Outcome ⊥ Bool
  is_around a len e =
      if leb e.base_address a
      then wrap t 64 (e.base_address + e.length)
        >>? (λ end. wrap t 64 (a + len) >>? λ last. ok (leb last end))
      else ok false

  -- `filter.next()`: the next entry that passes, and those behind it.
  unfoldable pub next_around :
      ℕ → ℕ → List MemoryEntry → Outcome ⊥ (Option (MemoryEntry × List MemoryEntry))
  next_around a len [] = ok none
  next_around a len (e ∷ es) =
      let rest = next_around a len es in
      is_around a len e >>? λ found. if found then ok (some (e, es)) else rest

  module _ {S : Type 0} where
    abbrev pub copy_to : Allocation → ℕ → MemoryType → Exec S ⊥ (Unit {0})
    copy_to a dst available w = (
      narrow t.usize_bits dst >>? λ dest. narrow t.usize_bits a.ptr >>? λ src. ok tt,
      record w { memory = copy a.ptr dst a.len w.memory },
    )
    copy_to a dst _ w = (panic "would overwrite an entry", w)

    abbrev pub move_into :
        Allocation → ℕ → Option (MemoryEntry × List MemoryEntry) → Exec S ⊥ Allocation
    move_into a dst none = lift (panic "no memory map entry contains the place we want to write to")
    move_into a dst (some (entry, rest)) = do
      copy_to a dst entry.memory_type
      more ← lift (next_around dst a.len rest)
      lift (assert (is_last more) "filter.next().is_none()")
      pure (record a { ptr = dst; should_be_at = none })

    abbrev pub move_if : Allocation → Option ℕ → List MemoryEntry → Exec S ⊥ Allocation
    move_if a none memory_map = pure a
    move_if a (some dst) memory_map = do
      found ← lift (next_around dst a.len memory_map)
      move_into a dst found

    unfoldable pub move_to_where_it_should_be : Allocation → List MemoryEntry → Exec S ⊥ Allocation
    move_to_where_it_should_be a memory_map = move_if a a.should_be_at memory_map
